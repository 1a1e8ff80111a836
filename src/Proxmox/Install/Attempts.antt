-- ===== src/Proxmox/Install/Attempts.antt =====
-- internal/backend/proxmox/proxmox.go: what the cleanup attempts, and what it leaves as it is.
use ubuntu_vm_template_build.Base.{
  ℤ, ◌⊎◌, refl, inl, inr, false, not, ◌&&◌, ◌||◌, is_empty, is_positive, OneOf,
}
use ubuntu_vm_template_build.Text.{Text}
use ubuntu_vm_template_build.Proxmox.Config.{ConnectionConfig}
use ubuntu_vm_template_build.Proxmox.Client.{
  Client, Event, History, Reply, replied, no_reply, deleted_volume, stopped_vm, deleted_vm, waited,
}
use ubuntu_vm_template_build.Proxmox.Install.{Progress, Outcome, returned, failed, update}
use ubuntu_vm_template_build.Proxmox.Install.Iso.{
  iso_storage_of, deleted, delete_volume_of, delete_temporary_iso,
}
use ubuntu_vm_template_build.Proxmox.Install.Machine.{is_running, destroy_interrupted_vm}
use ubuntu_vm_template_build.Proxmox.Install.Run.{set_created, when_returned, remove_vm, remove_iso}
use ubuntu_vm_template_build.Proxmox.Install.Triple.{
  Assertion, Triple, with_event, Triple->>=, Triple->>, Triple-done, Triple-if, Triple-call,
  Triple-update, Triple-the_state, Triple-weaken, Triple-attempt, Triple-call_lasts,
}

module _ (cfg : ConnectionConfig) (client : Client) where
  -- The deletion of the VM was asked for, or its stop was and failed.
  unfoldable pub IsVmAttempted : ℤ → History → Type 0
  IsVmAttempted vmid h =
      ((r : Reply Text) × OneOf (deleted_vm cfg.node vmid r) h)
      ⊎ (((r : Reply Text) × OneOf (stopped_vm cfg.node vmid r) h)
          × (OneOf (stopped_vm cfg.node vmid no_reply) h
              ⊎ ((task : Text) × OneOf (waited cfg.node task no_reply) h)))

  unfoldable pub IsIsoAttempted : Text → Text → History → Type 0
  IsIsoAttempted storage volume h =
      (r : Reply Text) × OneOf (deleted_volume cfg.node storage volume r) h

  abbrev pub Lasts : Assertion → Type 0
  Lasts K = (e : Event) (s : Progress) → K s → K (with_event e s)

  pub IsVmAttempted-more : (vmid : ℤ) → Lasts (λ s. IsVmAttempted vmid s.history)
  unfolding IsVmAttempted
  IsVmAttempted-more vmid e s (inl (r, m)) = inl (r, inr m)
  IsVmAttempted-more vmid e s (inr ((r, m), inl k)) = inr ((r, inr m), inl (inr k))
  IsVmAttempted-more vmid e s (inr ((r, m), inr (task, k))) = inr ((r, inr m), inr (task, inr k))

  pub destroy-attempts :
      (vmid : ℤ)
      → Triple
          (λ _. Unit)
          (destroy_interrupted_vm client cfg.node vmid)
          (λ _ s. IsVmAttempted vmid s.history)
          (λ s. IsVmAttempted vmid s.history)
  unfolding destroy_interrupted_vm IsVmAttempted
  destroy-attempts vmid =
      Triple->>= {Q = λ _ _. Unit} (record { runs = λ s p. tt })
        (λ status.
          Triple->> {Q = λ _ _. Unit}
            (Triple-if (is_running status)
              (λ _.
                Triple->>=
                  {Q = λ task s. (r : Reply Text) × OneOf (stopped_vm cfg.node vmid r) s.history}
                  (Triple-call _ _ (stopped_vm cfg.node vmid) (λ s task _. (replied task, inl refl))
                    (λ s _. inr ((no_reply, inl refl), inl (inl refl))))
                  (λ task.
                    Triple-call _ _ (waited cfg.node task) (λ s a _. tt)
                      (λ s (r, m). inr ((r, inr m), inr (task, inl refl)))))
              (λ _. Triple-done tt (λ s _. tt)))
            (λ _.
              Triple->>= {Q = λ task s. IsVmAttempted vmid s.history}
                (Triple-call _ _ (deleted_vm cfg.node vmid)
                  (λ s task _. inl (replied task, inl refl)) (λ s _. inl (no_reply, inl refl)))
                (λ task. Triple-call_lasts _ _ _ (waited cfg.node task) (IsVmAttempted-more vmid))))

  -- Whatever the events and the mark of the VM leave true, the removal of the VM does.
  pub remove_vm-keeps :
      (K F : Assertion)
      → Lasts K
      → ((s : Progress) → K s → K (record s { build = set_created false s.build }))
      → Triple K (remove_vm client cfg) (λ _. K) F
  unfolding remove_vm destroy_interrupted_vm
  remove_vm-keeps K F lasts marks = Triple-the_state (λ b.
      Triple-if (b.vm_created && is_positive b.vmid)
        (λ _.
          Triple-attempt
            (Triple-weaken (λ s (k, _). k) (λ _ s k. k) (λ s k. k)
              (Triple->>= {Q = λ _. K} (record { runs = λ s k. lasts _ s k })
                (λ status.
                  Triple->> {Q = λ _. K}
                    (Triple-if (is_running status)
                      (λ _.
                        Triple->>= (Triple-call_lasts K _ _ (stopped_vm cfg.node b.vmid) lasts)
                          (λ task. Triple-call_lasts K _ _ (waited cfg.node task) lasts))
                      (λ _. Triple-done tt (λ s k. k)))
                    (λ _.
                      Triple->>= (Triple-call_lasts K _ _ (deleted_vm cfg.node b.vmid) lasts)
                        (λ task. Triple-call_lasts K _ _ (waited cfg.node task) lasts)))))
            (λ o. marked o))
        (λ _. Triple-done tt (λ s (k, _). k)))
    where
      marked :
          (o : Outcome Unit) → Triple K (when_returned o (update (set_created false))) (λ _. K) F
      marked (returned x) = Triple-update (set_created false) marks
      marked (failed e) = Triple-done tt (λ s k. k)

  pub remove_iso-keeps :
      (K : History → Type 0)
      → Lasts (λ s. K s.history)
      → Triple (λ s. K s.history) (remove_iso client cfg) (λ _ s. K s.history) (λ s. K s.history)
  unfolding remove_iso delete_temporary_iso delete_volume_of
  remove_iso-keeps K lasts = Triple-the_state (λ b.
      Triple-if (not (is_empty b.temp_iso_volume_id) && not b.temp_iso_deleted)
        (λ _.
          Triple-attempt
            (Triple-weaken (λ s (k, _). k) (λ _ s k. k) (λ s k. k)
              (Triple-the_state (λ b.
                Triple-if (is_empty b.temp_iso_volume_id || b.temp_iso_deleted)
                  (λ _. Triple-done tt (λ s (k, _). k))
                  (λ _.
                    Triple-weaken (λ s (k, _). k) (λ _ s k. k) (λ s k. k)
                      (Triple->>=
                        (Triple-call_lasts (λ s. K s.history) _ _
                          (deleted_volume cfg.node (iso_storage_of cfg b) b.temp_iso_volume_id)
                          lasts)
                        (λ task.
                          Triple->>
                            (Triple-call_lasts (λ s. K s.history) _ _ (waited cfg.node task) lasts)
                            (λ _. Triple-update deleted (λ s k. k))))))))
            (λ o. Triple-done tt (λ s k. k)))
        (λ _. Triple-done tt (λ s (k, _). k)))
