-- ===== src/Proxmox/Install/Safety/Cleaned.antt =====
-- internal/backend/proxmox/proxmox.go: the cleanup of an interrupted build touches what is its own.
use ubuntu_vm_template_build.Base.{
  ℤ, ◌≡◌, refl, subst, true, false, not, ◌&&◌, is_empty, is_positive, arith,
}
use ubuntu_vm_template_build.Proxmox.Config.{ConnectionConfig}
use ubuntu_vm_template_build.Proxmox.Client.{Client, stopped_vm, deleted_vm, waited}
use ubuntu_vm_template_build.Proxmox.Install.{Outcome, returned, failed, update}
use ubuntu_vm_template_build.Proxmox.Install.Machine.{is_running, destroy_interrupted_vm}
use ubuntu_vm_template_build.Proxmox.Install.Run.{
  set_created, when_returned, remove_vm, remove_iso, cleanup_interrupted_build,
}
use ubuntu_vm_template_build.Proxmox.Install.Triple.{
  Triple, Triple->>=, Triple->>, Triple-done, Triple-if, Triple-update, Triple-the_state,
  Triple-weaken, Triple-attempt,
}
use ubuntu_vm_template_build.Proxmox.Install.Safety.{IsOwn, IsCreated, Inv}
use ubuntu_vm_template_build.Proxmox.Install.Safety.Prepared.{
  Carries, Past, call-keeps, IsCreated-more, Inv-with_event,
}
use ubuntu_vm_template_build.Proxmox.Install.Safety.Uploads.{delete_temporary_iso-Inv}
use ubuntu_vm_template_build.Proxmox.Install.Safety.Changes.{Mine-Lasts}

module _ (cfg : ConnectionConfig) (client : Client) where
  destroy_interrupted_vm-Inv :
      (vmid : ℤ)
      → Triple
          (Carries cfg (Past cfg (IsCreated cfg vmid)))
          (destroy_interrupted_vm client cfg.node vmid)
          (λ _. Inv cfg)
          (Inv cfg)
  unfolding destroy_interrupted_vm IsOwn
  destroy_interrupted_vm-Inv vmid =
      let lasts = Mine-Lasts cfg client vmid in
      Triple->>= {Q = λ _. Carries cfg (Past cfg (IsCreated cfg vmid))}
        (record {
          runs = λ s (i, c). (Inv-with_event cfg _ s i tt, IsCreated-more cfg vmid _ s.history c);
        })
        (λ status.
          Triple->> {Q = λ _. Carries cfg (Past cfg (IsCreated cfg vmid))}
            (Triple-if (is_running status)
              (λ _.
                Triple->>=
                  (call-keeps cfg _ _ _ (stopped_vm cfg.node vmid) lasts (λ r s c. (refl, c)))
                  (λ task. call-keeps cfg _ _ _ (waited cfg.node task) lasts (λ r s c. tt)))
              (λ _. Triple-done tt (λ s p. p)))
            (λ _.
              Triple->>=
                (call-keeps cfg _ _ _ (deleted_vm cfg.node vmid) lasts (λ r s c. (refl, c)))
                (λ task.
                  Triple-weaken (λ s p. p) (λ _ s (i, _). i) (λ s i. i)
                    (call-keeps cfg _ _ _ (waited cfg.node task) lasts (λ r s c. tt)))))

  when_returned-Inv :
      (o : Outcome Unit)
      → Triple (Inv cfg) (when_returned o (update (set_created false))) (λ _. Inv cfg) (Inv cfg)
  when_returned-Inv (returned x) =
      Triple-update (set_created false)
        (λ s i. record { own = i.own; machine = λ made. cc; iso = i.iso; storage = i.storage })
  when_returned-Inv (failed e) = Triple-done tt (λ s i. i)

  remove_vm-Inv : Triple (Inv cfg) (remove_vm client cfg) (λ _. Inv cfg) (Inv cfg)
  unfolding remove_vm
  remove_vm-Inv = Triple-the_state (λ b.
      Triple-if (b.vm_created && is_positive b.vmid)
        (λ made.
          Triple-attempt
            (Triple-weaken
              (λ s (i, same). (
                i,
                subst (λ b. b.vm_created ≡ true → IsCreated cfg b.vmid s.history) same i.machine
                    (ground arith),
              ))
              (λ _ s i. i) (λ s i. i) (destroy_interrupted_vm-Inv b.vmid))
            when_returned-Inv)
        (λ _. Triple-done tt (λ s (i, _). i)))

  remove_iso-Inv : Triple (Inv cfg) (remove_iso client cfg) (λ _. Inv cfg) (Inv cfg)
  unfolding remove_iso
  remove_iso-Inv = Triple-the_state (λ b.
      Triple-if (not (is_empty b.temp_iso_volume_id) && not b.temp_iso_deleted)
        (λ _.
          Triple-attempt
            (Triple-weaken (λ s (i, _). i) (λ _ s i. i) (λ s i. i)
              (delete_temporary_iso-Inv cfg client))
            (λ o. Triple-done tt (λ s i. i)))
        (λ _. Triple-done tt (λ s (i, _). i)))

  pub cleanup-Inv : Triple (Inv cfg) (cleanup_interrupted_build client cfg) (λ _. Inv cfg) (Inv cfg)
  unfolding cleanup_interrupted_build
  cleanup-Inv = Triple->> remove_vm-Inv (λ _. remove_iso-Inv)
