-- ===== src/Proxmox/Install/Safety/Whole.antt =====
-- internal/backend/proxmox/proxmox.go: the VM's run, the cleanup, and the whole of `installWithClient`.
use ubuntu_vm_template_build.Base.{ℕ, ℤ, ◌≡◌, refl, true, not, ◌&&◌, inl, inr, Bool-cases, ◌∷◌}
use ubuntu_vm_template_build.Text.{Text}
use ubuntu_vm_template_build.Proxmox.Config.{Config, ConnectionConfig, normalize_connection_config}
use ubuntu_vm_template_build.Proxmox.Client.{Client, Event, History}
use ubuntu_vm_template_build.Proxmox.Install.{Progress, Outcome}
use ubuntu_vm_template_build.Proxmox.Install.Run.{
  set_output_started, set_completed, finish_vm, build_vm, cleanup_interrupted_build, cleaned_up,
  start, install_with_client,
}
use ubuntu_vm_template_build.Proxmox.Install.Triple.{
  Post, Triple, Triple->>=, Triple->>, Triple-update, Triple-weaken, Post-both, Assertion,
}
use ubuntu_vm_template_build.Proxmox.Install.Safety.{
  AllOwn, IsCreated, IsEnded, IsRemoved, Inv,
}
use ubuntu_vm_template_build.Proxmox.Install.Safety.Prepared.{
  Carries, Lasts, Past, prepare-IsPrepared, NotCreated, IsUploaded-more,
}
use ubuntu_vm_template_build.Proxmox.Install.Safety.Uploads.{
  Placed, delete_temporary_iso-IsRemoved, upload_iso-IsUploaded,
}
use ubuntu_vm_template_build.Proxmox.Install.Safety.Machines.{create_vm-IsCreated}
use ubuntu_vm_template_build.Proxmox.Install.Safety.Changes.{
  IsStopped, IsFinalized, IsConverted, power_on-IsStopped, finalize-IsFinalized,
  convert-IsConverted, Mine-Lasts, cloud_init-Keeps, options-Keeps,
}
use ubuntu_vm_template_build.Proxmox.Install.Safety.Cleaned.{cleanup-Inv}

module _ (cfg : ConnectionConfig) (client : Client) where
  -- What a build that has ended well has done.
  pub record IsSuccess (build_cfg : Config) (s : Progress) : Type 0 where
    pub completed : s.build.completed ≡ true
    pub volume : Text
    pub removed : IsRemoved cfg volume s.history
    pub vmid : ℤ
    pub created : IsCreated cfg vmid s.history
    pub stopped : IsStopped cfg client vmid s.history
    pub finalized : IsFinalized cfg client vmid build_cfg s.history
    pub converted : IsConverted cfg client vmid build_cfg.hardware.proxmox.output_type s.history

  IsFinalized-more :
      (vmid : ℤ) (build_cfg : Config) (e : Event) (h : History)
      → IsFinalized cfg client vmid build_cfg h
      → IsFinalized cfg client vmid build_cfg (e ∷ h)
  unfolding IsEnded
  IsFinalized-more vmid build_cfg e h (values, task, same, m) = (values, task, same, inr m)

  IsConverted-more :
      (vmid : ℤ) (output_type : Text) (e : Event) (h : History)
      → IsConverted cfg client vmid output_type h
      → IsConverted cfg client vmid output_type (e ∷ h)
  unfolding IsEnded
  IsConverted-more vmid output_type e h c template = let (task, m) = c template in (task, inr m)

  finish_vm-IsSuccess :
      (build_cfg : Config) (volume : Text) (vmid : ℤ) (polls : ℕ)
      → Triple
          (Carries cfg (λ s. IsCreated cfg vmid s.history × Placed cfg client volume s))
          (finish_vm client cfg build_cfg vmid polls)
          (λ _. Carries cfg (IsSuccess build_cfg))
          (Inv cfg)
  unfolding finish_vm
  finish_vm-IsSuccess build_cfg volume vmid polls =
      let P = Placed cfg client volume in
      let lasts0 : Lasts cfg P =
        λ e s (u, p). (IsUploaded-more cfg cfg.iso_storage volume e s.history u, p) in
      let lasts_mine = Mine-Lasts cfg client vmid in
      let K1 : Assertion = λ s. IsCreated cfg vmid s.history × P s in
      let lasts1 : Lasts cfg K1 = λ e s (c, p). (lasts_mine e s c, lasts0 e s p) in
      let K2 : Assertion = λ s. K1 s × IsStopped cfg client vmid s.history in
      let lasts2 : Lasts cfg K2 = λ e s (k, m). (lasts1 e s k, inr m) in
      let K3 : Assertion = λ s. K2 s × IsFinalized cfg client vmid build_cfg s.history in
      let lasts3 : Lasts cfg K3 =
        λ e s (k, f). (lasts2 e s k, IsFinalized-more vmid build_cfg e s.history f) in
      let output_type = build_cfg.hardware.proxmox.output_type in
      let K4 : History → Type 0 = λ h.
        ((IsCreated cfg vmid h × IsStopped cfg client vmid h)
          × IsFinalized cfg client vmid build_cfg h)
        × IsConverted cfg client vmid output_type h in
      let lasts4 : Lasts cfg (Past cfg K4) =
        λ e s (((c, st), f), t). (
          (
            (lasts_mine e s c, inr st),
            IsFinalized-more vmid build_cfg e s.history f,
          ),
          IsConverted-more vmid output_type e s.history t,
        ) in
      Triple->> (power_on-IsStopped cfg client vmid K1 lasts1 (λ s k. k.0) polls) (λ _.
        Triple->>
          (Triple-update {Q = λ _. Carries cfg K2} set_output_started (λ s (i, k).
            (record { own = i.own; machine = i.machine; iso = i.iso; storage = i.storage }, k)))
          (λ _.
            Triple->> (finalize-IsFinalized cfg client vmid K2 lasts2 (λ s k. k.0.0) build_cfg) (λ _.
              Triple->> (cloud_init-Keeps cfg client vmid K3 lasts3 (λ s k. k.0.0.0) build_cfg) (λ _.
                Triple->> (options-Keeps cfg client vmid K3 lasts3 (λ s k. k.0.0.0) build_cfg) (λ _.
                  Triple->>
                    (convert-IsConverted cfg client vmid K3 lasts3 (λ s k. k.0.0.0) output_type)
                    (λ _.
                      Triple->>
                        (Triple-weaken
                          (λ s (i, ((((c, p), st), f), t)). (i, ((((c, st), f), t), p)))
                          (λ _ s p. p) (λ s i. i)
                          (delete_temporary_iso-IsRemoved cfg client K4 lasts4 volume))
                        (λ _. Triple-update set_completed (λ s (i, ((((c, st), f), t), gone)). (
                          record {
                            own = i.own;
                            machine = i.machine;
                            iso = i.iso;
                            storage = i.storage;
                          },
                          record {
                            completed = refl;
                            volume = volume;
                            removed = gone;
                            vmid = vmid;
                            created = c;
                            stopped = st;
                            finalized = f;
                            converted = t;
                          },
                        )))))))))

  build_vm-IsSuccess :
      (build_cfg : Config) (time : Text) (polls : ℕ)
      → Triple
          (Carries cfg (NotCreated cfg))
          (build_vm client cfg build_cfg time polls)
          (λ _. Carries cfg (IsSuccess build_cfg))
          (Inv cfg)
  unfolding build_vm
  build_vm-IsSuccess build_cfg time polls =
      Triple->>= (prepare-IsPrepared cfg client build_cfg) (λ path.
        Triple->>= (upload_iso-IsUploaded cfg client time path) (λ volume.
          Triple->>= (create_vm-IsCreated cfg client build_cfg volume)
            (λ vmid. finish_vm-IsSuccess build_cfg volume vmid polls)))

  build_vm-Inv :
      (build_cfg : Config) (time : Text) (polls : ℕ)
      → Triple
          (Carries cfg (NotCreated cfg))
          (build_vm client cfg build_cfg time polls)
          (λ _. Inv cfg)
          (Inv cfg)
  build_vm-Inv build_cfg time polls =
      Triple-weaken (λ s p. p) (λ _ s (i, _). i) (λ s i. i)
        (build_vm-IsSuccess build_cfg time polls)

  cleaned_up-own :
      (o : Outcome Unit × Progress)
      → Post (λ _. Inv cfg) (Inv cfg) o
      → AllOwn cfg (cleaned_up client cfg o).1.history
  cleaned_up-own (o, s) h =
      elim (Bool-cases (client.interrupted s.history && not s.build.completed)) [
        | inl clean ↦
            let kept = (cleanup-Inv cfg client).runs s (Post-both (Inv cfg) (o, s) h) in
            rw clean ((Post-both (Inv cfg) (cleanup_interrupted_build client cfg s) kept).own)
        | inr leave ↦ rw leave ((Post-both (Inv cfg) (o, s) h).own)
      ]

start-Inv : (cfg : ConnectionConfig) → Inv cfg start
unfolding AllOwn
start-Inv cfg = record {
  own = tt;
  machine = λ made. cc;
  iso = λ some_iso. absurd (some_iso refl);
  storage = refl;
}

-- Whatever the server answers and whenever the interrupt comes, every call of a run that changes
-- something, the cleanup's included, is the run's own: the upload comes after a valid node, a free
-- name and an absent volume; the VM is created from an uploaded volume; a VM that is started,
-- reconfigured, converted, stopped or deleted is one whose creation the server has accepted in this
-- run; and a volume that is deleted is one that this run has uploaded.
pub install_with_client-AllOwn :
    (client : Client) (build_cfg : Config) (time : Text) (polls : ℕ)
    → AllOwn
        (normalize_connection_config build_cfg.proxmox build_cfg.display_name)
        (install_with_client client build_cfg time polls).1.history
unfolding install_with_client
install_with_client-AllOwn client build_cfg time polls =
    let cfg = normalize_connection_config build_cfg.proxmox build_cfg.display_name in
    cleaned_up-own cfg client _
      ((build_vm-Inv cfg client build_cfg time polls).runs start (start-Inv cfg, (refl, refl)))
