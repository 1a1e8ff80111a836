-- ===== src/Proxmox/Install/Safety/Prepared.antt =====
-- internal/backend/proxmox/proxmox.go: what a call leaves true, and the checks before the upload.
use ubuntu_vm_template_build.Base.{ℤ, ◌≡◌, refl, false, List, [], ◌∷◌, inl, inr, OneOf}
use ubuntu_vm_template_build.Text.{Text}
use ubuntu_vm_template_build.Proxmox.Disk.{Allocation, allocated, bad_size, not_positive, too_large}
use ubuntu_vm_template_build.Proxmox.Storage.{Requirement}
use ubuntu_vm_template_build.Proxmox.Config.{Config, ConnectionConfig}
use ubuntu_vm_template_build.Proxmox.Client.{
  Client, Event, History, Reply, replied, no_reply, validated_node, listed_vms, made_iso,
  got_storage_status, stat_file, waited,
}
use ubuntu_vm_template_build.Proxmox.Install.{Progress, InstallError, call}
use ubuntu_vm_template_build.Proxmox.Install.Prepare.{
  validate_target_name_available, bytes_of, check_storages, preflight_build_storages, prepare,
}
use ubuntu_vm_template_build.Proxmox.Install.Triple.{
  Assertion, Triple, with_event, Triple->>=, Triple->>, Triple-done, Triple-fail, Triple-if,
  Triple-check, Triple-call,
}
use ubuntu_vm_template_build.Proxmox.Install.Safety.{
  IsOwn, AllOwn, IsCreated, IsUploaded, IsPrepared, IsEnded, Inv,
}

module _ (cfg : ConnectionConfig) where
  pub IsCreated-more :
      (vmid : ℤ) (e : Event) (h : History) → IsCreated cfg vmid h → IsCreated cfg vmid (e ∷ h)
  IsCreated-more vmid e h c = record {
    values = c.values;
    task = c.task;
    created = inr c.created;
    numbered = c.numbered;
  }

  pub IsUploaded-more :
      (storage volume : Text) (e : Event) (h : History)
      → IsUploaded cfg storage volume h
      → IsUploaded cfg storage volume (e ∷ h)
  IsUploaded-more storage volume e h u = record {
    upload = u.upload;
    got = u.got;
    made = inr u.made;
    named = u.named;
  }

  pub IsPrepared-more : (e : Event) (h : History) → IsPrepared cfg h → IsPrepared cfg (e ∷ h)
  IsPrepared-more e h p = record {
    valid = inr p.valid;
    vms = p.vms;
    listed = inr p.listed;
    no_clash = p.no_clash;
  }

  pub Inv-with_event :
      (e : Event) (s : Progress) → Inv cfg s → IsOwn cfg e s.history → Inv cfg (with_event e s)
  unfolding AllOwn
  Inv-with_event e s i own = record {
    own = (own, i.own);
    machine = λ created. IsCreated-more s.build.vmid e s.history (i.machine created);
    iso = λ some_iso.
        IsUploaded-more cfg.iso_storage s.build.temp_iso_volume_id e s.history (i.iso some_iso);
    storage = i.storage;
  }

  -- The invariant, and what has happened so far.
  abbrev pub Carries : Assertion → Assertion
  Carries K s = Inv cfg s × K s

  abbrev pub Lasts : Assertion → Type 0
  Lasts K = (e : Event) (s : Progress) → K s → K (with_event e s)

  -- What is said of the history alone.
  abbrev pub Past : (History → Type 0) → Assertion
  Past K s = K s.history

  abbrev pub NotCreated : Assertion
  NotCreated s = (s.build.vm_created ≡ false) × (s.build.temp_iso_deleted ≡ false)

  -- Ready for the upload.
  abbrev pub Ready : Assertion
  Ready s = IsPrepared cfg s.history × NotCreated s

  pub Ready-Lasts : Lasts Ready
  Ready-Lasts e s (p, n) = (IsPrepared-more e s.history p, n)

  -- A call whose event is the run's own keeps the invariant and what has happened, and has happened.
  pub call-Carries :
      {A : Type 0} (K : Assertion) (e : InstallError) (ask : History → Reply A)
      (event : Reply A → Event)
      → Lasts K
      → ((r : Reply A) (s : Progress) → K s → IsOwn cfg (event r) s.history)
      → Triple
          (Carries K)
          (call e ask event)
          (λ a. Carries (λ s. K s × OneOf (event (replied a)) s.history))
          (Inv cfg)
  call-Carries K e ask event lasts own =
      Triple-call e ask event
        (λ s a (i, k). (Inv-with_event _ s i (own (replied a) s k), (lasts _ _ k, inl refl)))
        (λ s (i, k). Inv-with_event _ s i (own no_reply s k))

  -- Behind the wait for its task, a call has ended.
  pub call-IsEnded :
      (K : Assertion) (failure : InstallError) (ask : History → Reply Unit) (task : Text) (e : Event)
      → Lasts K
      → Triple
          (Carries (λ s. K s × OneOf e s.history))
          (call failure ask (waited cfg.node task))
          (λ _. Carries (λ s. K s × IsEnded cfg task e s.history))
          (Inv cfg)
  unfolding IsOwn IsEnded
  call-IsEnded K failure ask task e lasts =
      Triple-call failure ask (waited cfg.node task)
        (λ s a (i, (k, m)). (Inv-with_event _ s i tt, (lasts _ _ k, inl (refl, m))))
        (λ s (i, _). Inv-with_event _ s i tt)

  -- So does a call of which only that is to be known.
  pub call-keeps :
      {A : Type 0} (K : Assertion) (e : InstallError) (ask : History → Reply A)
      (event : Reply A → Event)
      → Lasts K
      → ((r : Reply A) (s : Progress) → K s → IsOwn cfg (event r) s.history)
      → Triple (Carries K) (call e ask event) (λ a. Carries K) (Inv cfg)
  call-keeps K e ask event lasts own =
      Triple-call e ask event
        (λ s a (i, k). (Inv-with_event _ s i (own (replied a) s k), lasts _ _ k))
        (λ s (i, k). Inv-with_event _ s i (own no_reply s k))

  module _ (client : Client) where
    validate_target_name_available-IsPrepared :
        Triple
          (Carries (λ s. NotCreated s × OneOf (validated_node cfg.node (replied tt)) s.history))
          (validate_target_name_available client cfg)
          (λ _. Carries Ready)
          (Inv cfg)
    unfolding validate_target_name_available IsOwn
    validate_target_name_available-IsPrepared =
        Triple->>=
          (call-Carries (λ s. NotCreated s × OneOf (validated_node cfg.node (replied tt)) s.history)
            _ _ (listed_vms cfg.node) (λ e s (n, k). (n, inr k)) (λ r h k. tt))
          (λ vms.
            Triple-check _ _
              (λ free s (i, ((n, valid), listed)).
                (i, (record { valid = valid; vms = vms; listed = listed; no_clash = free }, n)))
              (λ s (i, _). i))

    bytes_of-keeps :
        (K : Assertion) (a : Allocation)
        → Triple (Carries K) (bytes_of a) (λ _. Carries K) (Inv cfg)
    bytes_of-keeps K (allocated b) = Triple-done b (λ s p. p)
    bytes_of-keeps K (bad_size e) = Triple-fail _ (λ s (i, _). i)
    bytes_of-keeps K not_positive = Triple-fail _ (λ s (i, _). i)
    bytes_of-keeps K too_large = Triple-fail _ (λ s (i, _). i)

    check_storages-keeps :
        (K : Assertion)
        → Lasts K
        → (reqs : List Requirement)
        → Triple (Carries K) (check_storages client cfg.node reqs) (λ _. Carries K) (Inv cfg)
    unfolding check_storages IsOwn
    check_storages-keeps K lasts [] = Triple-done tt (λ s p. p)
    check_storages-keeps K lasts (req ∷ reqs) =
        Triple->>= (call-keeps K _ _ (got_storage_status cfg.node req.storage) lasts (λ r h k. tt))
          (λ status.
            Triple->> (Triple-check {Q = λ _. Carries K} _ _ (λ _ s p. p) (λ s (i, _). i))
              (λ _. check_storages-keeps K lasts reqs))

    preflight_build_storages-keeps :
        (K : Assertion)
        → Lasts K
        → (build_cfg : Config) (path : Text)
        → Triple
            (Carries K)
            (preflight_build_storages client cfg build_cfg path)
            (λ _. Carries K)
            (Inv cfg)
    unfolding preflight_build_storages IsOwn
    preflight_build_storages-keeps K lasts build_cfg path =
        Triple->>= (call-keeps K _ _ (stat_file path) lasts (λ r h k. tt)) (λ (is_regular, size).
          Triple->> {Q = λ _. Carries K}
            (Triple-if is_regular (λ _. Triple-done tt (λ s p. p))
              (λ _. Triple-fail _ (λ s (i, _). i)))
            (λ _. Triple->>= (bytes_of-keeps K _) (λ disk. check_storages-keeps K lasts _)))

    -- Behind the checks, the node is valid and the name free; they change nothing.
    pub prepare-IsPrepared :
        (build_cfg : Config)
        → Triple
            (Carries NotCreated)
            (prepare client cfg build_cfg)
            (λ path. Carries Ready)
            (Inv cfg)
    unfolding prepare IsOwn
    prepare-IsPrepared build_cfg =
        Triple->> (Triple-check {Q = λ _. Carries NotCreated} _ _ (λ _ s p. p) (λ s (i, _). i))
          (λ _.
            Triple->>
              (call-Carries NotCreated _ _ (validated_node cfg.node) (λ e h k. k) (λ r h k. tt))
              (λ _. Triple->> validate_target_name_available-IsPrepared (λ _.
                Triple->>= (call-keeps Ready _ _ made_iso Ready-Lasts (λ r h k. tt)) (λ path.
                  Triple->> (preflight_build_storages-keeps Ready Ready-Lasts build_cfg path)
                    (λ _. Triple-done path (λ s p. p))))))
