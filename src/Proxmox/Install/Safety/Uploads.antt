-- ===== src/Proxmox/Install/Safety/Uploads.antt =====
-- internal/backend/proxmox/proxmox.go: the temporary ISO is uploaded to a free place, and only what was
-- uploaded is deleted.
use ubuntu_vm_template_build.Base.{
  ◌∷◌, true, inl, inr, Bool-cases, ◌≡◌, ◌≢◌, refl, sym, ap, ◌∙◌, subst, arith, false, ◌||◌, [],
  is_empty, OneOf,
}
use ubuntu_vm_template_build.Text.{Text, trim_space, trim_by, trim_right_by, trim_left_by}
use ubuntu_vm_template_build.Proxmox.Config.{ConnectionConfig, build_volume_id, unless_blank, is_blank}
use ubuntu_vm_template_build.Proxmox.Client.{
  Client, History, StorageUpload, replied, asked_volume, uploaded, deleted_volume,
}
use ubuntu_vm_template_build.Proxmox.Install.{Progress, BuildState, call, upload_failed}
use ubuntu_vm_template_build.Proxmox.Install.Iso.{
  upload_content_iso, upload_temporary_installer_iso, deleted, iso_storage_of, delete_volume_of,
  delete_temporary_iso,
}
use ubuntu_vm_template_build.Proxmox.Install.Run.{set_iso, upload_iso}
use ubuntu_vm_template_build.Proxmox.Install.Triple.{
  Assertion, Triple, Triple->>=, Triple->>, Triple-done, Triple-fail, Triple-if, Triple-call,
  Triple-update, Triple-the_state, Triple-weaken,
}
use ubuntu_vm_template_build.Proxmox.Install.Safety.{
  IsOwn, IsUploaded, IsAbsent, IsEnded, IsRemoved, Inv,
}
use ubuntu_vm_template_build.Proxmox.Install.Safety.Prepared.{
  Carries, Lasts, Past, NotCreated, Ready, Ready-Lasts, call-Carries, call-IsEnded, Inv-with_event, IsUploaded-more,
}

built_full :
    (storage content file_name : Text)
    → is_empty (build_volume_id storage content file_name) ≡ false
unfolding build_volume_id
built_full [] content file_name = refl
built_full (s ∷ storage) content file_name = refl

named_full :
    (got storage content file_name : Text)
    → is_empty (unless_blank got (build_volume_id storage content file_name)) ≡ false
unfolding trim_space trim_by trim_right_by trim_left_by
named_full [] storage content file_name = built_full storage content file_name
named_full (c ∷ got) storage content file_name = elim (Bool-cases (is_blank (c ∷ got))) [
  | inl blank ↦ rw blank (built_full storage content file_name)
  | inr full ↦ rw full refl
]

module _ (cfg : ConnectionConfig) (client : Client) where
  module _ (K : History → Type 0) (lasts : Lasts cfg (Past cfg K)) where
    delete_volume_of-IsRemoved :
        (storage volume : Text)
        → Triple
            (λ s.
              Carries cfg (Past cfg K) s
              × ((storage ≡ cfg.iso_storage) × IsUploaded cfg storage volume s.history))
            (delete_volume_of client cfg storage volume)
            (λ _. Carries cfg (λ s. K s.history × IsRemoved cfg volume s.history))
            (Inv cfg)
    unfolding delete_volume_of IsOwn IsEnded
    delete_volume_of-IsRemoved storage volume =
        let Made : History → Type 0 = λ h.
          K h × ((storage ≡ cfg.iso_storage) × IsUploaded cfg storage volume h) in
        let lasting : Lasts cfg (Past cfg Made) =
          λ e s (k, (same, u)).
            (lasts e s k, (same, IsUploaded-more cfg storage volume e s.history u)) in
        Triple-weaken (λ s ((i, k), made). (i, (k, made))) (λ _ s p. p) (λ s i. i) (
          Triple->>=
            (call-Carries cfg (Past cfg Made) _ _ (deleted_volume cfg.node storage volume) lasting
              (λ r s (k, (same, u)). (refl, same, u)))
            (λ task.
              Triple->>
                (call-IsEnded cfg (Past cfg Made) _ _ task
                  (deleted_volume cfg.node storage volume (replied task)) lasting)
                (λ _. Triple-update deleted (λ s (i, ((k, (same, u)), ended)). (
                  record { own = i.own; machine = i.machine; iso = i.iso; storage = i.storage },
                  (
                    k,
                    subst
                        (λ t.
                          IsUploaded cfg t volume s.history
                          → IsEnded cfg task (deleted_volume cfg.node t volume (replied task))
                              s.history
                          → IsRemoved cfg volume s.history)
                        (sym same)
                        (λ u ended. record { uploaded = u; task = task; deleted = ended })
                        u ended,
                  ),
                )))))

  uploaded_volume :
      (b : BuildState)
      → is_empty b.temp_iso_volume_id || b.temp_iso_deleted ≡ false
      → b.temp_iso_volume_id ≢ []
  uploaded_volume b h e = ground arith

  of_state :
      (b : BuildState) (s : Progress)
      → b.temp_iso_volume_id ≢ []
      → s.build ≡ b
      → Inv cfg s
      → (iso_storage_of cfg b ≡ cfg.iso_storage)
        × IsUploaded cfg (iso_storage_of cfg b) b.temp_iso_volume_id s.history
  of_state b s some_iso same i =
      let storage : iso_storage_of cfg b ≡ cfg.iso_storage =
        subst (λ b. iso_storage_of cfg b ≡ cfg.iso_storage) same i.storage in
      let iso : IsUploaded cfg cfg.iso_storage b.temp_iso_volume_id s.history =
        subst
          (λ b.
            b.temp_iso_volume_id ≢ []
            → IsUploaded cfg cfg.iso_storage b.temp_iso_volume_id s.history)
          same i.iso some_iso in
      (storage, subst (λ t. IsUploaded cfg t b.temp_iso_volume_id s.history) (sym storage) iso)

  -- The uploaded volume has a name, which the state has, and is not marked as deleted.
  abbrev pub Placed : Text → Assertion
  Placed volume s =
      IsUploaded cfg cfg.iso_storage volume s.history
      × ((s.build.temp_iso_volume_id ≡ volume)
          × ((is_empty volume ≡ false) × (s.build.temp_iso_deleted ≡ false)))

  left_over :
      (volume : Text) (s : Progress) (b : BuildState)
      → s.build ≡ b
      → Placed volume s
      → is_empty b.temp_iso_volume_id || b.temp_iso_deleted ≡ true
      → ⊥
  left_over volume s b same (u, (named, (full, kept))) none_left =
      let none_left' =
        subst (λ b. is_empty b.temp_iso_volume_id || b.temp_iso_deleted ≡ true) (sym same)
          none_left in
      let full' = ap is_empty named ∙ full in
      ground (arith, none_left', full', kept)

  -- The deletion of the ISO that is there removes it.
  pub delete_temporary_iso-IsRemoved :
      (K : History → Type 0)
      → Lasts cfg (Past cfg K)
      → (volume : Text)
      → Triple
          (Carries cfg (λ s. K s.history × Placed volume s))
          (delete_temporary_iso client cfg)
          (λ _. Carries cfg (λ s. K s.history × IsRemoved cfg volume s.history))
          (Inv cfg)
  unfolding delete_temporary_iso
  delete_temporary_iso-IsRemoved K lasts volume = Triple-the_state (λ b.
      Triple-if (is_empty b.temp_iso_volume_id || b.temp_iso_deleted)
        (λ none_left. Triple-done tt (λ s ((i, (k, placed)), same).
          absurd (left_over volume s b same placed none_left)))
        (λ some_iso.
          Triple-weaken
            (λ s ((i, (k, placed)), same). (
              (i, (k, sym (ap (λ b. b.temp_iso_volume_id) same) ∙ placed.1.0)),
              of_state b s (uploaded_volume b some_iso) same i,
            ))
            (λ _ s (i, ((k, named), gone)).
              (i, (k, subst (λ v. IsRemoved cfg v s.history) named gone)))
            (λ s i. i)
            (delete_volume_of-IsRemoved (λ h. K h × (b.temp_iso_volume_id ≡ volume))
              (λ e s (k, named). (lasts e s k, named)) (iso_storage_of cfg b)
              b.temp_iso_volume_id)))

  -- The deletion of the ISO, if there is one, keeps the invariant.
  pub delete_temporary_iso-Inv :
      Triple (Inv cfg) (delete_temporary_iso client cfg) (λ _. Inv cfg) (Inv cfg)
  unfolding delete_temporary_iso
  delete_temporary_iso-Inv = Triple-the_state (λ b.
      Triple-if (is_empty b.temp_iso_volume_id || b.temp_iso_deleted)
        (λ none_left. Triple-done tt (λ s (i, same). i))
        (λ some_iso.
          Triple-weaken
            (λ s (i, same). ((i, tt), of_state b s (uploaded_volume b some_iso) same i))
            (λ _ s (i, _). i) (λ s i. i)
            (delete_volume_of-IsRemoved (λ _. Unit) (λ e s k. k) (iso_storage_of cfg b)
              b.temp_iso_volume_id)))

  abbrev Free : StorageUpload → Assertion
  Free upload s = Ready cfg s × IsAbsent cfg cfg.iso_storage upload s.history

  -- The ISO is there, the VM is not, and the state has yet to name the volume.
  abbrev Made : Text → Assertion
  Made volume s =
      IsUploaded cfg cfg.iso_storage volume s.history × (NotCreated cfg s × (is_empty volume ≡ false))

  -- The ISO is there and the state names it; the VM is not.
  abbrev pub Before : Text → Assertion
  Before volume s = Placed volume s × (s.build.vm_created ≡ false)

  -- The upload goes to a place that was free, and gives the volume its name.
  upload-IsUploaded :
      (upload : StorageUpload)
      → Triple
          (Carries cfg (Free upload))
          (call upload_failed
            (λ h. client.upload_file h cfg.node cfg.iso_storage upload)
            (uploaded cfg.node cfg.iso_storage upload))
          (λ got. Carries cfg (
            Made
              (unless_blank got (build_volume_id cfg.iso_storage upload.content upload.file_name))))
          (Inv cfg)
  unfolding IsOwn
  upload-IsUploaded upload =
      Triple-call _ _ _
        (λ s got (i, ((p, n), a)). (
          Inv-with_event cfg _ s i (refl, refl, p, a),
          (
            record { upload = upload; got = got; made = inl refl; named = refl },
            (n, named_full got cfg.iso_storage upload.content upload.file_name),
          ),
        ))
        (λ s (i, ((p, n), a)). Inv-with_event cfg _ s i (refl, refl, p, a))

  upload_temporary_installer_iso-IsUploaded :
      (path file_name : Text)
      → Triple
          (Carries cfg (Ready cfg))
          (upload_temporary_installer_iso client cfg path file_name
            (build_volume_id cfg.iso_storage upload_content_iso file_name))
          (λ volume. Carries cfg (Made volume))
          (Inv cfg)
  unfolding upload_temporary_installer_iso IsOwn IsAbsent
  upload_temporary_installer_iso-IsUploaded path file_name =
      let upload : StorageUpload = record {
        source_path = path;
        file_name = file_name;
        content = upload_content_iso;
      } in
      let volume : Text = build_volume_id cfg.iso_storage upload_content_iso file_name in
      Triple->>=
        (call-Carries cfg (Ready cfg) _ _
          (asked_volume cfg.node cfg.iso_storage upload_content_iso volume) (Ready-Lasts cfg)
          (λ r h k. tt))
        (λ exists.
          Triple->> {Q = λ _. Carries cfg (Free upload)}
            (Triple-if exists (λ _. Triple-fail _ (λ s (i, _). i))
              (λ absent. Triple-done tt (λ s (i, (p, asked)). (
                i,
                (
                  p,
                  subst
                      (λ e.
                        OneOf
                          (asked_volume cfg.node cfg.iso_storage upload_content_iso volume
                            (replied e))
                          s.history)
                      absent asked,
                ),
              ))))
            (λ _. Triple->>= (upload-IsUploaded upload) (λ got. Triple-done _ (λ s p. p))))

  -- Behind the upload, the state names the volume that was uploaded.
  pub upload_iso-IsUploaded :
      (time path : Text)
      → Triple
          (Carries cfg (Ready cfg))
          (upload_iso client cfg time path)
          (λ volume. Carries cfg (Before volume))
          (Inv cfg)
  unfolding upload_iso
  upload_iso-IsUploaded time path =
      Triple->>= (upload_temporary_installer_iso-IsUploaded path _) (λ volume.
        Triple->>
          (Triple-update {Q = λ _. Carries cfg (Before volume)} (set_iso _ volume cfg.iso_storage)
            (λ s (i, (u, ((absent, kept), full))). (
              record { own = i.own; machine = i.machine; iso = λ _. u; storage = ground arith },
              ((u, (refl, (full, kept))), absent),
            )))
          (λ _. Triple-done volume (λ s p. p)))
