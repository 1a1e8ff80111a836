-- ===== src/Qemu/Install/Ready.antt =====
-- internal/backend/qemu/qemu.go: the seed, the image, and the files of the ISO, when QEMU is to be
-- started.
use ubuntu_vm_template_build.Base.{
  ◌≡◌, refl, sym, ap, ◌∙◌, subst, ◌⊎◌, inl, inr, Bool, true, false, not, ◌&&◌, List, [], ◌∷◌, ◌++◌,
  Option, none, some, if◌then◌else◌, is_empty, codes, Bool-cases, Result, ok, err, arith, ℕ,
}
use ubuntu_vm_template_build.Text.{Text, equal, trim_space}
use ubuntu_vm_template_build.Text.Path.{join_path}
use ubuntu_vm_template_build.Steps.{done, fail, ◌>>=◌, ◌>>◌, ask, check, lift}
use ubuntu_vm_template_build.Steps.Triple.{
  Assertion, Triple, Triple-done, Triple-fail, Triple-if, Triple-lift, Triple-ask, Triple-ask_known,
  Triple-check, Triple->>=, Triple->>, Triple-weaken, Triple-given,
}
use ubuntu_vm_template_build.Common.DiskSize
use ubuntu_vm_template_build.Common.DiskSize.{parse_disk_size}
use ubuntu_vm_template_build.Offline.Host
use ubuntu_vm_template_build.Offline.Config
use ubuntu_vm_template_build.Offline.Install.{
  InstallConfig, InstallDir, not_written, refused, written, Repository, install_config,
}
use ubuntu_vm_template_build.Offline.Codename.{build_repository, embedded_paths}
use ubuntu_vm_template_build.Offline.Build.{no_repository}
use ubuntu_vm_template_build.Offline.Build.Files.{BuildError}
use ubuntu_vm_template_build.Offline.Build.Returned.{IsReturned, build_repository-IsReturned}
use ubuntu_vm_template_build.Seed.Iso.{
  support_scripts, support_dir, scripts_dir, support_file_mappings, repo_mappings, remaster_args,
}
use ubuntu_vm_template_build.Seed.UserData.{transform_user_data}
use ubuntu_vm_template_build.Seed.UserData.Headed.{transform_user_data-full}
use ubuntu_vm_template_build.Qemu.Host.{
  Action, make_dirs, write_file, run_xorriso, open_iso, open_iso_file, create_seed_image,
  create_seed_filesystem, open_seed_file, write_seed_file, close_seed_file, finalize_seed,
  create_image, truncate_image, run_qemu_img, create_file, remove_all, Event, did, read_iso,
  built_repository, QemuHost,
}
use ubuntu_vm_template_build.Qemu.Installer.{
  Installer, QemuStep, act, active_iso, bad_repository, bad_user_data, not_read, bad_disk_size,
}
use ubuntu_vm_template_build.Qemu.Install.{
  build_offline_repository, write_scripts, write_config_files, write_support_files,
  remaster_ubuntu_iso_with_support, open_embedded, validate_embedded_repository, remastered_iso,
  prepare_installer_iso, write_iso_file, seed_path, seed_iso_size_bytes, create_seed_iso,
  parsed_size, create_raw_image, create_disk_image, extract_file_from_iso, in_temp_dir,
  extract_boot_files, prepare,
}
use ubuntu_vm_template_build.Qemu.Install.Sequence.{
  Sub, Sub-tail, is_harmless, At, At-cons, At-add, act-At, act-kept, is_start,
}
use ubuntu_vm_template_build.Qemu.Install.Prepared.{
  IsRepository, prepared, made_iso, wrote_user_data, IsDiskAction, extracted,
  MadeIso, prepare_installer_iso-Prepared,
}

-- What has happened when QEMU is to be started, the newest first.
abbrev pub Milestones : Type 0
Milestones = Installer → Repository → Text → Action → Text → Text → List Event

abbrev pub milestones : Milestones
milestones i repo user_data disk kernel initrd =
    let p = prepared i repo in
    extracted p (codes "/casper/initrd") (codes "initrd") initrd
      (extracted p (codes "/casper/vmlinuz") (codes "vmlinuz") kernel
        (did disk none
          ∷ did finalize_seed none
          ∷ wrote_user_data user_data
          ∷ made_iso i repo
          ∷ []))

module _ (host : QemuHost) (P : Assertion Event)
    (keep : (e : Event) (h : List Event) → is_harmless e ≡ true → P h → P (e ∷ h)) where
  abbrev Here : List Event → Assertion Event
  Here = At P keep

  kept :
      (a : Action) (es : List Event)
      → is_start a ≡ false
      → Triple (Here es) (act host a) (λ _. Here es) P
  kept a es k = act-kept P keep host a es k

  remember :
      (a : Action) (es : List Event)
      → is_start a ≡ false
      → Triple (Here es) (act host a) (λ _. Here (did a none ∷ es)) P
  remember a es k = act-At P keep host a es k

  write_iso_file-At :
      (path text : Text) (es : List Event)
      → is_empty text ≡ false
      → Triple (Here es) (write_iso_file host path text)
          (λ _. Here (did (write_seed_file path text) none ∷ es)) P
  unfolding write_iso_file
  write_iso_file-At path text es full =
      Triple->>
        (Triple->> (kept (open_seed_file path) es refl) λ _.
          Triple-if (is_empty text) (λ empty. absurd (cc (full, empty)))
            (λ _. remember (write_seed_file path text) es refl))
        λ _. kept (close_seed_file path) (did (write_seed_file path text) none ∷ es) refl

  write_iso_file-kept :
      (path : Text) (es : List Event)
      → Triple (Here es) (write_iso_file host path []) (λ _. Here es) P
  unfolding write_iso_file
  write_iso_file-kept path es =
      Triple->>
        (Triple->> (kept (open_seed_file path) es refl) λ _. Triple-done tt (λ h at. at))
        λ _. kept (close_seed_file path) es refl

  -- The user data that the seed is to have.
  abbrev IsUserData : Installer → Text → Type 0
  IsUserData p user_data =
      transform_user_data host.decode host.encode (install_config p.offline_repo) p.user_data
      ≡ ok user_data

  abbrev Seeded : Installer → List Event → Text → Text → Assertion Event
  Seeded p es seed user_data h =
      IsUserData p user_data
      × ((seed ≡ seed_path p)
        × Here (did finalize_seed none ∷ wrote_user_data user_data ∷ es) h)

  create_seed_iso-At :
      (p : Installer) (es : List Event)
      → Triple (Here es) (create_seed_iso host p)
          (λ seed h. (user_data : Text) × Seeded p es seed user_data h) P
  unfolding create_seed_iso
  create_seed_iso-At p es =
      Triple->> (kept (create_seed_image (seed_path p) seed_iso_size_bytes) es refl) λ _.
        Triple->> (kept (create_seed_filesystem (codes "CIDATA")) es refl) λ _.
          Triple->>= {Q = λ user_data h. IsUserData p user_data × Here es h}
            (Triple-lift bad_user_data _ (λ user_data e h at. (e, at)) (λ h at. at.0))
            λ user_data.
              Triple-given λ is.
                Triple->> (write_iso_file-At (codes "/user-data") user_data es (transform_user_data-full host.decode host.encode _ p.user_data user_data is)) λ _.
                  Triple->>
                    (write_iso_file-kept (codes "/meta-data") (wrote_user_data user_data ∷ es)) λ _.
                      Triple->> (remember finalize_seed (wrote_user_data user_data ∷ es) refl) λ _.
                        Triple-done (seed_path p) (λ h at. (user_data, (is, (refl, at))))

  parsed_size-known :
      (r : DiskSize.Result ℕ) (es : List Event)
      → Triple (Here es) (parsed_size r) (λ size h. (r ≡ DiskSize.ok size) × Here es h) P
  unfolding parsed_size
  parsed_size-known (DiskSize.ok n) es = Triple-done n (λ h at. (refl, at))
  parsed_size-known (DiskSize.err e) es = Triple-fail (bad_disk_size e) (λ h at. at.0)

  abbrev Imaged : Installer → List Event → Action → Assertion Event
  Imaged p es disk h = IsDiskAction p disk × Here (did disk none ∷ es) h

  create_disk_image-At :
      (p : Installer) (es : List Event)
      → Triple (Here es) (create_disk_image host p)
          (λ _ h. (disk : Action) × Imaged p es disk h) P
  unfolding create_disk_image create_raw_image IsDiskAction
  create_disk_image-At p es =
      Triple-if (equal p.disk_format (codes "raw"))
        (λ raw.
          Triple->>= {Q = λ size h. (parse_disk_size p.disk_size ≡ DiskSize.ok size) × Here es h}
            (parsed_size-known (parse_disk_size p.disk_size) es)
            λ size.
              Triple-given λ is.
                Triple->> (kept (create_image p.image_path) es refl) λ _.
                  Triple-weaken (λ h at. at)
                    (λ _ h at. (truncate_image p.image_path size, (rw raw (size, is, refl), at)))
                    (λ h p. p)
                    (remember (truncate_image p.image_path size) es refl))
        λ other.
          Triple-weaken (λ h at. at) (λ _ h at. (_, (rw other refl, at))) (λ h p. p)
            (remember
              (run_qemu_img
                (codes "create" ∷ codes "-f" ∷ p.disk_format ∷ p.image_path ∷ p.disk_size ∷ []))
              es refl)
  
  extract_file_from_iso-At :
      (p : Installer) (path name : Text) (es : List Event)
      → Triple (Here es)
          (extract_file_from_iso host (active_iso p) path (in_temp_dir p name))
          (λ _ h. (text : Text) × Here (extracted p path name text es) h) P
  unfolding extract_file_from_iso
  extract_file_from_iso-At p path name es =
      Triple->>= {Q = λ r. Here (read_iso (active_iso p) path r ∷ es)}
        (Triple-ask _ (read_iso (active_iso p) path) (λ h r at. At-add P keep es h _ refl at))
        λ r.
          Triple->>= {Q = λ text. Here (read_iso (active_iso p) path (ok text) ∷ es)}
            (Triple-lift not_read r
              (λ text e h at. subst (λ r. Here (read_iso (active_iso p) path r ∷ es) h) e at)
              (λ h at. at.0))
            λ text.
              let read = read_iso (active_iso p) path (ok text) ∷ es in
              Triple->> (kept (create_file (in_temp_dir p name)) read refl) λ _.
                Triple-weaken (λ h at. at) (λ _ h at. (text, at)) (λ h p. p)
                  (remember (write_file (in_temp_dir p name) text) read refl)

  -- What `prepare` returns, and what has happened then.
  pub IsReady : Installer → Installer × Text × Text × Text → Assertion Event
  IsReady i (p, seed, kernel, initrd) h =
      (repo : Repository) × (user_data : Text) × (disk : Action) × (kernel_text : Text)
      × (initrd_text : Text)
      × IsRepository i repo
      × (p ≡ prepared i repo)
      × (seed ≡ seed_path p)
      × (kernel ≡ in_temp_dir p (codes "vmlinuz"))
      × (initrd ≡ in_temp_dir p (codes "initrd"))
      × IsUserData p user_data
      × IsDiskAction p disk
      × Here (milestones i repo user_data disk kernel_text initrd_text) h

  abbrev before_disk : Installer → Repository → Text → List Event
  before_disk i repo user_data =
      did finalize_seed none ∷ wrote_user_data user_data ∷ made_iso i repo ∷ []

  abbrev boot_files : Installer → List Event → Text → Text → List Event
  boot_files p es kernel initrd =
      extracted p (codes "/casper/initrd") (codes "initrd") initrd
        (extracted p (codes "/casper/vmlinuz") (codes "vmlinuz") kernel es)

  abbrev Booted : Installer → List Event → Text × Text → Text → Text → Assertion Event
  Booted p es (kernel, initrd) kernel_text initrd_text h =
      (kernel ≡ in_temp_dir p (codes "vmlinuz"))
      × ((initrd ≡ in_temp_dir p (codes "initrd"))
        × Here (boot_files p es kernel_text initrd_text) h)

  abbrev Kernel : Installer → List Event → Text × Text → Text → Assertion Event
  Kernel p es paths k h = (t : Text) × Booted p es paths k t h

  extract_boot_files-At :
      (p : Installer) (es : List Event)
      → Triple (Here es) (extract_boot_files host p)
          (λ paths h. (k : Text) × Kernel p es paths k h) P
  unfolding extract_boot_files
  extract_boot_files-At p es =
      Triple->>
        (Triple->>
          (extract_file_from_iso-At p (codes "/casper/vmlinuz") (codes "vmlinuz") es) λ _.
            Triple-given
              {R = λ k. Here (extracted p (codes "/casper/vmlinuz") (codes "vmlinuz") k es)} λ k.
                Triple-weaken
                  {Q' = λ _ h. (k : Text) × (t : Text) × Here (boot_files p es k t) h}
                  (λ h at. at) (λ _ h (t, at). (k, t, at)) (λ h p. p)
                  (extract_file_from_iso-At p (codes "/casper/initrd") (codes "initrd")
                    (extracted p (codes "/casper/vmlinuz") (codes "vmlinuz") k es)))
        λ _. Triple-done _ (λ h (k, t, at). (k, (t, (refl, (refl, at)))))

  pub prepare-IsReady : (i : Installer) → Triple (Here []) (prepare host i) (IsReady i) P
  unfolding prepare IsReady
  prepare-IsReady i =
      Triple->>= (prepare_installer_iso-Prepared host P keep i []) λ p.
        Triple-given {R = MadeIso host P keep i [] p} λ repo. Triple-given λ is_repo. Triple-given λ same.
          let made = made_iso i repo ∷ [] in
          Triple->>= (create_seed_iso-At p made) λ seed.
            Triple-given {R = Seeded p made seed} λ user_data.
              Triple-given λ is_user_data. Triple-given λ seed_same.
                let seeded = before_disk i repo user_data in
                Triple->> (create_disk_image-At p seeded) λ _.
                  Triple-given {R = Imaged p seeded} λ disk. Triple-given λ is_disk.
                    let imaged = did disk none ∷ seeded in
                    Triple->>= (extract_boot_files-At p imaged) λ (kernel, initrd).
                      Triple-given {R = Kernel p imaged (kernel, initrd)} λ k.
                        Triple-given {R = Booted p imaged (kernel, initrd) k} λ t.
                          Triple-given λ e. Triple-given λ f.
                            Triple-done (p, seed, kernel, initrd) λ h at.
                              (repo, user_data, disk, k, t, is_repo, same, seed_same, e, f,
                                is_user_data, is_disk,
                                subst (λ q. Here (boot_files q imaged k t) h) same at)
