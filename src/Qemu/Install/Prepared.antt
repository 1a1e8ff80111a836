-- ===== src/Qemu/Install/Prepared.antt =====
-- internal/backend/qemu/qemu.go: what has happened, and in which order, when QEMU is to be started.
use ubuntu_vm_template_build.Base.{
  ◌≡◌, refl, sym, ap, ◌∙◌, subst, ◌⊎◌, inl, inr, Bool, true, false, not, ◌&&◌, List, [], ◌∷◌, ◌++◌,
  Option, none, some, if◌then◌else◌, is_empty, codes, Bool-cases, Result, ok, err, arith, ℕ,
}
use ubuntu_vm_template_build.Text.{Text, equal, trim_space}
use ubuntu_vm_template_build.Text.Path.{join_path}
use ubuntu_vm_template_build.Steps.{done, fail, ◌>>=◌, ◌>>◌, ask, check, lift}
use ubuntu_vm_template_build.Steps.Triple.{
  Assertion, Triple, Triple-done, Triple-fail, Triple-if, Triple-lift, Triple-ask_known,
  Triple-check, Triple->>=, Triple->>, Triple-weaken, Triple-given,
}
use ubuntu_vm_template_build.Common.DiskSize
use ubuntu_vm_template_build.Common.DiskSize.{parse_disk_size}
use ubuntu_vm_template_build.Offline.Host
use ubuntu_vm_template_build.Offline.Config
use ubuntu_vm_template_build.Offline.Install.{
  InstallConfig, InstallDir, not_written, refused, written, Repository, install_config,
}
use ubuntu_vm_template_build.Offline.Codename.{build_repository, embedded_paths}
use ubuntu_vm_template_build.Offline.Build.{no_repository}
use ubuntu_vm_template_build.Offline.Build.Files.{BuildError}
use ubuntu_vm_template_build.Offline.Build.Returned.{IsReturned, build_repository-IsReturned}
use ubuntu_vm_template_build.Seed.Iso.{
  support_scripts, support_dir, scripts_dir, support_file_mappings, repo_mappings, remaster_args,
}
use ubuntu_vm_template_build.Seed.UserData.{transform_user_data}
use ubuntu_vm_template_build.Qemu.Host.{
  Action, make_dirs, write_file, run_xorriso, open_iso, open_iso_file, create_seed_image,
  create_seed_filesystem, open_seed_file, write_seed_file, close_seed_file, finalize_seed,
  create_image, truncate_image, run_qemu_img, create_file, remove_all, Event, did, read_iso,
  built_repository, QemuHost,
}
use ubuntu_vm_template_build.Qemu.Installer.{
  Installer, QemuStep, act, active_iso, bad_repository, no_embedded_sources, bad_user_data, not_read,
}
use ubuntu_vm_template_build.Qemu.Install.{
  build_offline_repository, write_scripts, write_config_files, write_support_files,
  remaster_ubuntu_iso_with_support, open_embedded, validate_embedded_repository, remastered_iso,
  prepare_installer_iso, write_iso_file, seed_path, seed_iso_size_bytes, create_seed_iso,
  parsed_size, create_raw_image, create_disk_image, extract_file_from_iso, in_temp_dir,
  extract_boot_files, prepare,
}
use ubuntu_vm_template_build.Qemu.Install.Sequence.{
  Sub, Sub-tail, is_harmless, At, At-cons, At-add, act-At, act-kept, is_start,
}

-- What the build of the repository has returned; where no packages are asked for there is none.
pub IsRepository : Installer → Repository → Type 0
IsRepository i repo =
    if Config.enabled i.extra_packages
    then IsReturned i.extra_packages repo
    else repo ≡ no_repository

-- The installer once its ISO is made.
abbrev pub prepared : Installer → Repository → Installer
prepared i repo = record i { offline_repo = repo; installer_iso = remastered_iso i }

abbrev pub made_iso : Installer → Repository → Event
made_iso i repo =
    did (run_xorriso
      (remaster_args i.ubuntu_iso (remastered_iso i)
        (support_file_mappings i.temp_dir (install_config repo) ++ repo_mappings repo.path)))
      none

abbrev pub wrote_user_data : Text → Event
wrote_user_data user_data = did (write_seed_file (codes "/user-data") user_data) none

-- The last action of the making of the image.
unfoldable pub IsDiskAction : Installer → Action → Type 0
IsDiskAction i action =
    if equal i.disk_format (codes "raw")
    then ((size : ℕ) × (parse_disk_size i.disk_size ≡ DiskSize.ok size)
        × (action ≡ truncate_image i.image_path size))
    else action
      ≡ run_qemu_img
        (codes "create" ∷ codes "-f" ∷ i.disk_format ∷ i.image_path ∷ i.disk_size ∷ [])

-- A file of the ISO, in the temporary directory.
abbrev pub extracted : Installer → Text → Text → Text → List Event → List Event
extracted i path name text es =
    did (write_file (in_temp_dir i name) text) none ∷ read_iso (active_iso i) path (ok text) ∷ es

module _ (host : QemuHost) (P : Assertion Event)
    (keep : (e : Event) (h : List Event) → is_harmless e ≡ true → P h → P (e ∷ h)) where
  abbrev Here : List Event → Assertion Event
  Here = At P keep

  abbrev Keeps : {A : Type 0} → List Event → QemuStep A → Type 0
  Keeps es m = Triple (Here es) m (λ _. Here es) P

  kept : (a : Action) (es : List Event) → is_start a ≡ false → Keeps es (act host a)
  kept a es k = act-kept P keep host a es k

  build_offline_repository-IsRepository :
      (i : Installer) (es : List Event)
      → Config.enabled i.extra_packages ≡ true
      → Triple (Here es) (build_offline_repository host i)
          (λ repo h. IsRepository i repo × Here es h) P
  unfolding build_offline_repository IsRepository
  build_offline_repository-IsRepository i es on =
      Triple->>=
        {Q = λ r h. ((g : List Event)
          × (build_repository (host.apt g) host.urls host.sums i.extra_packages (host.dists g)
              i.temp_dir []
            ≡ r))
          × Here es h}
        (Triple-ask_known _ built_repository
          (λ h at. ((h, refl), At-cons P keep es h _ refl at)))
        λ (r, apt).
          Triple-lift bad_repository r
            (λ repo good h ((g, built), at). (
              rw on
                (build_repository-IsReturned (host.apt g) host.urls host.sums i.extra_packages
                  (host.dists g) i.temp_dir repo apt (built ∙ ap (λ r. (r, apt)) good)),
              at,
            ))
            (λ h at. at.1.0)

  write_scripts-kept :
      (dir : Text) (names : List Text) (es : List Event)
      → Keeps es (write_scripts host dir names)
  unfolding write_scripts
  write_scripts-kept dir [] es = Triple-done tt (λ h at. at)
  write_scripts-kept dir (name ∷ names) es =
      Triple->> (kept _ es refl) λ _. write_scripts-kept dir names es

  write_config_files-kept :
      (dir : Text) (files : InstallDir) (es : List Event)
      → Keeps es (write_config_files host dir files)
  unfolding write_config_files done fail
  write_config_files-kept dir not_written es = Triple-done tt (λ h at. at)
  write_config_files-kept dir (refused e) es = Triple-fail _ (λ h at. at.0)
  write_config_files-kept dir (written files) es =
      Triple->> (Triple->> (Triple->> (kept _ es refl) λ _. kept _ es refl) λ _. kept _ es refl)
        λ _. kept _ es refl

  remaster-At :
      (i : Installer) (repo : Repository) (es : List Event)
      → Triple (Here es)
          (remaster_ubuntu_iso_with_support host i.ubuntu_iso (remastered_iso i) i.temp_dir
            repo.path (install_config repo))
          (λ _. Here (made_iso i repo ∷ es)) P
  unfolding remaster_ubuntu_iso_with_support write_support_files
  remaster-At i repo es =
      Triple->>
        (Triple->>
          (Triple->> (Triple->> (kept _ es refl) λ _. kept _ es refl)
            λ _. write_scripts-kept _ support_scripts es)
          λ _. write_config_files-kept _ _ es)
        λ _. act-At P keep host _ es refl

  open_embedded-kept :
      (iso : Text) (paths : List Text) (es : List Event) → Keeps es (open_embedded host iso paths)
  unfolding open_embedded
  open_embedded-kept iso [] es = Triple-done tt (λ h at. at)
  open_embedded-kept iso (path ∷ paths) es =
      Triple->> (kept _ es refl) λ _. open_embedded-kept iso paths es

  validate_embedded_repository-kept :
      (iso : Text) (repo : Repository) (es : List Event)
      → Keeps es (validate_embedded_repository host iso repo)
  unfolding validate_embedded_repository
  validate_embedded_repository-kept iso repo es =
      Triple-if (is_empty (trim_space repo.path)) (λ _. Triple-done tt (λ h at. at)) λ _.
        Triple->> (kept (open_iso iso) es refl) λ _.
          Triple-if (is_empty repo.sources) (λ _. Triple-fail no_embedded_sources (λ h at. at.0))
            λ _. open_embedded-kept iso (embedded_paths repo) es

  abbrev pub MadeIso : Installer → List Event → Installer → Repository → Assertion Event
  MadeIso i es p repo h =
      IsRepository i repo × ((p ≡ prepared i repo) × Here (made_iso i repo ∷ es) h)

  -- The returned installer has the repository, and its ISO has been made.
  pub prepare_installer_iso-Prepared :
      (i : Installer) (es : List Event)
      → Triple (Here es) (prepare_installer_iso host i)
          (λ p h. (repo : Repository) × MadeIso i es p repo h) P
  unfolding prepare_installer_iso IsRepository
  prepare_installer_iso-Prepared i es =
      Triple->>= {Q = λ repo h. IsRepository i repo × Here es h}
        (Triple-if (Config.enabled i.extra_packages)
          (λ on. build_offline_repository-IsRepository i es on)
          (λ off. Triple-done no_repository (λ h at. (rw off refl, at))))
        λ repo.
          Triple-given λ is.
            Triple->> (remaster-At i repo es) λ _.
              Triple->>
                (validate_embedded_repository-kept (remastered_iso i) repo (made_iso i repo ∷ es))
                λ _. Triple-done (prepared i repo) (λ h at. (repo, (is, (refl, at))))
