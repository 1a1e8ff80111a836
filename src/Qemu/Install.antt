-- ===== src/Qemu/Install.antt =====
-- internal/backend/qemu/qemu.go: an installation, from the installer ISO to the end of QEMU. What is
-- printed is left out, and so is the closing of a file whose error is not looked at.
pub mod Sequence
pub mod Prepared
pub mod Ready
pub mod Installed
use ubuntu_vm_template_build.Base.{
  ℕ, ◌*◌, Bool, true, false, List, [], ◌∷◌, ◌++◌, Option, none, some, if◌then◌else◌, is_empty,
  codes, Result, ok, err,
}
use ubuntu_vm_template_build.Text.{Text, trim_space, equal}
use ubuntu_vm_template_build.Text.Path.{join_path}
use ubuntu_vm_template_build.Steps.{done, fail, ◌>>=◌, ◌>>◌, ask, check, lift}
use ubuntu_vm_template_build.Common.DiskSize
use ubuntu_vm_template_build.Common.DiskSize.{parse_disk_size}
use ubuntu_vm_template_build.Common.Names.{safe_name}
use ubuntu_vm_template_build.Offline.Install
use ubuntu_vm_template_build.Offline.Install.{
  InstallConfig, InstallFiles, InstallDir, not_written, refused, written, Repository,
  install_config, write_install_config_dir,
}
use ubuntu_vm_template_build.Offline.Host
use ubuntu_vm_template_build.Offline.Codename.{build_repository, embedded_paths}
use ubuntu_vm_template_build.Offline.Config
use ubuntu_vm_template_build.Offline.Build.Files.{BuildError}
use ubuntu_vm_template_build.Offline.Build.{no_repository}
use ubuntu_vm_template_build.Seed.Iso.{
  support_scripts, support_dir, scripts_dir, install_config_dir, support_file_mappings,
  repo_mappings, remaster_args,
}
use ubuntu_vm_template_build.Seed.UserData.{transform_user_data}
use ubuntu_vm_template_build.Qemu.Detector.{error_marker}
use ubuntu_vm_template_build.Qemu.Host.{
  Action, make_dirs, write_file, run_xorriso, open_iso, open_iso_file, create_seed_image,
  create_seed_filesystem, open_seed_file, write_seed_file, close_seed_file, finalize_seed,
  create_image, truncate_image, run_qemu_img, create_file, remove_all, stdout, stderr, Event, did,
  read_iso, built_repository, QemuHost,
}
use ubuntu_vm_template_build.Qemu.Console.{Console, flush_error}
use ubuntu_vm_template_build.Qemu.Command.{CommandError, run_interruptible_command}
use ubuntu_vm_template_build.Qemu.Installer.{
  Installer, QemuError, bad_repository, bad_install, no_embedded_sources, bad_user_data,
  bad_disk_size, not_read, QemuStep, act, active_iso, qemu_args,
}

-- The repository is built with a history of its own.
unfoldable pub build_offline_repository : QemuHost → Installer → QemuStep Repository
unfolding ask lift ◌>>=◌
build_offline_repository host i = do
  (answer, _) ←
      ask
        (λ h. build_repository (host.apt h) host.urls host.sums i.extra_packages (host.dists h)
          i.temp_dir [])
        built_repository
  lift bad_repository answer

unfoldable pub write_scripts : QemuHost → Text → List Text → QemuStep Unit
unfolding act done ◌>>◌
write_scripts host dir [] = done tt
write_scripts host dir (name ∷ names) =
    act host (write_file (join_path (dir ∷ name ∷ [])) (host.script name))
    >> write_scripts host dir names

abbrev pub write_config_files : QemuHost → Text → InstallDir → QemuStep Unit
unfolding act done fail ◌>>◌
write_config_files host dir not_written = done tt
write_config_files host dir (refused e) = fail (bad_install e)
write_config_files host dir (written files) =
    act host (make_dirs dir)
    >> act host (write_file (join_path (dir ∷ codes "packages" ∷ [])) files.packages)
    >> act host (write_file (join_path (dir ∷ codes "sources.list" ∷ [])) files.sources_list)
    >> act host
      (write_file (join_path (dir ∷ codes "required-indexes" ∷ [])) files.required_indexes)

-- The files of `SupportFileMappings`
unfoldable pub write_support_files : QemuHost → Text → InstallConfig → QemuStep Unit
unfolding act write_scripts write_config_files ◌>>◌
write_support_files host work_dir install =
    act host (remove_all (support_dir work_dir))
    >> act host (make_dirs (scripts_dir work_dir))
    >> write_scripts host (scripts_dir work_dir) support_scripts
    >> write_config_files host (install_config_dir work_dir) (write_install_config_dir install)

-- `RemasterUbuntuISOWithSupport`
unfoldable pub remaster_ubuntu_iso_with_support :
    QemuHost → Text → Text → Text → Text → InstallConfig → QemuStep Unit
unfolding write_support_files act ◌>>◌
remaster_ubuntu_iso_with_support host source_iso output_iso work_dir repo_path install =
    write_support_files host work_dir install
    >> act host
      (run_xorriso
        (remaster_args source_iso output_iso
          (support_file_mappings work_dir install ++ repo_mappings repo_path)))

unfoldable pub open_embedded : QemuHost → Text → List Text → QemuStep Unit
unfolding act done ◌>>◌
open_embedded host iso [] = done tt
open_embedded host iso (path ∷ paths) =
    act host (open_iso_file iso path) >> open_embedded host iso paths

-- `ValidateEmbeddedRepository`
unfoldable pub validate_embedded_repository : QemuHost → Text → Repository → QemuStep Unit
unfolding act open_embedded done fail ◌>>◌
validate_embedded_repository host iso repo =
    if is_empty (trim_space repo.path)
    then done tt
    else act host (open_iso iso)
      >> (if is_empty repo.sources
        then fail no_embedded_sources
        else open_embedded host iso (embedded_paths repo))

abbrev pub remastered_iso : Installer → Text
remastered_iso i =
    join_path (i.temp_dir ∷ (codes "installer-" ++ (safe_name i.display ++ codes ".iso")) ∷ [])

unfoldable pub prepare_installer_iso : QemuHost → Installer → QemuStep Installer
unfolding build_offline_repository remaster_ubuntu_iso_with_support validate_embedded_repository done
  ◌>>=◌ ◌>>◌
prepare_installer_iso host i = do
  repo ←
      if Config.enabled i.extra_packages then build_offline_repository host i else done no_repository
  remaster_ubuntu_iso_with_support host i.ubuntu_iso (remastered_iso i) i.temp_dir repo.path
    (install_config repo)
  validate_embedded_repository host (remastered_iso i) repo
  done (record i { offline_repo = repo; installer_iso = remastered_iso i })

-- `writeISOFile`; nothing is written of an empty text.
unfoldable pub write_iso_file : QemuHost → Text → Text → QemuStep Unit
unfolding act done ◌>>◌
write_iso_file host path text =
    act host (open_seed_file path)
    >> (if is_empty text then done tt else act host (write_seed_file path text))
    >> act host (close_seed_file path)

abbrev pub seed_iso_size_bytes : ℕ
seed_iso_size_bytes = 8 * 1024 * 1024

abbrev pub seed_path : Installer → Text
seed_path i =
    join_path (i.temp_dir ∷ (codes "seed-" ++ (safe_name i.display ++ codes ".iso")) ∷ [])

unfoldable pub create_seed_iso : QemuHost → Installer → QemuStep Text
unfolding act lift write_iso_file done ◌>>=◌ ◌>>◌
create_seed_iso host i = do
  act host (create_seed_image (seed_path i) seed_iso_size_bytes)
  act host (create_seed_filesystem (codes "CIDATA"))
  user_data ←
      lift bad_user_data
        (transform_user_data host.decode host.encode (install_config i.offline_repo) i.user_data)
  write_iso_file host (codes "/user-data") user_data
  write_iso_file host (codes "/meta-data") []
  act host finalize_seed
  done (seed_path i)

abbrev pub parsed_size : DiskSize.Result ℕ → QemuStep ℕ
unfolding done fail
parsed_size (DiskSize.ok n) = done n
parsed_size (DiskSize.err e) = fail (bad_disk_size e)

abbrev pub create_raw_image : QemuHost → Installer → QemuStep Unit
unfolding act parsed_size ◌>>=◌ ◌>>◌
create_raw_image host i = do
  size ← parsed_size (parse_disk_size i.disk_size)
  act host (create_image i.image_path)
  act host (truncate_image i.image_path size)

unfoldable pub create_disk_image : QemuHost → Installer → QemuStep Unit
unfolding create_raw_image act
create_disk_image host i =
    if equal i.disk_format (codes "raw")
    then create_raw_image host i
    else act host
      (run_qemu_img
        (codes "create" ∷ codes "-f" ∷ i.disk_format ∷ i.image_path ∷ i.disk_size ∷ []))

-- `ExtractFileFromISO`
unfoldable pub extract_file_from_iso : QemuHost → Text → Text → Text → QemuStep Unit
unfolding ask lift act ◌>>=◌ ◌>>◌
extract_file_from_iso host iso path destination = do
  answer ← ask (λ h. host.read_iso_file h iso path) (read_iso iso path)
  text ← lift not_read answer
  act host (create_file destination)
  act host (write_file destination text)

abbrev pub in_temp_dir : Installer → Text → Text
in_temp_dir i name = join_path (i.temp_dir ∷ name ∷ [])

unfoldable pub extract_boot_files : QemuHost → Installer → QemuStep (Text × Text)
unfolding extract_file_from_iso done ◌>>◌
extract_boot_files host i =
    extract_file_from_iso host (active_iso i) (codes "/casper/vmlinuz")
      (in_temp_dir i (codes "vmlinuz"))
    >> extract_file_from_iso host (active_iso i) (codes "/casper/initrd")
      (in_temp_dir i (codes "initrd"))
    >> done (in_temp_dir i (codes "vmlinuz"), in_temp_dir i (codes "initrd"))

abbrev pub all_none : Option Text → Option Text → Option Text → Bool
all_none (some e) b c = false
all_none none (some e) c = false
all_none none none (some e) = false
all_none none none none = true

-- The checks behind the command: its error, those of the two flushes, and what the detector has.
abbrev pub is_good : QemuHost → Option CommandError → Console → Bool
unfolding error_marker
is_good host (some e) c = false
is_good host none c =
    all_none (flush_error host stdout c.out) (flush_error host stderr c.error_out)
      (error_marker c.detector)

abbrev pub after_args : QemuHost → Result QemuError (List Text) × List Event → Bool × List Event
unfolding run_interruptible_command is_good
after_args host (err e, h) = (false, h)
after_args host (ok args, h) =
    let (error, c, h') = run_interruptible_command host args h in (is_good host error c, h')

unfoldable pub run_qemu_installation :
    QemuHost → Installer → Text → Text → Text → List Event → Bool × List Event
unfolding qemu_args after_args
run_qemu_installation host i seed_iso kernel initrd h =
    after_args host (qemu_args host i seed_iso kernel initrd h)

-- The installer with its ISO, the seed, the kernel, and the initial file system.
unfoldable pub prepare : QemuHost → Installer → QemuStep (Installer × Text × Text × Text)
unfolding prepare_installer_iso create_seed_iso create_disk_image extract_boot_files done ◌>>=◌ ◌>>◌
prepare host i = do
  prepared ← prepare_installer_iso host i
  seed_iso ← create_seed_iso host prepared
  create_disk_image host prepared
  (kernel, initrd) ← extract_boot_files host prepared
  done (prepared, seed_iso, kernel, initrd)

abbrev pub after_prepare :
    QemuHost
    → Result QemuError (Installer × Text × Text × Text) × List Event
    → Bool × List Event
unfolding run_qemu_installation
after_prepare host (err e, h) = (false, h)
after_prepare host (ok (i, seed_iso, kernel, initrd), h) =
    run_qemu_installation host i seed_iso kernel initrd h

-- `cleanup`
abbrev pub cleanup : QemuHost → Text → List Event → List Event
cleanup host dir h =
    if is_empty dir
    then h
    else did (remove_all dir) (host.perform h (remove_all dir)) ∷ h

-- `Install`, with the deferred cleanup
unfoldable pub install : QemuHost → Installer → List Event → Bool × List Event
unfolding prepare after_prepare
install host i h =
    let (success, h') = after_prepare host (prepare host i h) in
    (success, cleanup host i.temp_dir h')
