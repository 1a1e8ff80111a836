-- ===== src/Qemu/Installer.antt =====
-- internal/backend/qemu/qemu.go: the configuration, the installer that is made of it, and the arguments
-- of QEMU.
use ubuntu_vm_template_build.Base.{
  ℤ, Bool, true, false, ◌&&◌, not, List, [], ◌∷◌, ◌++◌, Option, none, some, if◌then◌else◌, is_empty,
  codes, Result, ok, err,
}
use ubuntu_vm_template_build.Text.{Text, trim_space, fold_space, equal}
use ubuntu_vm_template_build.Text.Path.{join_path}
use ubuntu_vm_template_build.Decimal.{itoa}
use ubuntu_vm_template_build.Steps.{Step, done, fail, ◌>>=◌, ◌>>◌, ask, check, lift}
use ubuntu_vm_template_build.Common.DiskSize.{SizeError}
use ubuntu_vm_template_build.Common.Names.{fallback_name}
use ubuntu_vm_template_build.Common.Hardware.{HardwareConfig, normalize_boot_firmware}
use ubuntu_vm_template_build.Common.Hardware
use ubuntu_vm_template_build.Common.Hardware.Validate.{HardwareError}
use ubuntu_vm_template_build.Common.Hardware.Validate
use ubuntu_vm_template_build.Offline.Config
use ubuntu_vm_template_build.Offline.Install
use ubuntu_vm_template_build.Offline.Install.{Repository}
use ubuntu_vm_template_build.Offline.Build.{no_repository}
use ubuntu_vm_template_build.Offline.Build.Files.{BuildError}
use ubuntu_vm_template_build.Seed.UserData.{UserDataError}
use ubuntu_vm_template_build.Qemu.Host.{
  Action, remove_all, open_file, create_file, copy_data, close_file, Event, did, made_temp, stated,
  QemuHost,
}

pub record QemuConfig : Type 0 where
  pub ubuntu_iso : Text
  pub image_path : Text
  pub user_data : Text
  pub disk_size : Text
  pub disk_format : Text
  pub display_name : Text
  pub hardware : HardwareConfig
  pub extra_packages : Config.Config

pub record OvmfFirmware : Type 0 where
  pub code_path : Text
  pub vars_path : Text

pub record Installer : Type 0 where
  pub ubuntu_iso : Text
  pub installer_iso : Text
  pub image_path : Text
  pub user_data : Text
  pub disk_size : Text
  pub disk_format : Text
  pub hardware : HardwareConfig
  pub firmware : OvmfFirmware
  pub display : Text
  pub temp_dir : Text
  pub extra_packages : Config.Config
  pub offline_repo : Repository

-- The returns of an error.
pub data QemuError : Type 0 where
  failed : Action → Text → QemuError
  no_temp_dir : Text → QemuError
  bad_hardware : HardwareError → QemuError
  no_firmware : QemuError
  bad_repository : BuildError → QemuError
  bad_install : Install.InstallError → QemuError
  no_embedded_sources : QemuError
  bad_user_data : UserDataError → QemuError
  bad_disk_size : SizeError → QemuError
  not_read : Text → QemuError

abbrev pub QemuStep : Type 0 → Type 0
QemuStep = Step Event QemuError

-- An action, and the return of its error.
unfoldable pub act : QemuHost → Action → QemuStep Unit
unfolding ask check ◌>>=◌
act host action = ask (λ h. host.perform h action) (did action) >>= check (failed action)

abbrev firmware_in : Text → Text → Text → OvmfFirmware
firmware_in dir code vars = record { code_path = dir ++ code; vars_path = dir ++ vars }

abbrev pub ovmf_firmware_candidates : List OvmfFirmware
ovmf_firmware_candidates =
    firmware_in (codes "/usr/share/OVMF/") (codes "OVMF_CODE_4M.fd") (codes "OVMF_VARS_4M.fd")
    ∷ firmware_in (codes "/usr/share/OVMF/") (codes "OVMF_CODE.fd") (codes "OVMF_VARS.fd")
    ∷ firmware_in (codes "/usr/share/edk2/ovmf/") (codes "OVMF_CODE.fd") (codes "OVMF_VARS.fd")
    ∷ firmware_in (codes "/usr/share/edk2/ovmf/") (codes "OVMF_CODE_4M.fd")
      (codes "OVMF_VARS_4M.fd")
    ∷ firmware_in (codes "/usr/share/edk2/x64/") (codes "OVMF_CODE.fd") (codes "OVMF_VARS.fd")
    ∷ firmware_in (codes "/usr/share/edk2/x64/") (codes "OVMF_CODE.4m.fd")
      (codes "OVMF_VARS.4m.fd")
    ∷ firmware_in (codes "/usr/share/qemu/") (codes "ovmf-x86_64-code.bin")
      (codes "ovmf-x86_64-vars.bin")
    ∷ []

-- `isRegularFile`
unfoldable pub is_regular_file : QemuHost → Text → QemuStep Bool
unfolding done ask
is_regular_file host path =
    if is_empty (trim_space path)
    then done false
    else ask (λ h. host.is_regular h path) (stated path)

-- The second file is looked for only if the first one is there.
unfoldable pub are_regular_files : QemuHost → OvmfFirmware → QemuStep Bool
unfolding is_regular_file done ◌>>=◌
are_regular_files host candidate = do
  code ← is_regular_file host candidate.code_path
  if code then is_regular_file host candidate.vars_path else done false

unfoldable pub find_ovmf_firmware_in : QemuHost → List OvmfFirmware → QemuStep OvmfFirmware
unfolding are_regular_files done fail ◌>>=◌
find_ovmf_firmware_in host [] = fail no_firmware
find_ovmf_firmware_in host (candidate ∷ candidates) =
    let next = find_ovmf_firmware_in host candidates in
    do
      found ← are_regular_files host candidate
      if found then done candidate else next

abbrev pub is_uefi : HardwareConfig → Bool
is_uefi hardware = equal (normalize_boot_firmware hardware.boot_firmware) (codes "uefi")

abbrev pub firmware_for : QemuHost → HardwareConfig → QemuStep OvmfFirmware
unfolding find_ovmf_firmware_in done
firmware_for host hardware =
    if is_uefi hardware
    then find_ovmf_firmware_in host ovmf_firmware_candidates
    else done (record { code_path = []; vars_path = [] })

-- An error removes the directory; how that goes is not looked at.
abbrev pub removing : {A : Type 0} → QemuHost → Text → Result QemuError A × List Event → Result QemuError A × List Event
removing host dir (ok a, h) = (ok a, h)
removing host dir (err e, h) =
    (err e, did (remove_all dir) (host.perform h (remove_all dir)) ∷ h)

unfoldable pub or_remove : {A : Type 0} → QemuHost → Text → QemuStep A → QemuStep A
or_remove host dir m h = removing host dir (m h)

abbrev pub or_text : Text → Text → Text
or_text value fallback = if is_empty value then fallback else value

abbrev pub installer_of : QemuConfig → HardwareConfig → OvmfFirmware → Text → Installer
installer_of cfg hardware firmware temp_dir = record {
  ubuntu_iso = cfg.ubuntu_iso;
  installer_iso = cfg.ubuntu_iso;
  image_path = cfg.image_path;
  user_data = cfg.user_data;
  disk_size = cfg.disk_size;
  disk_format = or_text (fold_space cfg.disk_format) (codes "raw");
  hardware = hardware;
  firmware = firmware;
  display = or_text cfg.display_name fallback_name;
  temp_dir = temp_dir;
  extra_packages = Config.normalize cfg.extra_packages;
  offline_repo = no_repository;
}

-- `NewInstaller`
unfoldable pub new_installer : QemuHost → QemuConfig → QemuStep Installer
unfolding ask lift check or_remove done ◌>>=◌ ◌>>◌
new_installer host cfg = do
  made ← ask host.make_temp made_temp
  temp_dir ← lift no_temp_dir made
  let hardware = Hardware.normalize cfg.hardware
  or_remove host temp_dir (check bad_hardware (Validate.validate hardware))
  firmware ← or_remove host temp_dir (firmware_for host hardware)
  done (installer_of cfg hardware firmware temp_dir)

-- `activeISO`
abbrev pub active_iso : Installer → Text
active_iso i = if is_empty (trim_space i.installer_iso) then i.ubuntu_iso else i.installer_iso

unfoldable pub copy_file : QemuHost → Text → Text → QemuStep Unit
unfolding act ◌>>◌
copy_file host source destination =
    act host (open_file source)
    >> act host (create_file destination)
    >> act host (copy_data source destination)
    >> act host (close_file destination)

unfoldable pub uefi_firmware_args : QemuHost → Installer → QemuStep (List Text)
unfolding copy_file done ◌>>◌
uefi_firmware_args host i =
    let vars = join_path (i.temp_dir ∷ codes "OVMF_VARS.fd" ∷ []) in
    copy_file host i.firmware.vars_path vars
    >> done (
      codes "-drive"
      ∷ (codes "if=pflash,format=raw,readonly=on,file=" ++ i.firmware.code_path)
      ∷ codes "-drive"
      ∷ (codes "if=pflash,format=raw,file=" ++ vars)
      ∷ [])

abbrev pub disk_drive : Installer → Text
disk_drive i =
    codes "file="
    ++ (i.image_path
        ++ (codes ",format="
            ++ (i.disk_format
                ++ (codes ",cache=none,if=" ++ i.hardware.qemu.disk_interface))))

abbrev pub iso_drive : Installer → Text → Text
iso_drive i path =
    codes "file="
    ++ (path ++ (codes ",format=raw,readonly=on,if=" ++ i.hardware.qemu.iso_interface))

abbrev pub machine_args : Installer → List Text
machine_args i =
    codes "--enable-kvm"
    ∷ codes "-cpu"
    ∷ i.hardware.qemu.cpu_model
    ∷ codes "-smp"
    ∷ itoa i.hardware.vcpu
    ∷ codes "-no-reboot"
    ∷ codes "-m"
    ∷ itoa i.hardware.memory_mb
    ∷ codes "-nographic"
    ∷ []

abbrev pub media_args : Installer → Text → Text → Text → List Text
media_args i seed_iso kernel initrd =
    codes "-drive"
    ∷ disk_drive i
    ∷ codes "-drive"
    ∷ iso_drive i (active_iso i)
    ∷ codes "-drive"
    ∷ iso_drive i seed_iso
    ∷ codes "-kernel"
    ∷ kernel
    ∷ codes "-initrd"
    ∷ initrd
    ∷ codes "-append"
    ∷ codes "autoinstall console=ttyS0,115200n8 ---"
    ∷ []

unfoldable pub qemu_args : QemuHost → Installer → Text → Text → Text → QemuStep (List Text)
unfolding uefi_firmware_args done ◌>>=◌
qemu_args host i seed_iso kernel initrd = do
  firmware ← if is_uefi i.hardware then uefi_firmware_args host i else done []
  done (machine_args i ++ (firmware ++ media_args i seed_iso kernel initrd))
