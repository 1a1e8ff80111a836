-- ===== src/Proxmox/Vm.antt =====
-- internal/backend/proxmox/proxmox.go: `BuildCreateVMValues`, `BuildFinalizeVMValues`.
pub mod Sent
use ubuntu_vm_template_build.Base.{
  ℕ, ℤ, pos, Bool, true, false, List, [], ◌∷◌, ◌++◌, Option, none, some, if◌then◌else◌, is_empty,
  codes,
}
use ubuntu_vm_template_build.Text.{Text, trim_space, equal, join}
use ubuntu_vm_template_build.Decimal.{itoa}
use ubuntu_vm_template_build.Common.DiskSize.{SizeError}
use ubuntu_vm_template_build.Common.Hardware.{
  HardwareConfig, ProxmoxHardwareConfig, normalize, normalize_boot_firmware,
}
use ubuntu_vm_template_build.Common.Hardware.Validate.{HardwareError, validate}
use ubuntu_vm_template_build.Proxmox.Values.{Values, set}
use ubuntu_vm_template_build.Proxmox.Disk.{
  Allocation, allocated, bad_size, not_positive, too_large, allocation_gib,
}
use ubuntu_vm_template_build.Proxmox.Config.{
  Config, ConnectionConfig, normalize_connection_config, disk_device_key, is_blank,
}

pub data VmError : Type 0 where
  bad_hardware : HardwareError → VmError
  bridge_required bad_disk_size : VmError

pub data VmValues : Type 0 where
  vm_values : Values → VmValues
  vm_refused : VmError → VmValues

-- `boolInt`, printed.
abbrev pub bool_int : Bool → Text
bool_int true = codes "1"
bool_int false = codes "0"

unfoldable pub disk_spec : Text → ℕ → ProxmoxHardwareConfig → Text
disk_spec storage allocation hardware =
    join
      ((storage ++ (codes ":" ++ itoa (pos allocation)))
        ∷ (codes "format=" ++ hardware.disk_format)
        ∷ (if hardware.disk_io_thread then codes "iothread=1" ∷ [] else []))
      (codes ",")

-- `cfg.DiskSize`, or the hardware's if it is blank.
unfoldable pub chosen_disk_size : Text → HardwareConfig → Text
chosen_disk_size size hardware =
    if is_empty (trim_space size) then hardware.disk_size else trim_space size

unfoldable pub efi_disk_spec : Text → ProxmoxHardwareConfig → Text
efi_disk_spec storage hardware =
    storage
    ++ (codes ":1,format="
        ++ (hardware.disk_format
            ++ (codes ",efitype="
                ++ (hardware.efi_type
                    ++ (codes ",pre-enrolled-keys=" ++ bool_int hardware.pre_enrolled_keys)))))

unfoldable pub set_firmware : Text → HardwareConfig → Values → Values
set_firmware storage hardware values =
    if equal (normalize_boot_firmware hardware.boot_firmware) (codes "uefi")
    then set (codes "efidisk0") (efi_disk_spec storage hardware.proxmox)
        (set (codes "bios") (codes "ovmf") values)
    else set (codes "bios") (codes "seabios") values

-- The values of normal hardware, set in the order of the code.
unfoldable pub create_values : ConnectionConfig → HardwareConfig → ℤ → Text → ℕ → Values
create_values connection hardware vmid volume allocation =
    let disk_key = disk_device_key hardware.proxmox.disk_interface in
    set_firmware connection.disk_storage hardware (
      set (codes "vga") (codes "serial0") (
        set (codes "serial0") (codes "socket") (
          set (codes "boot") (codes "order=ide2;" ++ disk_key) (
            set disk_key (disk_spec connection.disk_storage allocation hardware.proxmox) (
              set (codes "ide2") (volume ++ codes ",media=cdrom") (
                set (codes "net0")
                  (hardware.proxmox.network_adapter ++ (codes ",bridge=" ++ connection.bridge))
                  (set (codes "onboot") (codes "0") (
                    set (codes "agent") (codes "1") (
                      set (codes "scsihw") hardware.proxmox.scsi_controller (
                        set (codes "cpu") hardware.proxmox.cpu_type (
                          set (codes "machine") hardware.proxmox.machine (
                            set (codes "ostype") hardware.proxmox.ostype (
                              set (codes "memory") (itoa hardware.memory_mb) (
                                set (codes "cores") (itoa hardware.vcpu) (
                                  set (codes "name") connection.name
                                    (set (codes "vmid") (itoa vmid) []))))))))))))))))

abbrev pub create_with_disk : ConnectionConfig → HardwareConfig → ℤ → Text → Allocation → VmValues
create_with_disk connection hardware vmid volume (allocated n) =
    vm_values (create_values connection hardware vmid volume n)
create_with_disk connection hardware vmid volume (bad_size e) = vm_refused bad_disk_size
create_with_disk connection hardware vmid volume not_positive = vm_refused bad_disk_size
create_with_disk connection hardware vmid volume too_large = vm_refused bad_disk_size

abbrev pub create_with_bridge : Config → ConnectionConfig → HardwareConfig → ℤ → Text → VmValues
create_with_bridge cfg connection hardware vmid volume =
    if is_blank connection.bridge
    then vm_refused bridge_required
    else create_with_disk connection hardware vmid volume
        (allocation_gib (chosen_disk_size cfg.disk_size hardware))

abbrev pub unless_bad_hardware : Option HardwareError → VmValues → VmValues
unless_bad_hardware none values = values
unless_bad_hardware (some e) values = vm_refused (bad_hardware e)

-- `BuildCreateVMValues`; the disk size is parsed twice there, with the same result.
unfoldable pub build_create_vm_values : Config → ℤ → Text → VmValues
build_create_vm_values cfg vmid volume =
    let hardware = normalize cfg.hardware in
    let connection = normalize_connection_config cfg.proxmox cfg.display_name in
    unless_bad_hardware (validate hardware) (create_with_bridge cfg connection hardware vmid volume)

unfoldable pub finalize_values : HardwareConfig → Values
finalize_values hardware = set (codes "memory") (itoa hardware.memory_mb) (
    set (codes "cores") (itoa hardware.vcpu) (
      set (codes "vga") (codes "std") (
        set (codes "delete") (codes "ide2,serial0") (
          set (codes "boot") (codes "order=" ++ disk_device_key hardware.proxmox.disk_interface)
            []))))

unfoldable pub build_finalize_vm_values : Config → VmValues
build_finalize_vm_values cfg =
    let hardware = normalize cfg.hardware in
    unless_bad_hardware (validate hardware) (vm_values (finalize_values hardware))
