-- ===== src/Common/Hardware/Validate.antt =====
-- internal/common/common.go: `HardwareConfig.Validate`.
use ubuntu_vm_template_build.Base.{
  ℕ, ◌++◌, Bool, true, false, not, ◌&&◌, ◌||◌, List, [], ◌∷◌, Option, none, some, if◌then◌else◌,
  is_empty, codes, is_positive,
}
use ubuntu_vm_template_build.Text.{Text, trim_space, fold_space, equal, is_among}
use ubuntu_vm_template_build.Common.DiskSize.{SizeError, Result, ok, err, is_digit, parse_disk_size}
use ubuntu_vm_template_build.Common.Hardware.{HardwareConfig, normalize_boot_firmware, normalize}

pub data HardwareError : Type 0 where
  bad_boot_firmware no_disk_size : HardwareError
  bad_disk_size : SizeError → HardwareError
  bad_vcpu bad_memory_mb no_cpu_model bad_qemu_disk bad_qemu_iso : HardwareError
  bad_vcenter_scsi bad_vcenter_network bad_provisioning bad_compatibility no_guest_os_id :
      HardwareError
  bad_vcenter_output bad_proxmox_network bad_proxmox_scsi bad_proxmox_disk bad_io_thread :
      HardwareError
  bad_disk_format no_cpu_type no_machine no_ostype bad_efi_type bad_proxmox_output : HardwareError

-- `isOneOf`
unfoldable pub is_one_of : Text → List Text → Bool
is_one_of value allowed = is_among (fold_space value) allowed

-- `ValidateBootFirmware`
unfoldable pub validate_boot_firmware : Text → Bool
validate_boot_firmware firmware =
    let firmware = normalize_boot_firmware firmware in
    equal firmware (codes "uefi") || equal firmware (codes "bios")

abbrev pub is_blank : Text → Bool
is_blank s = is_empty (trim_space s)

-- `^vmx-[0-9]+$`
unfoldable pub are_digits : Text → Bool
are_digits [] = true
are_digits (c ∷ s) = is_digit c && are_digits s

unfoldable pub matches_vmx : Text → Bool
matches_vmx (a ∷ b ∷ c ∷ d ∷ e ∷ s) =
    equal (a ∷ b ∷ c ∷ d ∷ []) (codes "vmx-") && are_digits (e ∷ s)
matches_vmx _ = false

-- `if cond { return err }` in a row: each check holds if its condition does not.
abbrev pub Checks : Type 0
Checks = List (Bool × HardwareError)

abbrev pub first_failure : Checks → Option HardwareError
first_failure [] = none
first_failure ((passes, e) ∷ rest) = if passes then first_failure rest else some e

abbrev pub interfaces : List Text
interfaces = codes "virtio" ∷ codes "ide" ∷ codes "scsi" ∷ codes "sata" ∷ []

-- The two checks of the size: it is there, and `ParseDiskSize` takes it.
abbrev pub size_check : Result ℕ → Bool × HardwareError
size_check (ok n) = (true, no_disk_size)
size_check (err e) = (false, bad_disk_size e)

abbrev pub general_checks : HardwareConfig → Checks
general_checks c =
    (validate_boot_firmware c.boot_firmware, bad_boot_firmware)
    ∷ (not (is_blank c.disk_size), no_disk_size)
    ∷ size_check (parse_disk_size c.disk_size)
    ∷ (is_positive c.vcpu, bad_vcpu)
    ∷ (is_positive c.memory_mb, bad_memory_mb)
    ∷ (not (is_blank c.qemu.cpu_model), no_cpu_model)
    ∷ (is_one_of c.qemu.disk_interface interfaces, bad_qemu_disk)
    ∷ (is_one_of c.qemu.iso_interface interfaces, bad_qemu_iso)
    ∷ []

abbrev pub vcenter_checks : HardwareConfig → Checks
vcenter_checks c =
    (
      is_one_of c.vcenter.scsi_controller
          (codes "pvscsi" ∷ codes "lsilogic" ∷ codes "buslogic" ∷ codes "lsilogic-sas" ∷ []),
      bad_vcenter_scsi,
    )
    ∷ (
      is_one_of c.vcenter.network_adapter (
          codes "vmxnet3" ∷ codes "vmxnet2" ∷ codes "vmxnet" ∷ codes "e1000" ∷ codes "e1000e" ∷ []),
      bad_vcenter_network,
    )
    ∷ (
      is_one_of c.vcenter.disk_provisioning (
          codes "thin"
          ∷ codes "thick_provision_lazy_zeroed"
          ∷ codes "thick_provision_eager_zeroed"
          ∷ []),
      bad_provisioning,
    )
    ∷ (is_blank c.vcenter.compatibility || matches_vmx c.vcenter.compatibility, bad_compatibility)
    ∷ (not (is_blank c.vcenter.guest_os_id), no_guest_os_id)
    ∷ (is_one_of c.vcenter.output_type (codes "template" ∷ codes "vm" ∷ []), bad_vcenter_output)
    ∷ []

-- `disk_io_thread` is for virtio, and for scsi behind virtio-scsi-single.
abbrev pub io_thread_allowed : HardwareConfig → Bool
io_thread_allowed c =
    not c.proxmox.disk_io_thread
    || equal c.proxmox.disk_interface (codes "virtio")
    || (equal c.proxmox.disk_interface (codes "scsi")
        && equal c.proxmox.scsi_controller (codes "virtio-scsi-single"))

abbrev pub proxmox_checks : HardwareConfig → Checks
proxmox_checks c =
    (
      is_one_of c.proxmox.network_adapter (
          codes "virtio" ∷ codes "e1000" ∷ codes "e1000e" ∷ codes "rtl8139" ∷ codes "vmxnet3" ∷ []),
      bad_proxmox_network,
    )
    ∷ (
      is_one_of c.proxmox.scsi_controller (
          codes "virtio-scsi-pci"
          ∷ codes "virtio-scsi-single"
          ∷ codes "lsi"
          ∷ codes "lsi53c810"
          ∷ codes "megasas"
          ∷ codes "pvscsi"
          ∷ []),
      bad_proxmox_scsi,
    )
    ∷ (
      is_one_of c.proxmox.disk_interface
          (codes "scsi" ∷ codes "sata" ∷ codes "virtio" ∷ codes "ide" ∷ []),
      bad_proxmox_disk,
    )
    ∷ (io_thread_allowed c, bad_io_thread)
    ∷ (
      is_one_of c.proxmox.disk_format (codes "raw" ∷ codes "qcow2" ∷ codes "vmdk" ∷ []),
      bad_disk_format,
    )
    ∷ (not (is_blank c.proxmox.cpu_type), no_cpu_type)
    ∷ (not (is_blank c.proxmox.machine), no_machine)
    ∷ (not (is_blank c.proxmox.ostype), no_ostype)
    ∷ (is_one_of c.proxmox.efi_type (codes "2m" ∷ codes "4m" ∷ []), bad_efi_type)
    ∷ (is_one_of c.proxmox.output_type (codes "template" ∷ codes "vm" ∷ []), bad_proxmox_output)
    ∷ []

abbrev pub checks : HardwareConfig → Checks
checks c = general_checks c ++ (vcenter_checks c ++ proxmox_checks c)

-- `HardwareConfig.Validate`; `none` is nil.
unfoldable pub validate : HardwareConfig → Option HardwareError
validate c = first_failure (checks (normalize c))
