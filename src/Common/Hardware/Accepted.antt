-- ===== src/Common/Hardware/Accepted.antt =====
-- internal/common/common.go: what an accepted configuration holds, in its normal form.
use ubuntu_vm_template_build.Base.{ℕ, ◌≡◌, true, [], ◌∷◌, ◌⊎◌, is_positive, OneOf, codes}
use ubuntu_vm_template_build.Text.{Text}
use ubuntu_vm_template_build.Common.DiskSize.{ok, parse_disk_size}
use ubuntu_vm_template_build.Common.Hardware.{HardwareConfig, ProxmoxHardwareConfig}
use ubuntu_vm_template_build.Common.Hardware.Validate.{interfaces}

-- A disk may have an I/O thread if it is virtio, or scsi behind a virtio-scsi-single controller.
abbrev pub AllowsIoThread : ProxmoxHardwareConfig → Type 0
AllowsIoThread p =
    (p.disk_interface ≡ codes "virtio")
    ⊎ ((p.disk_interface ≡ codes "scsi") × (p.scsi_controller ≡ codes "virtio-scsi-single"))

-- What the backends rely on in a configuration.
pub record IsUsable (c : HardwareConfig) : Type 0 where
  pub firmware : (c.boot_firmware ≡ codes "uefi") ⊎ (c.boot_firmware ≡ codes "bios")
  pub size : (bytes : ℕ) × (parse_disk_size c.disk_size ≡ ok bytes)
  pub some_vcpu : is_positive c.vcpu ≡ true
  pub some_memory : is_positive c.memory_mb ≡ true
  pub qemu_disk : OneOf c.qemu.disk_interface interfaces
  pub vcenter_output : OneOf c.vcenter.output_type (codes "template" ∷ codes "vm" ∷ [])
  pub disk_interface :
      OneOf c.proxmox.disk_interface
        (codes "scsi" ∷ codes "sata" ∷ codes "virtio" ∷ codes "ide" ∷ [])
  pub disk_format : OneOf c.proxmox.disk_format (codes "raw" ∷ codes "qcow2" ∷ codes "vmdk" ∷ [])
  pub io_thread : c.proxmox.disk_io_thread ≡ true → AllowsIoThread c.proxmox
  pub efi_type : OneOf c.proxmox.efi_type (codes "2m" ∷ codes "4m" ∷ [])
  pub output_type : OneOf c.proxmox.output_type (codes "template" ∷ codes "vm" ∷ [])
