-- ===== src/Proxmox/Disk.antt =====
-- internal/backend/proxmox/proxmox.go: the size of the disk that is allocated, in GiB and in bytes.
pub mod Bounds
use ubuntu_vm_template_build.Base.{
  ℕ, ◌+◌, ◌*◌, ◌/◌, ◌%◌, Bool, true, false, not, if◌then◌else◌, ltb, ◌==◌, codes,
}
use ubuntu_vm_template_build.Text.{Text, equal}
use ubuntu_vm_template_build.Common.DiskSize.{
  SizeError, Result, ok, err, max_int64, parse_disk_size,
}
use ubuntu_vm_template_build.Common.Hardware.{HardwareConfig, normalize, normalize_boot_firmware}

abbrev pub gib : ℕ
gib = 1024 * 1024 * 1024

abbrev pub efi_type_2m_bytes : ℕ
efi_type_2m_bytes = 2 * 1024 * 1024

abbrev pub efi_type_4m_bytes : ℕ
efi_type_4m_bytes = 4 * 1024 * 1024

pub data Allocation : Type 0 where
  allocated : ℕ → Allocation
  bad_size : SizeError → Allocation
  not_positive too_large : Allocation

-- `gib++` unless the division is exact, and one at least.
unfoldable pub rounded_up : ℕ → ℕ
rounded_up bytes =
    let whole = bytes / gib in
    let up = if not (bytes % gib == 0) then whole + 1 else whole in if ltb up 1 then 1 else up

abbrev pub gib_for : Result ℕ → Allocation
gib_for (err e) = bad_size e
gib_for (ok bytes) = if bytes == 0 then not_positive else allocated (rounded_up bytes)

-- `proxmoxDiskAllocationGiB`; the parsed size is not negative.
unfoldable pub allocation_gib : Text → Allocation
allocation_gib size = gib_for (parse_disk_size size)

abbrev pub bytes_for : Allocation → Allocation
bytes_for (allocated n) = if ltb (max_int64 / gib) n then too_large else allocated (n * gib)
bytes_for (bad_size e) = bad_size e
bytes_for not_positive = not_positive
bytes_for too_large = too_large

-- `proxmoxDiskAllocationBytes`
unfoldable pub allocation_bytes : Text → Allocation
allocation_bytes size = bytes_for (allocation_gib size)

-- `proxmoxEFIDiskBytes`
unfoldable pub efi_disk_bytes : HardwareConfig → ℕ
efi_disk_bytes hardware =
    let normal = normalize hardware in
    if not (equal (normalize_boot_firmware normal.boot_firmware) (codes "uefi"))
    then 0
    else if equal normal.proxmox.efi_type (codes "2m")
    then efi_type_2m_bytes
    else efi_type_4m_bytes
