-- ===== src/Proxmox/Disk/Bounds.antt =====
-- The allocation is the size asked for, rounded up to whole GiB.
use ubuntu_vm_template_build.Base.{ℕ, ◌+◌, ◌%◌, ◌≤◌, ◌<◌, ◌≡◌, ◌↔◌, refl, arith}
use ubuntu_vm_template_build.Text.{Text}
use ubuntu_vm_template_build.Common.Hardware.{HardwareConfig}
use ubuntu_vm_template_build.Common.DiskSize.{Result, ok, err, max_int64, parse_disk_size}
use ubuntu_vm_template_build.Proxmox.Disk.{
  gib, allocated, rounded_up, gib_for, bytes_for, allocation_gib, allocation_bytes, efi_disk_bytes,
  efi_type_4m_bytes,
}

-- The bytes that the size text stands for, the bytes allocated.
pub IsAllocationFor : ℕ → ℕ → Type 0
IsAllocationFor bytes b = (bytes ≤ b) × ((b < bytes + gib) × ((b % gib ≡ 0) × (b ≤ max_int64)))

pub bytes_for-lem :
    (bytes b : ℕ)
    → bytes_for (gib_for (ok bytes)) ≡ allocated b
    → (0 < bytes) × IsAllocationFor bytes b
unfolding IsAllocationFor rounded_up
bytes_for-lem bytes b h = ground arith

bytes_for_complete :
    (bytes b : ℕ)
    → 0 < bytes
    → IsAllocationFor bytes b
    → bytes_for (gib_for (ok bytes)) ≡ allocated b
unfolding IsAllocationFor rounded_up
bytes_for_complete bytes b positive (low, (high, (whole, fits))) = ground arith

from_result :
    (r : Result ℕ) (b : ℕ)
    → bytes_for (gib_for r) ≡ allocated b
    → (bytes : ℕ) × (r ≡ ok bytes) × (0 < bytes) × IsAllocationFor bytes b
from_result (err e) b h = cc
from_result (ok bytes) b h =
    let (positive, fits) = bytes_for-lem bytes b h in (bytes, refl, positive, fits)

-- A size is allocated `b` bytes exactly if it is an accepted size, not zero, and `b` is the next
-- multiple of a GiB, which an `int64` holds.
pub allocation_bytes-IsAllocationFor :
    (size : Text) (b : ℕ)
    → (allocation_bytes size ≡ allocated b)
      ↔ ((bytes : ℕ) × (parse_disk_size size ≡ ok bytes) × (0 < bytes) × IsAllocationFor bytes b)
unfolding allocation_bytes allocation_gib
allocation_bytes-IsAllocationFor size b = (
  (λ h. from_result (parse_disk_size size) b h),
  (λ (bytes, parsed, positive, fits). rw parsed (bytes_for_complete bytes b positive fits)),
)

efi_disk_bytes_bound : (hardware : HardwareConfig) → efi_disk_bytes hardware ≤ efi_type_4m_bytes
unfolding efi_disk_bytes
efi_disk_bytes_bound hardware = ground arith

-- The EFI disk's bytes, added to the allocation of any accepted size, do not wrap round.
pub efi_disk_bytes-allocation_bytes :
    (size : Text) (b : ℕ) (hardware : HardwareConfig)
    → allocation_bytes size ≡ allocated b
    → b + efi_disk_bytes hardware ≤ max_int64
unfolding IsAllocationFor
efi_disk_bytes-allocation_bytes size b hardware h =
    let (bytes, _, _, (_, (_, (whole, fits)))) = (allocation_bytes-IsAllocationFor size b).0 h in
    ground (arith, efi_disk_bytes_bound hardware)
