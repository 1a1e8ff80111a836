-- ===== src/Proxmox/Vm/Sent.antt =====
-- internal/backend/proxmox/proxmox.go: what the request for the VM holds.
use ubuntu_vm_template_build.Base.{
  ℕ, ℤ, ◌≡◌, ◌≢◌, refl, subst, Bool, true, false, [], ◌∷◌, ◌++◌, Option, none, some, codes, arith,
  inl, inr, Bool-cases,
}
use ubuntu_vm_template_build.Text.{Text, fold_space, equal}
use ubuntu_vm_template_build.Decimal.{itoa}
use ubuntu_vm_template_build.Common.Names.{safe_name}
use ubuntu_vm_template_build.Common.Hardware.{HardwareConfig, normalize, normalize_boot_firmware}
use ubuntu_vm_template_build.Common.Hardware.Validate.{HardwareError, validate}
use ubuntu_vm_template_build.Proxmox.Values.{Values, get, get-set}
use ubuntu_vm_template_build.Proxmox.Disk.{Allocation, allocated, bad_size, not_positive, too_large}
use ubuntu_vm_template_build.Proxmox.Config.{Config, ConnectionConfig, disk_device_key, is_blank}
use ubuntu_vm_template_build.Proxmox.Vm.{
  VmError, VmValues, vm_values, vm_refused, set_firmware, create_values, create_with_disk,
  create_with_bridge, unless_bad_hardware, build_create_vm_values,
}

-- The values name the VM's number, and boot it from the installer's volume.
pub record IsRequestFor (vmid : ℤ) (volume : Text) (values : Values) : Type 0 where
  pub numbered : get (codes "vmid") values ≡ some (itoa vmid)
  pub cdrom : get (codes "ide2") values ≡ some (volume ++ codes ",media=cdrom")

vmid-ends_in_0 : (s : Text) → equal (s ++ codes "0") (codes "vmid") ≡ false
unfolding equal
vmid-ends_in_0 [] = refl
vmid-ends_in_0 (a ∷ []) = ground arith
vmid-ends_in_0 (a ∷ b ∷ []) = ground arith
vmid-ends_in_0 (a ∷ b ∷ c ∷ []) = ground arith
vmid-ends_in_0 (a ∷ b ∷ c ∷ d ∷ []) = ground arith
vmid-ends_in_0 (a ∷ b ∷ c ∷ d ∷ e ∷ s) = ground arith

ide2-ends_in_0 : (s : Text) → equal (s ++ codes "0") (codes "ide2") ≡ false
unfolding equal
ide2-ends_in_0 [] = refl
ide2-ends_in_0 (a ∷ []) = ground arith
ide2-ends_in_0 (a ∷ b ∷ []) = ground arith
ide2-ends_in_0 (a ∷ b ∷ c ∷ []) = ground arith
ide2-ends_in_0 (a ∷ b ∷ c ∷ d ∷ []) = ground arith
ide2-ends_in_0 (a ∷ b ∷ c ∷ d ∷ e ∷ s) = ground arith

disk_device_key-vmid : (i : Text) → equal (disk_device_key i) (codes "vmid") ≡ false
unfolding disk_device_key
disk_device_key-vmid i = vmid-ends_in_0 (safe_name (fold_space i))

disk_device_key-ide2 : (i : Text) → equal (disk_device_key i) (codes "ide2") ≡ false
unfolding disk_device_key
disk_device_key-ide2 i = ide2-ends_in_0 (safe_name (fold_space i))

-- The firmware's keys are two.
get-set_firmware :
    (key storage : Text) (hardware : HardwareConfig) (values : Values)
    → equal (codes "bios") key ≡ false
    → equal (codes "efidisk0") key ≡ false
    → get key (set_firmware storage hardware values) ≡ get key values
unfolding set_firmware
get-set_firmware key storage hardware values h k =
    elim (Bool-cases (equal (normalize_boot_firmware hardware.boot_firmware) (codes "uefi"))) [
      | inl uefi ↦ rw uefi (simp (get-set, h, k))
      | inr bios ↦ rw bios (simp (get-set, h))
    ]

create_values-IsRequestFor :
    (connection : ConnectionConfig) (hardware : HardwareConfig) (vmid : ℤ) (volume : Text) (n : ℕ)
    → IsRequestFor vmid volume (create_values connection hardware vmid volume n)
unfolding create_values equal get
create_values-IsRequestFor connection hardware vmid volume n = record {
  numbered =
      rw (get-set_firmware (codes "vmid") _ hardware _ refl refl)
        (simp (get-set, disk_device_key-vmid));
  cdrom =
      rw (get-set_firmware (codes "ide2") _ hardware _ refl refl)
        (simp (get-set, disk_device_key-ide2));
}

refused_ne : {e : VmError} {values : Values} → vm_refused e ≢ vm_values values
refused_ne h = cc

of_allocation :
    (connection : ConnectionConfig) (hardware : HardwareConfig) (vmid : ℤ) (volume : Text)
    (a : Allocation) (values : Values)
    → create_with_disk connection hardware vmid volume a ≡ vm_values values
    → IsRequestFor vmid volume values
of_allocation connection hardware vmid volume (allocated n) values h =
    let same : create_values connection hardware vmid volume n ≡ values = cc in
    subst (IsRequestFor vmid volume) same
      (create_values-IsRequestFor connection hardware vmid volume n)
of_allocation connection hardware vmid volume (bad_size e) values h = absurd (refused_ne h)
of_allocation connection hardware vmid volume not_positive values h = absurd (refused_ne h)
of_allocation connection hardware vmid volume too_large values h = absurd (refused_ne h)

of_bridge :
    (cfg : Config) (connection : ConnectionConfig) (hardware : HardwareConfig) (vmid : ℤ)
    (volume : Text) (values : Values) (blank : Bool)
    → is_blank connection.bridge ≡ blank
    → create_with_bridge cfg connection hardware vmid volume ≡ vm_values values
    → IsRequestFor vmid volume values
of_bridge cfg connection hardware vmid volume values true e h = absurd (refused_ne (rw e at h))
of_bridge cfg connection hardware vmid volume values false e h =
    of_allocation connection hardware vmid volume _ values (rw e at h)

of_hardware :
    (e : Option HardwareError) (v : VmValues) (values : Values)
    → unless_bad_hardware e v ≡ vm_values values
    → v ≡ vm_values values
of_hardware none v values h = h
of_hardware (some e) v values h = cc

-- A request to create a VM is for the number that was chosen, with the uploaded ISO in the drive.
pub build_create_vm_values-IsRequestFor :
    (cfg : Config) (vmid : ℤ) (volume : Text) (values : Values)
    → build_create_vm_values cfg vmid volume ≡ vm_values values
    → IsRequestFor vmid volume values
unfolding build_create_vm_values
build_create_vm_values-IsRequestFor cfg vmid volume values h =
    of_bridge cfg _ _ vmid volume values _ refl
      (of_hardware (validate (normalize cfg.hardware)) _ values h)
