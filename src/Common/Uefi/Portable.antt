-- ===== src/Common/Uefi/Portable.antt =====
-- internal/common/common.go: user data that passes as portable has what a UEFI firmware needs.
use ubuntu_vm_template_build.Base.{
  ◌≡◌, refl, inl, inr, ◌⊎◌, Bool, true, false, not, List, [], ◌∷◌, Option, none, some,
  if◌then◌else◌, codes, OneOf, Bool-cases, Result-cases, ok,
}
use ubuntu_vm_template_build.Common.Yaml.{
  Node, kind_of, content_of, is_mapping, is_sequence, mapping_value, autoinstall_mapping_from_root,
}
use ubuntu_vm_template_build.Common.Uefi.{
  list_of, command_node_text, is_portable_uefi_fallback_command, some_fallback, fallback_in,
  has_portable_uefi_fallback_command, storage_config_has_uefi_esp, check_config, check_storage,
  check_autoinstall, validate_uefi_portable, storage_not_mapping,
}
use ubuntu_vm_template_build.Common.Uefi.Storage.{IsEsp, storage_config-IsEsp}

-- One of the late commands installs a boot loader that needs no entry in the firmware.
pub record HasFallback (autoinstall : Node) : Type 0 where
  pub late : Node
  pub found : mapping_value autoinstall (codes "late-commands") ≡ some late
  pub command : Node
  pub listed : OneOf command (list_of (content_of late))
  pub installs : is_portable_uefi_fallback_command (command_node_text command) ≡ true

-- The storage is the installer's own, or one with an EFI system partition.
pub BootsFrom : Node → Type 0
BootsFrom autoinstall =
    (mapping_value autoinstall (codes "storage") ≡ none)
    ⊎ ((storage : Node) × (mapping_value autoinstall (codes "storage") ≡ some storage)
        × ((mapping_value storage (codes "config") ≡ none)
            ⊎ ((config : Node) × (mapping_value storage (codes "config") ≡ some config)
                × IsEsp (list_of (content_of config)))))

some_fallback-listed :
    (ns : List Node)
    → some_fallback ns ≡ true
    → (n : Node) × OneOf n ns × (is_portable_uefi_fallback_command (command_node_text n) ≡ true)
unfolding some_fallback
some_fallback-listed [] h = absurd (cc h)
some_fallback-listed (n ∷ ns) h =
    elim (Bool-cases (is_portable_uefi_fallback_command (command_node_text n))) [
      | inl here ↦ (n, inl refl, here)
      | inr not_here ↦ let (m, l, i) = some_fallback-listed ns (rw not_here at h) in (m, inr l, i)
    ]

fallback_in-HasFallback :
    (a : Node) (late : Option Node)
    → mapping_value a (codes "late-commands") ≡ late
    → fallback_in late ≡ true
    → HasFallback a
unfolding fallback_in
fallback_in-HasFallback a none e h = absurd (cc h)
fallback_in-HasFallback a (some late) e h = elim (Bool-cases (is_sequence (kind_of late))) [
  | inr other ↦ absurd (cc (rw other at h))
  | inl list ↦
      let (n, l, i) = some_fallback-listed (list_of (content_of late)) (rw list at h) in
      record { late = late; found = e; command = n; listed = l; installs = i }
]

check_config-none :
    (config : Option Node)
    → check_config config ≡ none
    → (config ≡ none) ⊎ ((c : Node) × (config ≡ some c) × IsEsp (list_of (content_of c)))
unfolding check_config
check_config-none none h = inl refl
check_config-none (some c) h = elim (Bool-cases (is_sequence (kind_of c))) [
  | inr other ↦ absurd (cc (rw other at h))
  | inl list ↦ elim (Bool-cases (storage_config_has_uefi_esp (list_of (content_of c)))) [
    | inr lacks ↦ absurd (cc (rw (list, lacks) at h))
    | inl has ↦ inr (c, refl, storage_config-IsEsp (list_of (content_of c)) has)
  ]
]

-- A check behind another that has passed.
check_second :
    {E : Type 0} (t : Bool) (e : E) (next : Option E)
    → (if t then some e else next) ≡ none
    → next ≡ none
check_second true e next h = absurd (cc h)
check_second false e next h = h

check_storage-BootsFrom :
    (a : Node) (storage : Option Node)
    → mapping_value a (codes "storage") ≡ storage
    → check_storage storage ≡ none
    → BootsFrom a
unfolding check_storage BootsFrom
check_storage-BootsFrom a none e h = inl e
check_storage-BootsFrom a (some s) e h = inr (
  s,
  e,
  check_config-none (mapping_value s (codes "config")) (
      check_second (not (is_mapping (kind_of s))) storage_not_mapping
        (check_config (mapping_value s (codes "config"))) h),
)

-- User data that is accepted as portable has the mapping for autoinstall, in which a late command
-- installs a fallback boot loader, and in which the storage is either the installer's own or lists a
-- GPT disk, a boot partition on it, a FAT format of the partition, and a mount of it at /boot/efi.
pub validate_uefi_portable-BootsFrom :
    (root : Node)
    → validate_uefi_portable root ≡ none
    → (a : Node) × (autoinstall_mapping_from_root root ≡ ok a) × HasFallback a × BootsFrom a
unfolding validate_uefi_portable check_autoinstall has_portable_uefi_fallback_command
validate_uefi_portable-BootsFrom root h = elim (Result-cases (autoinstall_mapping_from_root root)) [
  | inr (e, bad) ↦ absurd (cc (rw bad at h))
  | inl (a, good) ↦ elim (Bool-cases (has_portable_uefi_fallback_command a)) [
    | inr lacks ↦ absurd (cc (rw (good, lacks) at h))
    | inl has ↦ (
      a,
      good,
      fallback_in-HasFallback a (mapping_value a (codes "late-commands")) refl has,
      check_storage-BootsFrom a (mapping_value a (codes "storage")) refl (rw (good, has) at h),
    )
  ]
]
