-- ===== src/Common/Uefi.antt =====
-- internal/common/common.go: whether the user data installs a system that any UEFI firmware boots.
pub mod Storage
pub mod Portable
mod Tests
use ubuntu_vm_template_build.Base.{
  Bool, true, false, not, ◌&&◌, ◌||◌, List, [], ◌∷◌, ◌++◌, Option, none, some, if◌then◌else◌,
  is_empty, codes, Result, ok, err,
}
use ubuntu_vm_template_build.Text.{
  Text, equal, is_among, to_lower, trim_space, contains, replace_all, join,
}
use ubuntu_vm_template_build.Common.Yaml.{
  Node, Nodes, nil, cons, kind_of, value_of, content_of, is_mapping, is_sequence, is_scalar,
  mapping_value, mapping_scalar_value, YamlError, autoinstall_mapping_from_root,
}

abbrev pub list_of : Nodes → List Node
list_of nil = []
list_of (cons n rest) = n ∷ list_of rest

unfoldable pub scalar_values : List Node → List Text
scalar_values [] = []
scalar_values (n ∷ ns) =
    let rest = scalar_values ns in if is_scalar (kind_of n) then value_of n ∷ rest else rest

unfoldable pub command_node_text : Node → Text
command_node_text n =
    if is_scalar (kind_of n)
    then value_of n
    else if is_sequence (kind_of n)
    then join (scalar_values (list_of (content_of n))) (codes " ")
    else []

unfoldable pub is_portable_uefi_fallback_command : Text → Bool
is_portable_uefi_fallback_command command =
    let lowered = to_lower command in
    (contains lowered (codes "grub-install") && contains lowered (codes "--removable"))
    || contains (replace_all lowered b'\\' (codes "/")) (codes "efi/boot/bootx64.efi")

unfoldable pub some_fallback : List Node → Bool
some_fallback [] = false
some_fallback (n ∷ ns) = is_portable_uefi_fallback_command (command_node_text n) || some_fallback ns

unfoldable pub fallback_in : Option Node → Bool
unfolding some_fallback
fallback_in none = false
fallback_in (some late) =
    if is_sequence (kind_of late) then some_fallback (list_of (content_of late)) else false

unfoldable pub has_portable_uefi_fallback_command : Node → Bool
unfolding mapping_value fallback_in
has_portable_uefi_fallback_command autoinstall =
    fallback_in (mapping_value autoinstall (codes "late-commands"))

unfoldable pub is_fat_filesystem : Text → Bool
is_fat_filesystem fstype =
    is_among (to_lower (trim_space fstype))
      (codes "fat" ∷ codes "fat16" ∷ codes "fat32" ∷ codes "vfat" ∷ [])

-- A map from texts to texts.
abbrev pub Dict : Type 0
Dict = List (Text × Text)

unfoldable pub assign : Text → Text → Dict → Dict
assign key value [] = (key, value) ∷ []
assign key value ((k, v) ∷ d) =
    let rest = assign key value d in if equal k key then (key, value) ∷ d else (k, v) ∷ rest

-- The value at a key; empty if there is none.
unfoldable pub lookup : Text → Dict → Text
lookup key [] = []
lookup key ((k, v) ∷ d) = let rest = lookup key d in if equal k key then v else rest

-- The four maps of `storageConfigHasUEFIESP`.
pub record Esp : Type 0 where
  pub gpt_disks : List Text
  pub boot_partition_device : Dict
  pub fat_format_for_volume : Dict
  pub efi_mount_devices : List Text

-- What an action says, by keys.
unfoldable pub field : Node → Text → Text
unfolding mapping_scalar_value
field action key = mapping_scalar_value action key

unfoldable pub add_disk : Node → Esp → Esp
add_disk action e =
    if not (is_empty (field action (codes "id")))
      && equal (field action (codes "ptable")) (codes "gpt")
    then record e { gpt_disks = field action (codes "id") ∷ e.gpt_disks }
    else e

unfoldable pub add_partition : Node → Esp → Esp
add_partition action e =
    let id = field action (codes "id") in
    let device = field action (codes "device") in
    if not (is_empty id)
      && not (is_empty device)
      && equal (field action (codes "flag")) (codes "boot")
    then record e { boot_partition_device = assign id device e.boot_partition_device }
    else e

unfoldable pub add_format : Node → Esp → Esp
add_format action e =
    let id = field action (codes "id") in
    let volume = field action (codes "volume") in
    if not (is_empty id)
      && not (is_empty volume)
      && is_fat_filesystem (field action (codes "fstype"))
    then record e { fat_format_for_volume = assign volume id e.fat_format_for_volume }
    else e

unfoldable pub add_mount : Node → Esp → Esp
add_mount action e =
    let device = field action (codes "device") in
    if not (is_empty device) && equal (field action (codes "path")) (codes "/boot/efi")
    then record e { efi_mount_devices = device ∷ e.efi_mount_devices }
    else e

unfoldable pub add_action : Node → Esp → Esp
add_action action e =
    let type = field action (codes "type") in
    if not (is_mapping (kind_of action))
    then e
    else if equal type (codes "disk")
    then add_disk action e
    else if equal type (codes "partition")
    then add_partition action e
    else if equal type (codes "format")
    then add_format action e
    else if equal type (codes "mount")
    then add_mount action e
    else e

unfoldable pub add_actions : List Node → Esp → Esp
add_actions [] e = e
add_actions (action ∷ actions) e = add_actions actions (add_action action e)

-- The loop over the boot partitions.
unfoldable pub some_esp : Dict → Esp → Bool
some_esp [] e = false
some_esp ((partition, device) ∷ partitions) e =
    let rest = some_esp partitions e in
    let format = lookup partition e.fat_format_for_volume in
    if not (is_among device e.gpt_disks)
    then rest
    else if is_empty format
    then rest
    else (is_among format e.efi_mount_devices || is_among partition e.efi_mount_devices) || rest

abbrev pub no_esp : Esp
no_esp = record {
  gpt_disks = [];
  boot_partition_device = [];
  fat_format_for_volume = [];
  efi_mount_devices = [];
}

unfoldable pub storage_config_has_uefi_esp : List Node → Bool
unfolding add_actions
storage_config_has_uefi_esp actions =
    let e = add_actions actions no_esp in some_esp e.boot_partition_device e

pub data UefiError : Type 0 where
  bad_autoinstall : YamlError → UefiError
  no_fallback storage_not_mapping config_not_sequence no_esp_in_config : UefiError

unfoldable pub check_config : Option Node → Option UefiError
unfolding storage_config_has_uefi_esp
check_config none = none
check_config (some config) =
    if not (is_sequence (kind_of config))
    then some config_not_sequence
    else if not (storage_config_has_uefi_esp (list_of (content_of config)))
    then some no_esp_in_config
    else none

unfoldable pub check_storage : Option Node → Option UefiError
unfolding mapping_value check_config
check_storage none = none
check_storage (some storage) =
    if not (is_mapping (kind_of storage))
    then some storage_not_mapping
    else check_config (mapping_value storage (codes "config"))

unfoldable pub check_autoinstall : Result YamlError Node → Option UefiError
unfolding check_storage
check_autoinstall (err e) = some (bad_autoinstall e)
check_autoinstall (ok autoinstall) =
    if not (has_portable_uefi_fallback_command autoinstall)
    then some no_fallback
    else check_storage (mapping_value autoinstall (codes "storage"))

-- `ValidateUEFIPortableUserData` behind the decoding.
unfoldable pub validate_uefi_portable : Node → Option UefiError
unfolding check_autoinstall
validate_uefi_portable root = check_autoinstall (autoinstall_mapping_from_root root)
