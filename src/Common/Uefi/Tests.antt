-- ===== src/Common/Uefi/Tests.antt =====
-- internal/common/common.go: the check of portable user data on a document.
use ubuntu_vm_template_build.Base.{◌≡◌, refl, List, [], ◌∷◌, none, some, codes, ok}
use ubuntu_vm_template_build.Text.{
  Text, join, equal, is_among, trim_space, trim_by, trim_left_by, trim_right_by, is_space,
  has_prefix, contains, replace_all, lower, to_lower,
}
use ubuntu_vm_template_build.Common.Yaml.{
  Node, Nodes, node, nil, cons, document, mapping, sequence, text_node, mapping_value, value_in,
  mapping_scalar_value, top_of, autoinstall_in, autoinstall_mapping_from_root,
}
use ubuntu_vm_template_build.Common.Uefi.{
  scalar_values, command_node_text, is_portable_uefi_fallback_command, some_fallback, fallback_in,
  has_portable_uefi_fallback_command, is_fat_filesystem, assign, lookup, field, add_disk,
  add_partition, add_format, add_mount, add_action, add_actions, some_esp,
  storage_config_has_uefi_esp, check_config, check_storage, check_autoinstall,
  validate_uefi_portable, no_esp_in_config,
}
use ubuntu_vm_template_build.Common.Uefi.Portable.{
  HasFallback, BootsFrom, validate_uefi_portable-BootsFrom,
}

abbrev map_of : List (Text × Text) → Nodes
map_of [] = nil
map_of ((k, v) ∷ rest) = cons (text_node k) (cons (text_node v) (map_of rest))

abbrev map_node : Nodes → Node
map_node content = node mapping (codes "!!map") [] content

abbrev list_node : Nodes → Node
list_node content = node sequence (codes "!!seq") [] content

abbrev pair : Text → Node → Nodes → Nodes
pair key value rest = cons (text_node key) (cons value rest)

abbrev actions : Text → Nodes
actions flag =
    cons
      (map_node (
        map_of (
          (codes "type", codes "disk")
          ∷ (codes "id", codes "d0")
          ∷ (codes "ptable", codes "gpt")
          ∷ [])))
      (cons
        (map_node (
          map_of (
            (codes "type", codes "partition")
            ∷ (codes "id", codes "p0")
            ∷ (codes "device", codes "d0")
            ∷ (codes "flag", flag)
            ∷ [])))
        (cons
          (map_node (
            map_of (
              (codes "type", codes "format")
              ∷ (codes "id", codes "f0")
              ∷ (codes "volume", codes "p0")
              ∷ (codes "fstype", codes "FAT32")
              ∷ [])))
          (cons
            (map_node (
              map_of (
                (codes "type", codes "mount")
                ∷ (codes "device", codes "f0")
                ∷ (codes "path", codes "/boot/efi")
                ∷ [])))
            nil)))

abbrev root_with : Text → Node
root_with flag = node document [] [] (
    cons
      (map_node (
        pair (codes "autoinstall")
          (map_node (
            pair (codes "late-commands")
              (list_node (cons (text_node (codes "grub-install --removable")) nil))
              (pair (codes "storage")
                (map_node (pair (codes "config") (list_node (actions flag)) nil)) nil)))
          nil))
      nil)

accepted : validate_uefi_portable (root_with (codes "boot")) ≡ none
unfolding validate_uefi_portable check_autoinstall check_storage check_config
    storage_config_has_uefi_esp some_esp add_actions add_action add_mount add_format add_partition
    add_disk field lookup assign is_fat_filesystem has_portable_uefi_fallback_command fallback_in
    some_fallback is_portable_uefi_fallback_command command_node_text scalar_values top_of
    autoinstall_in autoinstall_mapping_from_root mapping_value value_in mapping_scalar_value join
    equal is_among trim_space trim_by trim_left_by trim_right_by is_space has_prefix contains
    replace_all lower to_lower
accepted = refl

-- Without the flag there is no EFI system partition.
refused : validate_uefi_portable (root_with (codes "")) ≡ some no_esp_in_config
unfolding validate_uefi_portable check_autoinstall check_storage check_config
    storage_config_has_uefi_esp some_esp add_actions add_action add_mount add_format add_partition
    add_disk field lookup assign is_fat_filesystem has_portable_uefi_fallback_command fallback_in
    some_fallback is_portable_uefi_fallback_command command_node_text scalar_values top_of
    autoinstall_in autoinstall_mapping_from_root mapping_value value_in mapping_scalar_value join
    equal is_among trim_space trim_by trim_left_by trim_right_by is_space has_prefix contains
    replace_all lower to_lower
refused = refl

validate_uefi_portable-BootsFrom_example :
    (a : Node) × (autoinstall_mapping_from_root (root_with (codes "boot")) ≡ ok a)
    × HasFallback a
    × BootsFrom a
validate_uefi_portable-BootsFrom_example =
    validate_uefi_portable-BootsFrom (root_with (codes "boot")) accepted
