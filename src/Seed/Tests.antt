-- ===== src/Seed/Tests.antt =====
-- internal/seediso/seediso.go: runs of the code, and the theorems at concrete inputs.
use ubuntu_vm_template_build.Base.{◌≡◌, refl, true, false, [], ◌∷◌, codes, ok}
use ubuntu_vm_template_build.Text.{
  Text, split, split_from, join, equal, trim_space, trim_by, trim_left_by, trim_right_by, is_space,
  has_prefix, contains, contains_any, mem_char, index, lower, to_lower, replace_all,
}
use ubuntu_vm_template_build.Common.Yaml.{
  Node, Nodes, node, nil, cons, document, mapping, sequence, text_node, mapping_value, value_in,
  put_in, joined, set_mapping_scalar, top_of, autoinstall_in, autoinstall_mapping_from_root,
  with_autoinstall,
}
use ubuntu_vm_template_build.Common.Yaml.Mapping.{IsMapping, ArePaired}
use ubuntu_vm_template_build.Offline.Quote.{shell_quote}
use ubuntu_vm_template_build.Offline.Install
use ubuntu_vm_template_build.Offline.Install.{InstallConfig, check_sources, install_late_commands}
use ubuntu_vm_template_build.Offline.Config.{validate_apt_name, validate_apt_names}
use ubuntu_vm_template_build.Seed.Boot.{
  grub, syslinux, is_installer_boot_line, insert_before_triple_dash, insert_missing,
  ensure_autoinstall_args, indent_of, patch_line, patch_lines, ends_with_newline, without_newline,
  missing_settings, add_kernel_args, patch_boot_config,
}
use ubuntu_vm_template_build.Seed.UserData.{
  nodes_of, change_late_commands, prepend_install_late_commands, builder_support_late_commands,
  append_builder_support_late_commands, transform_autoinstall, transform_root, late_commands,
}
use ubuntu_vm_template_build.Seed.UserData.Transformed.{IsTransformed, transform_root-IsTransformed}

abbrev grub_path : Text
grub_path = codes "/boot/grub/grub.cfg"

abbrev grub_file : Text
grub_file = codes " set timeout=30\n linux /casper/vmlinuz  ---\n"

abbrev patched_file : Text
patched_file =
    codes
      "set timeout_style=hidden\n set timeout=0\n linux /casper/vmlinuz  autoinstall ds=nocloud\\;s=/cdrom/nocloud/ console=tty0 console=ttyS0,115200n8 ---\n"

grub_patched : patch_boot_config grub_path grub_file ≡ (patched_file, true)
unfolding patch_boot_config add_kernel_args missing_settings without_newline ends_with_newline
    patch_lines patch_line indent_of ensure_autoinstall_args insert_missing
    insert_before_triple_dash is_installer_boot_line grub syslinux split split_from join equal
    trim_space trim_by trim_left_by trim_right_by is_space has_prefix contains index lower to_lower
grub_patched = refl

-- A patched file is not changed again.
grub_patched_again : patch_boot_config grub_path patched_file ≡ (patched_file, false)
unfolding patch_boot_config add_kernel_args missing_settings without_newline ends_with_newline
    patch_lines patch_line indent_of ensure_autoinstall_args insert_missing
    insert_before_triple_dash is_installer_boot_line grub syslinux split split_from join equal
    trim_space trim_by trim_left_by trim_right_by is_space has_prefix contains index lower to_lower
grub_patched_again = refl

abbrev pair : Text → Node → Nodes → Nodes
pair key value rest = cons (text_node key) (cons value rest)

abbrev map_node : Nodes → Node
map_node content = node mapping (codes "!!map") [] content

abbrev list_node : Nodes → Node
list_node content = node sequence (codes "!!seq") [] content

abbrev autoinstall : Node
autoinstall = map_node (
    pair (codes "version") (text_node (codes "1"))
      (pair late_commands (list_node (cons (text_node (codes "true")) nil)) nil))

abbrev top : Node
top = map_node (pair (codes "autoinstall") autoinstall nil)

abbrev root : Node
root = node document [] [] (cons top nil)

abbrev installation : InstallConfig
installation = record {
  packages = codes "git" ∷ [];
  sources = record { suite = codes "offline"; components = codes "main" ∷ [] } ∷ [];
}

abbrev transformed : Node
transformed = node document [] [] (
    cons
      (map_node (
        pair (codes "autoinstall")
          (map_node (
            pair (codes "version") (text_node (codes "1")) (
              pair late_commands
                (list_node (
                  cons
                    (text_node (
                      codes
                        "sh '/cdrom/ubuntu-vm-template-builder/scripts/install-offline-packages.sh' '/target' '/cdrom/ubuntu-vm-template-builder/offline-apt' '/cdrom/ubuntu-vm-template-builder/offline-apt-install'"))
                    (cons (text_node (codes "true")) (
                      cons
                        (text_node (
                          codes
                            "sh /cdrom/ubuntu-vm-template-builder/scripts/prepare-cloud-init-template.sh /target"))
                        (cons
                          (text_node (
                            codes
                              "sh /cdrom/ubuntu-vm-template-builder/scripts/cleanup-installed-grub.sh /target"))
                          nil)))))
                (pair (codes "shutdown") (text_node (codes "poweroff")) nil))))
          nil))
      nil)

root-transform : transform_root installation root ≡ ok transformed
unfolding transform_root transform_autoinstall append_builder_support_late_commands
    builder_support_late_commands prepend_install_late_commands change_late_commands nodes_of
    install_late_commands shell_quote replace_all join Install.enabled Install.validate
    Install.check_packages check_sources validate_apt_name validate_apt_names top_of autoinstall_in
    autoinstall_mapping_from_root with_autoinstall mapping_value value_in put_in joined
    set_mapping_scalar equal trim_space trim_by trim_left_by trim_right_by is_space contains
    contains_any mem_char has_prefix
root-transform = refl

top_found : top_of root ≡ ok top
unfolding top_of
top_found = refl

autoinstall_found : autoinstall_mapping_from_root root ≡ ok autoinstall
unfolding autoinstall_mapping_from_root autoinstall_in top_of mapping_value value_in equal
autoinstall_found = refl

top-IsMapping : IsMapping top
unfolding ArePaired
top-IsMapping = record { kind = refl; paired = tt }

autoinstall-IsMapping : IsMapping autoinstall
unfolding ArePaired
autoinstall-IsMapping = record { kind = refl; paired = tt }

transform_root-IsTransformed_example :
    (out_top b : Node) × (top_of transformed ≡ ok out_top)
    × (autoinstall_mapping_from_root transformed ≡ ok b)
    × IsTransformed installation autoinstall b
    × ((key : Text)
        → equal (codes "autoinstall") key ≡ false
        → mapping_value out_top key ≡ mapping_value top key)
transform_root-IsTransformed_example =
    transform_root-IsTransformed installation root top autoinstall transformed top_found
      top-IsMapping autoinstall_found autoinstall-IsMapping root-transform
