-- ===== src/Seed/UserData.antt =====
-- internal/seediso/seediso.go, internal/offlineapt/offlineapt.go: the user data that goes on the ISO.
-- Decoding and encoding YAML are arguments.
pub mod Transformed
pub mod Headed
use ubuntu_vm_template_build.Base.{
  Bool, true, false, not, List, [], ◌∷◌, ◌++◌, Option, none, some, if◌then◌else◌, Result, ok, err,
  and_then, codes,
}
use ubuntu_vm_template_build.Text.{Text}
use ubuntu_vm_template_build.Common.Names.{safe_name}
use ubuntu_vm_template_build.Common.Yaml.{
  Node, Nodes, node, nil, cons, kind_of, content_of, with_content, joined, is_sequence, sequence,
  text_node, mapping_value, put, put_in, set_mapping_scalar, YamlError, not_parsed,
  autoinstall_mapping_from_root, with_autoinstall, ensure_cloud_config_header,
}
use ubuntu_vm_template_build.Offline.Install
use ubuntu_vm_template_build.Offline.Install.{InstallConfig, InstallError, install_late_commands}

pub data UserDataError : Type 0 where
  bad_yaml : YamlError → UserDataError
  bad_install : InstallError → UserDataError
  late_commands_not_sequence not_encoded : UserDataError

abbrev pub late_commands : Text
late_commands = codes "late-commands"

unfoldable pub nodes_of : List Text → Nodes
nodes_of [] = nil
nodes_of (command ∷ commands) = cons (text_node command) (nodes_of commands)

-- The mapping with other commands, made of those that are there.
unfoldable pub change_late_commands :
    (Nodes → Nodes) → Node → Option Node → Result UserDataError Node
unfolding put_in
change_late_commands f autoinstall none =
    ok (put autoinstall late_commands (node sequence (codes "!!seq") [] (f nil)))
change_late_commands f autoinstall (some late) =
    if is_sequence (kind_of late)
    then ok (put autoinstall late_commands (with_content late (f (content_of late))))
    else err late_commands_not_sequence

abbrev pub unless_bad : Option InstallError → Result UserDataError Node → Result UserDataError Node
unless_bad none next = next
unless_bad (some e) next = err (bad_install e)

-- `PrependInstallLateCommands`
unfoldable pub prepend_install_late_commands : Node → InstallConfig → Result UserDataError Node
unfolding change_late_commands
prepend_install_late_commands autoinstall install =
    let changed =
      change_late_commands (joined (nodes_of (install_late_commands install))) autoinstall
        (mapping_value autoinstall late_commands) in
    if not (Install.enabled install)
    then ok autoinstall
    else unless_bad (Install.validate install) changed

abbrev pub script_late_command : Text → Text
script_late_command iso_path = codes "sh /cdrom" ++ (iso_path ++ codes " /target")

unfoldable pub builder_support_late_commands : List Text
builder_support_late_commands =
    script_late_command (codes "/ubuntu-vm-template-builder/scripts/prepare-cloud-init-template.sh")
    ∷ script_late_command (codes "/ubuntu-vm-template-builder/scripts/cleanup-installed-grub.sh")
    ∷ []

-- `appendBuilderSupportLateCommands`
unfoldable pub append_builder_support_late_commands : Node → Result UserDataError Node
unfolding change_late_commands
append_builder_support_late_commands autoinstall =
    change_late_commands (λ old. joined old (nodes_of builder_support_late_commands)) autoinstall
      (mapping_value autoinstall late_commands)

-- The changes of the mapping, in their order.
unfoldable pub transform_autoinstall : InstallConfig → Node → Result UserDataError Node
unfolding set_mapping_scalar
transform_autoinstall install autoinstall =
    and_then
      (prepend_install_late_commands
        (set_mapping_scalar autoinstall (codes "shutdown") (codes "poweroff")) install)
      append_builder_support_late_commands

abbrev pub transform_found :
    InstallConfig → Node → Result YamlError Node → Result UserDataError Node
unfolding transform_autoinstall
transform_found install root (err e) = err (bad_yaml e)
transform_found install root (ok autoinstall) =
    and_then (transform_autoinstall install autoinstall)
      λ changed. ok (with_autoinstall root changed)

unfoldable pub transform_root : InstallConfig → Node → Result UserDataError Node
unfolding transform_found
transform_root install root = transform_found install root (autoinstall_mapping_from_root root)

abbrev pub encoded : Option Text → Result UserDataError Text
unfolding ensure_cloud_config_header
encoded none = err not_encoded
encoded (some document_text) = ok (ensure_cloud_config_header document_text)

abbrev pub transform_decoded :
    (Node → Option Text) → InstallConfig → Option Node → Result UserDataError Text
unfolding transform_root encoded
transform_decoded encode install none = err (bad_yaml not_parsed)
transform_decoded encode install (some root) =
    and_then (transform_root install root) λ changed. encoded (encode changed)

-- `TransformUserDataWithOptions`
unfoldable pub transform_user_data :
    (Text → Option Node) → (Node → Option Text) → InstallConfig → Text → Result UserDataError Text
unfolding transform_decoded
transform_user_data decode encode install user_data =
    transform_decoded encode install (decode user_data)

-- The meta-data of CreateNoCloudSeedDir
unfoldable pub meta_data : Text → Text
unfolding safe_name
meta_data display_name =
    codes "instance-id: iid-"
    ++ (safe_name display_name
        ++ (codes "\nlocal-hostname: " ++ (safe_name display_name ++ codes "\n")))
