-- ===== src/Proxmox/Config.antt =====
-- internal/backend/proxmox/proxmox.go: the configuration of a build. The fields that only the making
-- of the installer ISO reads are left out.
use ubuntu_vm_template_build.Base.{
  ℤ, Bool, List, [], ◌∷◌, ◌++◌, Option, none, some, if◌then◌else◌, is_empty, is_negative, codes,
}
use ubuntu_vm_template_build.Text.{Text, trim_space, fold_space, equal}
use ubuntu_vm_template_build.Common.Names.{fallback_name, safe_name}
use ubuntu_vm_template_build.Common.Hardware.{HardwareConfig, normalize_proxmox_output_type}
use ubuntu_vm_template_build.Proxmox.Options.{OptionsConfig}
use ubuntu_vm_template_build.Proxmox.CloudInit.{CloudInitOptionsConfig}

pub record ConnectionConfig : Type 0 where
  pub host : Text
  pub token_id : Text
  pub token_secret : Text
  pub insecure : Bool
  pub node : Text
  pub iso_storage : Text
  pub disk_storage : Text
  pub vmid : ℤ
  pub bridge : Text
  pub name : Text

pub record Config : Type 0 where
  pub disk_size : Text
  pub display_name : Text
  pub hardware : HardwareConfig
  pub options : OptionsConfig
  pub cloud_init_options : CloudInitOptionsConfig
  pub proxmox : ConnectionConfig

-- `strings.TrimSpace(value) == ""`
abbrev pub is_blank : Text → Bool
is_blank value = is_empty (trim_space value)

abbrev pub unless_blank : Text → Text → Text
unless_blank value fallback = if is_blank value then fallback else value

unfoldable pub normalize_connection_config : ConnectionConfig → Text → ConnectionConfig
normalize_connection_config cfg fallback = record cfg {
  name = unless_blank (unless_blank cfg.name fallback) fallback_name;
  bridge = trim_space cfg.bridge;
}

-- `buildVolumeID`
unfoldable pub build_volume_id : Text → Text → Text → Text
build_volume_id storage content file_name =
    storage ++ (codes ":" ++ (fold_space content ++ (codes "/" ++ file_name)))

-- `buildTempISOFileName`, of the time as it is formatted.
unfoldable pub build_temp_iso_file_name : Text → Text → Text
build_temp_iso_file_name name time =
    codes "ubuntu-vm-template-builder-" ++ (safe_name name ++ (codes "-" ++ (time ++ codes ".iso")))

unfoldable pub disk_device_key : Text → Text
disk_device_key disk_interface = safe_name (fold_space disk_interface) ++ codes "0"

-- `common.NormalizeProxmoxOutputType(outputType) == common.ProxmoxOutputTypeVM`
unfoldable pub is_vm_output : Text → Bool
is_vm_output output_type = equal (normalize_proxmox_output_type output_type) (codes "vm")

pub data ConnectionError : Type 0 where
  missing_flags : List Text → ConnectionError
  bad_vmid : ConnectionError

-- The flags that are blank, in the order that `sort.Strings` gives them.
unfoldable pub missing_names : List (Text × Text) → List Text
missing_names [] = []
missing_names ((name, value) ∷ flags) =
    let rest = missing_names flags in if is_blank value then name ∷ rest else rest

abbrev pub required_flags : ConnectionConfig → List (Text × Text)
required_flags cfg =
    (codes "--proxmox-disk-storage", cfg.disk_storage)
    ∷ (codes "--proxmox-host", cfg.host)
    ∷ (codes "--proxmox-iso-storage", cfg.iso_storage)
    ∷ (codes "--proxmox-node", cfg.node)
    ∷ (codes "--proxmox-token-id", cfg.token_id)
    ∷ (codes "--proxmox-token-secret", cfg.token_secret)
    ∷ []

unfoldable pub validate_connection_fields : ConnectionConfig → Option ConnectionError
validate_connection_fields cfg =
    let names = missing_names (required_flags cfg) in
    if is_empty names
    then (if is_negative cfg.vmid then some bad_vmid else none)
    else some (missing_flags names)
