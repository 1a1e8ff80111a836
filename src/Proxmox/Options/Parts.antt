-- ===== src/Proxmox/Options/Parts.antt =====
-- internal/backend/proxmox/options.go: the comma-separated values.
use ubuntu_vm_template_build.Base.{
  ℤ, Bool, true, false, List, [], ◌∷◌, ◌++◌, Option, none, some, if◌then◌else◌, is_empty, codes,
}
use ubuntu_vm_template_build.Text.{Text, join}
use ubuntu_vm_template_build.Decimal.{itoa}
use ubuntu_vm_template_build.Proxmox.Options.{
  StartupOptions, QemuGuestAgentOptions, HotplugOptions, SmbiosOptions, SpiceEnhancementsOptions,
}

-- `boolString`
abbrev pub bool_string : Bool → Text
bool_string true = codes "1"
bool_string false = codes "0"

abbrev pub comma : Text
comma = codes ","

-- `if value != nil { parts = append(parts, key+boolString(*value)) }`, and so for the other types.
abbrev pub bool_part : Text → Option Bool → List Text
bool_part key none = []
bool_part key (some b) = (key ++ bool_string b) ∷ []

abbrev pub int_part : Text → Option ℤ → List Text
int_part key none = []
int_part key (some i) = (key ++ itoa i) ∷ []

abbrev pub text_part : Text → Text → List Text
text_part key value = if is_empty value then [] else (key ++ value) ∷ []

unfoldable pub build_startup_value : StartupOptions → Text
build_startup_value o =
    join
      (int_part (codes "order=") o.order
        ++ (int_part (codes "up=") o.up_delay_seconds
            ++ int_part (codes "down=") o.down_delay_seconds))
      comma

unfoldable pub build_agent_value : QemuGuestAgentOptions → Text
build_agent_value o =
    join
      (bool_part (codes "enabled=") o.enabled
        ++ (bool_part (codes "freeze-fs-on-backup=") o.freeze_fs_on_backup
            ++ (bool_part (codes "fstrim_cloned_disks=") o.fstrim_cloned_disks
                ++ text_part (codes "type=") o.type)))
      comma

abbrev pub hotplug_fields : HotplugOptions → List (Text × Option Bool)
hotplug_fields o =
    (codes "network", o.network)
    ∷ (codes "disk", o.disk)
    ∷ (codes "usb", o.usb)
    ∷ (codes "memory", o.memory)
    ∷ (codes "cpu", o.cpu)
    ∷ (codes "cloudinit", o.cloudinit)
    ∷ []

-- The loop of `buildHotplugValue`: `wasSet` and `enabled` in the end.
unfoldable pub hotplug_scan : List (Text × Option Bool) → Bool × List Text
hotplug_scan [] = (false, [])
hotplug_scan ((name, none) ∷ fields) = hotplug_scan fields
hotplug_scan ((name, some on) ∷ fields) =
    let (_, enabled) = hotplug_scan fields in (true, if on then name ∷ enabled else enabled)

abbrev hotplug_text : Bool × List Text → Text
hotplug_text (was_set, enabled) =
    if was_set then (if is_empty enabled then codes "0" else join enabled comma) else []

unfoldable pub build_hotplug_value : HotplugOptions → Text
unfolding hotplug_scan
build_hotplug_value o = hotplug_text (hotplug_scan (hotplug_fields o))

unfoldable pub build_smbios_value : SmbiosOptions → Text
build_smbios_value o =
    join
      (bool_part (codes "base64=") o.values_are_base64
        ++ (text_part (codes "uuid=") o.uuid
            ++ (text_part (codes "manufacturer=") o.manufacturer
                ++ (text_part (codes "product=") o.product
                    ++ (text_part (codes "version=") o.version
                        ++ (text_part (codes "serial=") o.serial
                            ++ (text_part (codes "sku=") o.sku
                                ++ text_part (codes "family=") o.family)))))))
      comma

unfoldable pub build_spice_enhancements_value : SpiceEnhancementsOptions → Text
build_spice_enhancements_value o =
    join
      (bool_part (codes "foldersharing=") o.folder_sharing
        ++ text_part (codes "videostreaming=") o.video_streaming)
      comma
