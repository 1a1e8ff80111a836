-- ===== src/Proxmox/Options/Build.antt =====
-- internal/backend/proxmox/options.go: `BuildOptionsValues`.
use ubuntu_vm_template_build.Base.{
  Bool, List, [], Option, none, some, codes, if◌then◌else◌, is_empty,
}
use ubuntu_vm_template_build.Text.{Text, join}
use ubuntu_vm_template_build.Proxmox.Options.{OptionsConfig, OptionsError, normalize, validate}
use ubuntu_vm_template_build.Proxmox.Options.Parts.{
  bool_string, build_startup_value, build_agent_value, build_hotplug_value, build_smbios_value,
  build_spice_enhancements_value,
}
use ubuntu_vm_template_build.Proxmox.Values.{Values, set, set_text}

-- `setBoolValue`
unfoldable pub set_bool_value : Text → Option Bool → Values → Values
set_bool_value key none values = values
set_bool_value key (some b) values = set key (bool_string b) values

pub data Built : Type 0 where
  built : Values → Built
  refused : OptionsError → Built

-- `if len(options.Tags) > 0 { values.Set("tags", strings.Join(options.Tags, ";")) }`
unfoldable pub set_joined : Text → List Text → Text → Values → Values
set_joined key parts sep values = if is_empty parts then values else set key (join parts sep) values

-- The values of normal options, set in the order of the code.
unfoldable pub options_values : OptionsConfig → Values
options_values o = set_text (codes "description") o.description (
    set_joined (codes "tags") o.tags (codes ";") (
      set_text (codes "vmstatestorage") o.vm_state_storage (
        set_text (codes "spice_enhancements") (build_spice_enhancements_value o.spice_enhancements)
          (set_text (codes "smbios1") (build_smbios_value o.smbios) (
            set_text (codes "hotplug") (build_hotplug_value o.hotplug) (
              set_text (codes "startdate") o.rtc_start_date (
                set_bool_value (codes "localtime") o.local_time (
                  set_bool_value (codes "freeze") o.freeze_cpu_at_startup (
                    set_bool_value (codes "kvm") o.kvm (
                      set_bool_value (codes "acpi") o.acpi (
                        set_bool_value (codes "tablet") o.tablet (
                          set_bool_value (codes "protection") o.protection (
                            set_text (codes "agent") (build_agent_value o.qemu_guest_agent) (
                              set_text (codes "startup") (build_startup_value o.startup)
                                (set_bool_value (codes "onboot") o.start_at_boot [])))))))))))))))

abbrev pub built_unless : Option OptionsError → Values → Built
built_unless none values = built values
built_unless (some e) values = refused e

unfoldable pub build_options_values : OptionsConfig → Built
build_options_values c =
    let options = normalize c in built_unless (validate options) (options_values options)
