-- ===== src/Proxmox/Tests.antt =====
-- internal/backend/proxmox: runs of the code, and the theorems at concrete inputs.
use ubuntu_vm_template_build.Base.{
  ℕ, pos, ◌+◌, ◌*◌, ◌≤◌, ◌≡◌, ◌↔◌, refl, true, false, [], ◌∷◌, none, some, codes, ◌<◌, map,
}
use ubuntu_vm_template_build.Text.{
  Text, trim_space, split, is_space, trim_left_by, trim_right_by, trim_by, lower, to_lower, equal,
  is_among, join, mem_char, contains_any, upper, to_upper,
}
use ubuntu_vm_template_build.Decimal.{itoa, digits, digits_onto}
use ubuntu_vm_template_build.Common.DiskSize.{
  ok, parse_disk_size, max_int64, leading_digits, matches_unit, is_multiple_letter, skip_one_of,
  trim_suffix, unit_multiplier, unit_of, parse_int64,
}
use ubuntu_vm_template_build.Common.Hardware.{default_hardware_config}
use ubuntu_vm_template_build.Proxmox.Values.{Values, get, set, set_text}
use ubuntu_vm_template_build.Proxmox.Values.Rows.{Holds}
use ubuntu_vm_template_build.Proxmox.Disk.{
  gib, allocated, allocation_gib, allocation_bytes, rounded_up, efi_disk_bytes,
}
use ubuntu_vm_template_build.Proxmox.Disk.Bounds.{
  IsAllocationFor, allocation_bytes-IsAllocationFor, efi_disk_bytes-allocation_bytes,
}
use ubuntu_vm_template_build.Proxmox.Options.{
  OptionsConfig, normalize, validate, check_options, check_tags, is_other_than,
}
use ubuntu_vm_template_build.Proxmox.Options.Parts.{
  build_startup_value, build_agent_value, build_hotplug_value, hotplug_scan, build_smbios_value,
  build_spice_enhancements_value,
}
use ubuntu_vm_template_build.Proxmox.Options.Build.{
  built, build_options_values, options_values, set_bool_value, set_joined,
}
use ubuntu_vm_template_build.Proxmox.Options.Sent.{option_rows, build_options_values-Holds}
use ubuntu_vm_template_build.Proxmox.Options.Tags.{build_options_values-tags}

allocation_of_10g : allocation_bytes (codes "10G") ≡ allocated (10 * gib)
unfolding allocation_bytes allocation_gib rounded_up parse_disk_size leading_digits matches_unit
    is_multiple_letter skip_one_of trim_suffix unit_multiplier unit_of parse_int64 trim_space
    trim_by trim_left_by trim_right_by is_space upper to_upper equal
allocation_of_10g = refl

allocation_bytes-IsAllocationFor_example :
    (allocation_bytes (codes "10G") ≡ allocated (10 * gib)) ↔ (
      (bytes : ℕ) × (parse_disk_size (codes "10G") ≡ ok bytes)
      × (0 < bytes)
      × IsAllocationFor bytes (10 * gib))
allocation_bytes-IsAllocationFor_example = allocation_bytes-IsAllocationFor (codes "10G") (10 * gib)

efi_disk_bytes-allocation_bytes_example :
    10 * gib + efi_disk_bytes default_hardware_config ≤ max_int64
efi_disk_bytes-allocation_bytes_example =
    efi_disk_bytes-allocation_bytes (codes "10G") (10 * gib) default_hardware_config
      allocation_of_10g

abbrev options : OptionsConfig
options = record {
  enabled = true;
  start_at_boot = some true;
  startup = record {
    order = some (pos 2);
    up_delay_seconds = none;
    down_delay_seconds = some (pos 30);
  };
  qemu_guest_agent = record {
    enabled = some true;
    freeze_fs_on_backup = none;
    fstrim_cloned_disks = none;
    type = codes " VirtIO";
  };
  protection = none;
  tablet = some false;
  acpi = none;
  kvm = none;
  freeze_cpu_at_startup = none;
  local_time = none;
  rtc_start_date = [];
  hotplug = record {
    network = some false;
    disk = none;
    usb = none;
    memory = none;
    cpu = none;
    cloudinit = none;
  };
  smbios = record {
    values_are_base64 = none;
    uuid = [];
    manufacturer = [];
    product = [];
    version = [];
    serial = [];
    sku = [];
    family = [];
  };
  spice_enhancements = record { folder_sharing = none; video_streaming = [] };
  vm_state_storage = [];
  tags = codes "linux" ∷ codes " base " ∷ [];
  description = [];
}

abbrev sent_options : Values
sent_options =
    (codes "onboot", codes "1")
    ∷ (codes "startup", codes "order=2,down=30")
    ∷ (codes "agent", codes "enabled=1,type=virtio")
    ∷ (codes "tablet", codes "0")
    ∷ (codes "hotplug", codes "0")
    ∷ (codes "tags", codes "linux;base")
    ∷ []

options_are_built : build_options_values options ≡ built sent_options
unfolding build_options_values options_values validate normalize check_options check_tags
    is_other_than set set_text set_bool_value set_joined build_startup_value build_agent_value
    build_hotplug_value hotplug_scan build_smbios_value build_spice_enhancements_value trim_space
    trim_by trim_left_by trim_right_by is_space lower to_lower equal is_among join mem_char
    contains_any itoa digits digits_onto
options_are_built = refl

build_options_values-Holds_example :
    (validate options ≡ none) × Holds (option_rows (normalize options)) sent_options
build_options_values-Holds_example =
    build_options_values-Holds options sent_options options_are_built

build_options_values-tags_example :
    (sent : Text) × (get (codes "tags") sent_options ≡ some sent)
    × (split sent b';' ≡ map trim_space (codes "linux" ∷ codes " base " ∷ []))
build_options_values-tags_example =
    build_options_values-tags options sent_options (cc) options_are_built
