-- ===== src/Proxmox/Options.antt =====
-- internal/backend/proxmox/options.go: the VM options, their normal form, the texts that the API is
-- sent for them. A `*bool` or `*int` is an option; an error is the constructor that names it.
pub mod Parts
pub mod Build
pub mod Sent
pub mod Tags
use ubuntu_vm_template_build.Base.{
  ℕ, ℤ, Bool, true, false, not, ◌&&◌, ◌||◌, List, [], ◌∷◌, ◌++◌, map, Option, none, some,
  if◌then◌else◌, is_empty, is_negative, codes,
}
use ubuntu_vm_template_build.Text.{Text, trim_space, fold_space, is_among, contains_any}

pub record StartupOptions : Type 0 where
  pub order : Option ℤ
  pub up_delay_seconds : Option ℤ
  pub down_delay_seconds : Option ℤ

pub record QemuGuestAgentOptions : Type 0 where
  pub enabled : Option Bool
  pub freeze_fs_on_backup : Option Bool
  pub fstrim_cloned_disks : Option Bool
  pub type : Text

pub record HotplugOptions : Type 0 where
  pub network : Option Bool
  pub disk : Option Bool
  pub usb : Option Bool
  pub memory : Option Bool
  pub cpu : Option Bool
  pub cloudinit : Option Bool

pub record SmbiosOptions : Type 0 where
  pub values_are_base64 : Option Bool
  pub uuid : Text
  pub manufacturer : Text
  pub product : Text
  pub version : Text
  pub serial : Text
  pub sku : Text
  pub family : Text

pub record SpiceEnhancementsOptions : Type 0 where
  pub folder_sharing : Option Bool
  pub video_streaming : Text

pub record OptionsConfig : Type 0 where
  pub enabled : Bool
  pub start_at_boot : Option Bool
  pub startup : StartupOptions
  pub qemu_guest_agent : QemuGuestAgentOptions
  pub protection : Option Bool
  pub tablet : Option Bool
  pub acpi : Option Bool
  pub kvm : Option Bool
  pub freeze_cpu_at_startup : Option Bool
  pub local_time : Option Bool
  pub rtc_start_date : Text
  pub hotplug : HotplugOptions
  pub smbios : SmbiosOptions
  pub spice_enhancements : SpiceEnhancementsOptions
  pub vm_state_storage : Text
  pub tags : List Text
  pub description : Text

unfoldable pub normalize : OptionsConfig → OptionsConfig
normalize c = record c {
  qemu_guest_agent = record c.qemu_guest_agent { type = fold_space c.qemu_guest_agent.type };
  rtc_start_date = trim_space c.rtc_start_date;
  smbios = record c.smbios {
    uuid = trim_space c.smbios.uuid;
    manufacturer = trim_space c.smbios.manufacturer;
    product = trim_space c.smbios.product;
    version = trim_space c.smbios.version;
    serial = trim_space c.smbios.serial;
    sku = trim_space c.smbios.sku;
    family = trim_space c.smbios.family;
  };
  spice_enhancements = record c.spice_enhancements {
    video_streaming = fold_space c.spice_enhancements.video_streaming;
  };
  vm_state_storage = trim_space c.vm_state_storage;
  tags = map trim_space c.tags;
}

pub data OptionsError : Type 0 where
  bad_order bad_up_delay bad_down_delay bad_agent_type bad_video_streaming : OptionsError
  empty_tag bad_tag : OptionsError

-- `value != nil && *value < 0`
abbrev pub is_set_negative : Option ℤ → Bool
is_set_negative none = false
is_set_negative (some i) = is_negative i

-- `value != "" && !isOneOf(value, allowed...)`
unfoldable pub is_other_than : Text → List Text → Bool
is_other_than value allowed = not (is_empty value) && not (is_among value allowed)

unfoldable pub check_tags : List Text → Option OptionsError
check_tags [] = none
check_tags (tag ∷ tags) =
    if is_empty tag
    then some empty_tag
    else if contains_any tag (codes ",;")
    then some bad_tag
    else check_tags tags

-- `Validate` behind its call of `Normalize`; `none` is nil.
unfoldable pub check_options : OptionsConfig → Option OptionsError
check_options c =
    if is_set_negative c.startup.order
    then some bad_order
    else if is_set_negative c.startup.up_delay_seconds
    then some bad_up_delay
    else if is_set_negative c.startup.down_delay_seconds
    then some bad_down_delay
    else if is_other_than c.qemu_guest_agent.type (codes "virtio" ∷ codes "isa" ∷ [])
    then some bad_agent_type
    else if is_other_than c.spice_enhancements.video_streaming
        (codes "off" ∷ codes "all" ∷ codes "filter" ∷ [])
    then some bad_video_streaming
    else check_tags c.tags

unfoldable pub validate : OptionsConfig → Option OptionsError
validate c = check_options (normalize c)
