-- ===== src/Proxmox/Options/Sent.antt =====
-- internal/backend/proxmox/options.go: what the request for the VM options holds.
use ubuntu_vm_template_build.Base.{
  ◌≡◌, refl, sym, ap, map, ◌∙◌, Bool, List, [], ◌∷◌, Option, none, some, codes,
}
use ubuntu_vm_template_build.Text.{Text, trim_space, equal, is_among}
use ubuntu_vm_template_build.Text.Trim.{trim_space_idem, fold_space_idem}
use ubuntu_vm_template_build.Proxmox.Values.{Values}
use ubuntu_vm_template_build.Proxmox.Values.Rows.{
  Rows, non_empty, joined, set_row, set_rows, Holds, set_text-set_row, set_rows-Holds,
}
use ubuntu_vm_template_build.Proxmox.Options.{
  OptionsConfig, OptionsError, normalize, validate, check_options,
}
use ubuntu_vm_template_build.Proxmox.Options.Parts.{
  bool_string, build_startup_value, build_agent_value, build_hotplug_value, build_smbios_value,
  build_spice_enhancements_value,
}
use ubuntu_vm_template_build.Proxmox.Options.Build.{
  set_bool_value, set_joined, options_values, built, built_unless, build_options_values,
}

abbrev pub bool_of : Option Bool → Option Text
bool_of none = none
bool_of (some b) = some (bool_string b)

-- What is to be sent for normal options.
abbrev pub option_rows : OptionsConfig → Rows
option_rows o =
    (codes "description", non_empty o.description)
    ∷ (codes "tags", joined o.tags (codes ";"))
    ∷ (codes "vmstatestorage", non_empty o.vm_state_storage)
    ∷ (codes "spice_enhancements", non_empty (build_spice_enhancements_value o.spice_enhancements))
    ∷ (codes "smbios1", non_empty (build_smbios_value o.smbios))
    ∷ (codes "hotplug", non_empty (build_hotplug_value o.hotplug))
    ∷ (codes "startdate", non_empty o.rtc_start_date)
    ∷ (codes "localtime", bool_of o.local_time)
    ∷ (codes "freeze", bool_of o.freeze_cpu_at_startup)
    ∷ (codes "kvm", bool_of o.kvm)
    ∷ (codes "acpi", bool_of o.acpi)
    ∷ (codes "tablet", bool_of o.tablet)
    ∷ (codes "protection", bool_of o.protection)
    ∷ (codes "agent", non_empty (build_agent_value o.qemu_guest_agent))
    ∷ (codes "startup", non_empty (build_startup_value o.startup))
    ∷ (codes "onboot", bool_of o.start_at_boot)
    ∷ []

pub set_joined-set_row :
    (key : Text) (parts : List Text) (sep : Text) (values : Values)
    → set_joined key parts sep values ≡ set_row key (joined parts sep) values
unfolding set_joined
set_joined-set_row key [] sep values = refl
set_joined-set_row key (p ∷ parts) sep values = refl

pub set_bool_value-set_row :
    (key : Text) (b : Option Bool) (values : Values)
    → set_bool_value key b values ≡ set_row key (bool_of b) values
unfolding set_bool_value
set_bool_value-set_row key none values = refl
set_bool_value-set_row key (some b) values = refl

options_values-set_rows : (o : OptionsConfig) → options_values o ≡ set_rows (option_rows o)
unfolding options_values
options_values-set_rows o = simp (set_joined-set_row, set_bool_value-set_row, set_text-set_row)

options_values-Holds : (o : OptionsConfig) → Holds (option_rows o) (options_values o)
unfolding is_among equal
options_values-Holds o = rw (options_values-set_rows o) (set_rows-Holds (option_rows o) refl)

built_unless_lem :
    (e : Option OptionsError) (values sent : Values)
    → built_unless e values ≡ built sent
    → (e ≡ none) × (values ≡ sent)
built_unless_lem none values sent h = (refl, cc)
built_unless_lem (some e) values sent h = cc

pub map-trim_space_idem : (ts : List Text) → map trim_space (map trim_space ts) ≡ map trim_space ts
map-trim_space_idem [] = refl
map-trim_space_idem (t ∷ ts) = rw (trim_space_idem t, map-trim_space_idem ts) refl

normalize_idem : (c : OptionsConfig) → normalize (normalize c) ≡ normalize c
unfolding normalize
normalize_idem c = simp (trim_space_idem, fold_space_idem, map-trim_space_idem)

-- Options that are built are accepted options, and the request holds exactly, for each option that
-- is set, its key with its value, where no key takes another's place.
pub build_options_values-Holds :
    (c : OptionsConfig) (values : Values)
    → build_options_values c ≡ built values
    → (validate c ≡ none) × Holds (option_rows (normalize c)) values
unfolding build_options_values validate
build_options_values-Holds c values h =
    let (valid, same) =
      built_unless_lem (validate (normalize c)) (options_values (normalize c)) values h in
    (
      ap check_options (sym (normalize_idem c)) ∙ valid,
      rw (sym same) (options_values-Holds (normalize c)),
    )
