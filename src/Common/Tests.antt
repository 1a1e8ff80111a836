-- ===== src/Common/Tests.antt =====
-- internal/common: runs on small inputs, and the theorems at inputs that meet their hypotheses.
use ubuntu_vm_template_build.Base.{
  ℕ, ◌*◌, ◌^◌, ◌≡◌, ◌≢◌, ◌≤◌, refl, inl, inr, true, some, codes, ◌∷◌, [], ◌++◌, if◌then◌else◌, leb,
}
use ubuntu_vm_template_build.Text.{
  Text, trim_space, trim_by, trim_left_by, trim_right_by, is_space, to_upper, upper, to_lower,
  lower, equal, is_among, replace_all, fields, fields_from, join,
}
use ubuntu_vm_template_build.Common.DiskSize.{
  max_int64, parse_disk_size, leading_digits, matches_unit, parse_int64, unit_of, trim_suffix,
  unit_multiplier, decimal, ok, err, invalid, out_of_range, unsupported_unit, overflows,
}
use ubuntu_vm_template_build.Common.DiskSize.Sound.{AllDigits, parse_disk_size_sound}
use ubuntu_vm_template_build.Common.DiskSize.Complete.{kilo, factor, parse_disk_size_complete}
use ubuntu_vm_template_build.Common.Names.{safe_name, clean_name, is_safe_rune, safe_rune, is_edge}
use ubuntu_vm_template_build.Common.Names.Laws.{IsSafeName, safe_name-IsSafeName, safe_name_fixed}
use ubuntu_vm_template_build.Common.Hardware.{
  HardwareConfig, default_hardware_config, normalize, normalize_boot_firmware, underscored,
  provisioning_name, normalize_vcenter_disk_provisioning, normalize_vcenter_output_type,
  normalize_proxmox_output_type,
}
use ubuntu_vm_template_build.Common.Hardware.Validate.{
  validate, is_one_of, validate_boot_firmware, matches_vmx, bad_io_thread, no_disk_size,
}
use ubuntu_vm_template_build.Common.Hardware.Normal.{validate-normalize}

sizes :
    (parse_disk_size (codes " 20G ") ≡ ok (20 * 2 ^ 30))
    × (parse_disk_size (codes "5mib") ≡ ok (5 * 2 ^ 20))
    × (parse_disk_size (codes "10ki") ≡ err unsupported_unit)
    × (parse_disk_size (codes "1" ++ (0x212a ∷ [])) ≡ err unsupported_unit)
    × (parse_disk_size (codes "1.5G") ≡ err invalid)
    × (parse_disk_size (codes "8388608T") ≡ err overflows)
    × (parse_disk_size (codes "9223372036854775808") ≡ err out_of_range)
unfolding parse_disk_size leading_digits matches_unit parse_int64 unit_of trim_suffix to_upper upper
    unit_multiplier trim_space trim_by trim_left_by trim_right_by is_space
sizes = (refl, refl, refl, refl, refl, refl, refl)

parse_disk_size_sound_example :
    (ds letters : Text) × (mult : ℕ) × (trim_space (codes "5mib") ≡ ds ++ letters)
    × (ds ≢ [])
    × AllDigits ds
    × (matches_unit letters ≡ true)
    × (unit_multiplier (unit_of letters) ≡ some mult)
    × (5 * 2 ^ 20 ≡ decimal 0 ds * mult)
    × (5 * 2 ^ 20 ≤ max_int64)
parse_disk_size_sound_example = parse_disk_size_sound (codes "5mib") (5 * 2 ^ 20) sizes.1

parse_disk_size_complete_example : parse_disk_size (codes "12" ++ codes "KiB") ≡ (
    if leb (decimal 0 (codes "12") * factor kilo) max_int64
    then ok (decimal 0 (codes "12") * factor kilo)
    else if leb (decimal 0 (codes "12")) max_int64
    then err overflows
    else err out_of_range)
unfolding to_upper upper
parse_disk_size_complete_example =
    parse_disk_size_complete kilo (codes "12") (codes "KiB") (cc) (refl, (refl, tt))
      (inr (inr (inl refl)))

names :
    (safe_name (codes " -Ubuntu 24.04_ ") ≡ codes "Ubuntu-24.04")
    × (safe_name (codes " . ") ≡ codes "ubuntu-vm-template-builder")
unfolding safe_name clean_name safe_rune is_edge trim_space trim_by trim_left_by trim_right_by
    is_space
names = (refl, refl)

safe_name-IsSafeName_example : IsSafeName (safe_name (codes "a/b "))
safe_name-IsSafeName_example = safe_name-IsSafeName (codes "a/b ")

safe_name_fixed_example : safe_name (codes "v1.0") ≡ codes "v1.0"
unfolding is_safe_rune is_edge
safe_name_fixed_example = safe_name_fixed (codes "v1.0") (record {
  some_text = cc;
  safe_runes = (refl, (refl, (refl, (refl, tt))));
  starts = refl;
  ends = refl;
})

abbrev usable : HardwareConfig
usable = record default_hardware_config { disk_size = codes "20G" }

abbrev threaded : HardwareConfig
threaded = record usable {
  proxmox = record default_hardware_config.proxmox { disk_io_thread = true };
}

refused :
    (validate default_hardware_config ≡ some no_disk_size)
    × (validate threaded ≡ some bad_io_thread)
unfolding default_hardware_config validate is_one_of validate_boot_firmware matches_vmx is_among
    equal normalize normalize_boot_firmware underscored provisioning_name
    normalize_vcenter_disk_provisioning normalize_vcenter_output_type normalize_proxmox_output_type
    replace_all fields fields_from join parse_disk_size leading_digits matches_unit parse_int64
    unit_of trim_suffix to_upper upper unit_multiplier trim_space trim_by trim_left_by trim_right_by
    is_space to_lower lower
refused = (refl, refl)

validate-normalize_example :
    (normalize (normalize threaded) ≡ normalize threaded)
    × (validate (normalize threaded) ≡ validate threaded)
validate-normalize_example = validate-normalize threaded
