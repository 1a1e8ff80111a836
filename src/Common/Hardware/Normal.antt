-- ===== src/Common/Hardware/Normal.antt =====
-- internal/common/common.go: a normalized configuration is normal.
use ubuntu_vm_template_build.Base.{
  ℕ, ◌≡◌, refl, ap, ◌∙◌, inl, inr, false, [], ◌∷◌, arith, ◌⊎◌, ◌==◌, is_empty, Bool-cases, All,
  codes,
}
use ubuntu_vm_template_build.Text.{
  Text, trim_space, to_lower, lower, is_space, fold_space, equal, trim_by, trim_left_by,
  trim_right_by, fields_from, replace_all, join, fields,
}
use ubuntu_vm_template_build.Text.Trim.{
  trim_space_idem, fold_space_idem, trim_space_solid, lower_idem,
}
use ubuntu_vm_template_build.Text.Search.{
  to_lower_fixed, replace_all-All, replace_all_fixed, join-All, fields-All, join-fields,
}
use ubuntu_vm_template_build.Common.Hardware.Validate.{first_failure, checks, validate}
use ubuntu_vm_template_build.Common.Hardware.{
  HardwareConfig, or_default, normalize_boot_firmware, underscored, provisioning_name,
  normalize_vcenter_disk_provisioning, normalize_vcenter_output_type, normalize_proxmox_output_type,
  normalize,
}

-- A character of a word in lower case with underscores.
abbrev IsWordRune : ℕ → Type 0
IsWordRune c = (lower c ≡ c) × (is_space c ≡ false) × ((c == b'-') ≡ false)

to_lower-All : (s : Text) → All (λ c. lower c ≡ c) (to_lower s)
unfolding to_lower
to_lower-All [] = tt
to_lower-All (c ∷ s) = (lower_idem c, to_lower-All s)

All-map : (P Q : ℕ → Type 0) → ((c : ℕ) → P c → Q c) → (s : Text) → All P s → All Q s
All-map P Q f [] _ = tt
All-map P Q f (c ∷ s) (h, hs) = (f c h, All-map P Q f s hs)

underscored-All : (value : Text) → All IsWordRune (underscored value)
unfolding underscored lower is_space
underscored-All value =
    let lowered = to_lower-All (trim_space value) in
    let spaced : All (λ c. is_space c ≡ false → IsWordRune c)
        (replace_all (fold_space value) b'-' (codes "_")) =
      replace_all-All (λ c. is_space c ≡ false → IsWordRune c) (fold_space value) (codes "_") b'-'
        ((λ _. (refl, refl, refl)), tt)
        (All-map (λ c. lower c ≡ c) _ (λ c h e s. (h, s, e)) _ lowered) in
    join-All IsWordRune (fields (replace_all (fold_space value) b'-' (codes "_"))) (codes "_")
      ((refl, refl, refl), tt) (fields-All IsWordRune _ spaced)

underscored_fixed : (s : Text) → All IsWordRune s → underscored s ≡ s
unfolding underscored
underscored_fixed s h =
    rw
      (
        trim_space_solid s (All-map IsWordRune _ (λ c k. k.1) s h),
        to_lower_fixed s (All-map IsWordRune _ (λ c k. k.0) s h),
        replace_all_fixed s (codes "_") b'-' (All-map IsWordRune _ (λ c k. k.2) s h),
      )
      (join-fields s (codes "_") (All-map IsWordRune _ (λ c k. k.1) s h))

underscored_idem : (value : Text) → underscored (underscored value) ≡ underscored value
underscored_idem value = underscored_fixed _ (underscored-All value)

-- A default for the empty text keeps a normal form normal.
or_default_idem :
    (f : Text → Text) (d : Text)
    → ((v : Text) → f (f v) ≡ f v)
    → f d ≡ d
    → (v : Text) → or_default (f (or_default (f v) d)) d ≡ or_default (f v) d
or_default_idem f d idem fixed v = elim (Bool-cases (is_empty (f v))) [
  | inl blank ↦ rw (blank, fixed) (ground arith)
  | inr text ↦ rw (text, idem v, text)
]

-- The names that the code normalizes to are normal.
fold_space_uefi : fold_space (codes "uefi") ≡ codes "uefi"
unfolding trim_space trim_by trim_left_by trim_right_by is_space to_lower lower
fold_space_uefi = refl

underscored_template : underscored (codes "template") ≡ codes "template"
unfolding underscored trim_space trim_by trim_left_by trim_right_by is_space to_lower lower
    replace_all fields fields_from join
underscored_template = refl

abbrev lazy_zeroed : Text
lazy_zeroed = codes "thick_provision_lazy_zeroed"

abbrev eager_zeroed : Text
eager_zeroed = codes "thick_provision_eager_zeroed"

normal_provisioning :
    (normalize_vcenter_disk_provisioning lazy_zeroed ≡ lazy_zeroed)
    × (normalize_vcenter_disk_provisioning eager_zeroed ≡ eager_zeroed)
unfolding underscored trim_space trim_by trim_left_by trim_right_by is_space to_lower lower
    replace_all fields fields_from join normalize_vcenter_disk_provisioning provisioning_name equal
normal_provisioning = (refl, refl)

normalize_boot_firmware_idem :
    (v : Text) → normalize_boot_firmware (normalize_boot_firmware v) ≡ normalize_boot_firmware v
unfolding normalize_boot_firmware
normalize_boot_firmware_idem v =
    or_default_idem (λ t. fold_space t) (codes "uefi") fold_space_idem fold_space_uefi v

normalize_vcenter_output_type_idem :
    (v : Text)
    → normalize_vcenter_output_type (normalize_vcenter_output_type v)
      ≡ normalize_vcenter_output_type v
unfolding normalize_vcenter_output_type
normalize_vcenter_output_type_idem v =
    or_default_idem underscored (codes "template") underscored_idem underscored_template v

normalize_proxmox_output_type_idem :
    (v : Text)
    → normalize_proxmox_output_type (normalize_proxmox_output_type v)
      ≡ normalize_proxmox_output_type v
unfolding normalize_proxmox_output_type
normalize_proxmox_output_type_idem v =
    or_default_idem underscored (codes "template") underscored_idem underscored_template v

provisioning_name-cases :
    (v : Text)
    → (provisioning_name v ≡ lazy_zeroed)
      ⊎ (provisioning_name v ≡ eager_zeroed)
      ⊎ (provisioning_name v ≡ v)
unfolding provisioning_name
provisioning_name-cases v = ground arith

normalize_vcenter_disk_provisioning_of :
    (v w : Text) → provisioning_name (underscored v) ≡ w → normalize_vcenter_disk_provisioning v ≡ w
unfolding normalize_vcenter_disk_provisioning
normalize_vcenter_disk_provisioning_of v w h = h

normalize_vcenter_disk_provisioning_idem :
    (v : Text)
    → normalize_vcenter_disk_provisioning (normalize_vcenter_disk_provisioning v)
      ≡ normalize_vcenter_disk_provisioning v
normalize_vcenter_disk_provisioning_idem v = elim (provisioning_name-cases (underscored v)) [
  | inl lazy ↦ rw (normalize_vcenter_disk_provisioning_of v _ lazy) normal_provisioning.0
  | inr (inl eager) ↦ rw (normalize_vcenter_disk_provisioning_of v _ eager) normal_provisioning.1
  | inr (inr same) ↦
      (unfold normalize_vcenter_disk_provisioning in
        ap (λ t. provisioning_name (underscored t)) same
        ∙ ap provisioning_name (underscored_idem v))
]

pub normalize_idem : (c : HardwareConfig) → normalize (normalize c) ≡ normalize c
unfolding normalize
normalize_idem c = simp (
  trim_space_idem, fold_space_idem, normalize_boot_firmware_idem,
  normalize_vcenter_disk_provisioning_idem, normalize_vcenter_output_type_idem,
  normalize_proxmox_output_type_idem,
)

-- `Normalize` twice is `Normalize` once, and `Validate` says of a configuration what it says of its
-- normal form.
pub validate-normalize :
    (c : HardwareConfig)
    → (normalize (normalize c) ≡ normalize c) × (validate (normalize c) ≡ validate c)
unfolding validate
validate-normalize c = (normalize_idem c, ap (λ n. first_failure (checks n)) (normalize_idem c))

fold_space-underscored : (v : Text) → fold_space (underscored v) ≡ underscored v
fold_space-underscored v =
    let runes = underscored-All v in
    rw (trim_space_solid _ (All-map IsWordRune _ (λ c k. k.1) _ runes))
      (to_lower_fixed _ (All-map IsWordRune _ (λ c k. k.0) _ runes))

fold_space_template : fold_space (codes "template") ≡ codes "template"
unfolding trim_space trim_by trim_left_by trim_right_by is_space to_lower lower
fold_space_template = refl

fold_space-or_default :
    (v : Text)
    → fold_space (or_default (underscored v) (codes "template"))
      ≡ or_default (underscored v) (codes "template")
fold_space-or_default v = elim (Bool-cases (is_empty (underscored v))) [
  | inl blank ↦ rw blank fold_space_template
  | inr text ↦ rw text (fold_space-underscored v)
]

-- Output types in their normal form are folded.
pub fold_space_output_types :
    (v : Text)
    → (normalize_vcenter_output_type v ≡ v → fold_space v ≡ v)
      × (normalize_proxmox_output_type v ≡ v → fold_space v ≡ v)
unfolding normalize_vcenter_output_type normalize_proxmox_output_type
fold_space_output_types v =
    ((λ e. rw e at (fold_space-or_default v)), (λ e. rw e at (fold_space-or_default v)))
