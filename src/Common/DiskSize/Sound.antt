-- ===== src/Common/DiskSize/Sound.antt =====
-- internal/common/common.go: what an accepted size is, and what it stands for.
use ubuntu_vm_template_build.Base.{
  ℕ, ◌*◌, ◌/◌, ◌≤◌, ◌≡◌, ◌≢◌, refl, ap, inl, inr, true, false, not, ◌||◌, [], ◌∷◌, ◌++◌, Option,
  none, some, arith, ltb, leb, if◌then◌else◌, is_empty, Bool-cases, All,
}
use native.Mathlib.Nat.{div-add-mod}
use ubuntu_vm_template_build.Text.{Text, trim_space}
use ubuntu_vm_template_build.Text.Trim.{StartsOutside}
use ubuntu_vm_template_build.Common.DiskSize.{
  max_int64, invalid, ok, err, is_digit, leading_digits, matches_unit, unit_multiplier, decimal,
  parse_int64, scaled, unit_of, with_value, parse_disk_size,
}

abbrev pub AllDigits : Text → Type 0
AllDigits ds = All (λ c. is_digit c ≡ true) ds

leading_digits_lem :
    (s : Text) → (s ≡ (leading_digits s).0 ++ (leading_digits s).1) × AllDigits (leading_digits s).0
unfolding leading_digits
leading_digits_lem [] = (refl, tt)
leading_digits_lem (c ∷ s) =
    let (whole, digits) = leading_digits_lem s in
    elim (Bool-cases (is_digit c)) [
      | inl digit ↦ rw digit (ap (◌∷◌ c) whole, (digit, digits))
      | inr other ↦ rw other (refl, tt)
    ]

pub leading_digits-append :
    (ds rest : Text)
    → AllDigits ds
    → StartsOutside is_digit rest
    → leading_digits (ds ++ rest) ≡ (ds, rest)
unfolding leading_digits
leading_digits-append [] [] _ _ = refl
leading_digits-append [] (c ∷ rest) _ h = rw h
leading_digits-append (d ∷ ds) rest (digit, digits) h =
    rw (digit, leading_digits-append ds rest digits h)

mul-le_of_div : (v m k : ℕ) → ltb (m / k) v ≡ false → v * k ≤ m
mul-le_of_div v m k h = let low : v ≤ m / k = ground arith in grind (arith, div-add-mod m k)

scaled_ok :
    (value : ℕ) (m : Option ℕ) (n : ℕ)
    → scaled value m ≡ ok n
    → (mult : ℕ) × (m ≡ some mult) × (n ≡ value * mult) × (n ≤ max_int64)
scaled_ok value none n h = cc
scaled_ok value (some mult) n h = elim (Bool-cases (ltb (max_int64 / mult) value)) [
  | inl over ↦ cc (rw over at h)
  | inr fits ↦
      let exact : n ≡ value * mult = cc (rw fits at h) in
      (mult, refl, exact, rw exact (mul-le_of_div value max_int64 mult fits))
]

with_value_ok :
    (ds letters : Text) (n : ℕ)
    → with_value (parse_int64 ds) letters ≡ ok n
    → (mult : ℕ) × (unit_multiplier (unit_of letters) ≡ some mult)
      × (n ≡ decimal 0 ds * mult)
      × (n ≤ max_int64)
unfolding parse_int64
with_value_ok ds letters n h = elim (Bool-cases (leb (decimal 0 ds) max_int64)) [
  | inl small ↦ scaled_ok (decimal 0 ds) (unit_multiplier (unit_of letters)) n (rw small at h)
  | inr large ↦ cc (rw large at h)
]

accepted :
    (ds letters : Text) (n : ℕ)
    → (if is_empty ds || not (matches_unit letters)
        then err invalid
        else with_value (parse_int64 ds) letters)
      ≡ ok n
    → (ds ≢ []) × (matches_unit letters ≡ true) × (with_value (parse_int64 ds) letters ≡ ok n)
accepted [] letters n h = cc
accepted (d ∷ ds) letters n h = elim (Bool-cases (matches_unit letters)) [
  | inr refused ↦ cc (rw refused at h)
  | inl unit ↦ ((cc), unit, rw unit at h)
]

-- An accepted size is, without the spaces round it, one or more digits and the letters of a unit;
-- the result is their number times the unit's, and neither the number nor the product wraps round.
pub parse_disk_size_sound :
    (size : Text) (n : ℕ)
    → parse_disk_size size ≡ ok n
    → (ds letters : Text) × (mult : ℕ) × (trim_space size ≡ ds ++ letters)
      × (ds ≢ [])
      × AllDigits ds
      × (matches_unit letters ≡ true)
      × (unit_multiplier (unit_of letters) ≡ some mult)
      × (n ≡ decimal 0 ds * mult)
      × (n ≤ max_int64)
unfolding parse_disk_size
parse_disk_size_sound size n h =
    let (whole, digits) = leading_digits_lem (trim_space size) in
    let (ne, unit, valued) = accepted _ _ n h in
    let (mult, known, exact, fits) = with_value_ok _ _ n valued in
    (_, _, mult, whole, ne, digits, unit, known, exact, fits)
