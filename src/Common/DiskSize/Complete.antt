-- ===== src/Common/DiskSize/Complete.antt =====
-- internal/common/common.go: what `ParseDiskSize` says of digits and a unit.
use ubuntu_vm_template_build.Base.{
  ℕ, ◌*◌, ◌^◌, ◌≡◌, ◌≢◌, refl, sym, ap, ◌∙◌, Bool, true, false, not, ◌&&◌, ◌||◌, List, [], ◌∷◌,
  ◌++◌, Option, some, arith, leb, ◌==◌, if◌then◌else◌, is_empty, All, All-append, OneOf, OneOf-All,
  codes,
}
use ubuntu_vm_template_build.Text.{Text, to_upper, upper, equal, is_space}
use ubuntu_vm_template_build.Text.Trim.{StartsOutside, trim_space_solid}
use ubuntu_vm_template_build.Common.DiskSize.{
  max_int64, out_of_range, overflows, ok, err, is_digit, is_multiple_letter, skip_one_of,
  matches_unit, trim_suffix, unit_multiplier, decimal, parse_int64, unit_of, with_value,
  parse_disk_size,
}
use ubuntu_vm_template_build.Common.DiskSize.Sound.{AllDigits, leading_digits-append}

-- The units that the switch knows, and what each stands for.
pub data SizeUnit : Type 0 where
  bytes kilo mega giga tera : SizeUnit

abbrev pub factor : SizeUnit → ℕ
factor bytes = 1
factor kilo = 2 ^ 10
factor mega = 2 ^ 20
factor giga = 2 ^ 30
factor tera = 2 ^ 40

-- The ways to write a unit, in capitals: its letter, with `B` or `IB` behind it if one likes.
abbrev pub spellings : SizeUnit → List Text
spellings bytes = [] ∷ codes "B" ∷ codes "IB" ∷ []
spellings kilo = codes "K" ∷ codes "KB" ∷ codes "KIB" ∷ []
spellings mega = codes "M" ∷ codes "MB" ∷ codes "MIB" ∷ []
spellings giga = codes "G" ∷ codes "GB" ∷ codes "GIB" ∷ []
spellings tera = codes "T" ∷ codes "TB" ∷ codes "TIB" ∷ []

abbrev is_multiple : ℕ → Bool
is_multiple u = u == b'K' || u == b'M' || u == b'G' || u == b'T'

-- `matches_unit` on capitals.
abbrev matches_upper : Text → Bool
matches_upper t =
    is_empty
      (skip_one_of (λ c. c == b'B') (skip_one_of (λ c. c == b'I') (skip_one_of is_multiple t)))

abbrev is_unit_letter : ℕ → Bool
is_unit_letter c = not (is_space c) && not (is_digit c)

skip_one_of-upper :
    (p : ℕ → Bool) (s : Text)
    → skip_one_of p (to_upper s) ≡ to_upper (skip_one_of (λ c. p (upper c)) s)
unfolding skip_one_of to_upper
skip_one_of-upper p [] = refl
skip_one_of-upper p (c ∷ s) = ground arith

is_empty-upper : (s : Text) → is_empty (to_upper s) ≡ is_empty s
unfolding to_upper
is_empty-upper [] = refl
is_empty-upper (c ∷ s) = refl

-- The Kelvin sign is left over in capitals.
skip_one_of-is_multiple_letter :
    (s : Text)
    → matches_upper (to_upper s) ≡ true
    → skip_one_of is_multiple_letter s ≡ skip_one_of (λ c. is_multiple (upper c)) s
unfolding skip_one_of is_multiple_letter to_upper upper
skip_one_of-is_multiple_letter [] h = refl
skip_one_of-is_multiple_letter (c ∷ s) h = ground arith

matches_unit-upper : (s : Text) → matches_upper (to_upper s) ≡ true → matches_unit s ≡ true
unfolding matches_unit
matches_unit-upper s h = rw (skip_one_of-is_multiple_letter s h) (
    sym (is_empty-upper _)
    ∙ ap is_empty (sym (skip_one_of-upper (λ c. c == b'B') _))
    ∙ ap (λ t. is_empty (skip_one_of (λ c. c == b'B') t))
        (sym (skip_one_of-upper (λ c. c == b'I') _))
    ∙ ap (λ t. is_empty (skip_one_of (λ c. c == b'B') (skip_one_of (λ c. c == b'I') t)))
        (sym (skip_one_of-upper is_multiple s))
    ∙ h)

abbrev unit_in_capitals : Text → Text
unit_in_capitals t = trim_suffix (trim_suffix t (codes "IB")) (codes "B")

abbrev Spells : SizeUnit → Text → Type 0
Spells u t =
    (matches_upper t ≡ true)
    × (unit_multiplier (unit_in_capitals t) ≡ some (factor u))
    × All (λ c. is_unit_letter c ≡ true) t

spellings-Spells : (u : SizeUnit) → All (Spells u) (spellings u)
unfolding skip_one_of unit_multiplier trim_suffix equal is_space
spellings-Spells bytes =
    ((refl, refl, tt), ((refl, refl, (refl, tt)), ((refl, refl, (refl, (refl, tt))), tt)))
spellings-Spells kilo = (
  (refl, refl, (refl, tt)),
  ((refl, refl, (refl, (refl, tt))), ((refl, refl, (refl, (refl, (refl, tt)))), tt)),
)
spellings-Spells mega = (
  (refl, refl, (refl, tt)),
  ((refl, refl, (refl, (refl, tt))), ((refl, refl, (refl, (refl, (refl, tt)))), tt)),
)
spellings-Spells giga = (
  (refl, refl, (refl, tt)),
  ((refl, refl, (refl, (refl, tt))), ((refl, refl, (refl, (refl, (refl, tt)))), tt)),
)
spellings-Spells tera = (
  (refl, refl, (refl, tt)),
  ((refl, refl, (refl, (refl, tt))), ((refl, refl, (refl, (refl, (refl, tt)))), tt)),
)

is_unit_letter-upper : (c : ℕ) → is_unit_letter (upper c) ≡ is_unit_letter c
unfolding upper is_space
is_unit_letter-upper c = ground arith

unit_letters :
    (s : Text)
    → All (λ c. is_unit_letter c ≡ true) (to_upper s)
    → All (λ c. is_space c ≡ false) s × StartsOutside is_digit s
unfolding to_upper
unit_letters [] _ = (tt, tt)
unit_letters (c ∷ s) (h, hs) =
    let g = sym (is_unit_letter-upper c) ∙ h in
    ((ground arith, (unit_letters s hs).0), ground arith)

digit-is_space : (ds : Text) → AllDigits ds → All (λ c. is_space c ≡ false) ds
unfolding is_space
digit-is_space [] _ = tt
digit-is_space (d ∷ ds) (h, hs) = (ground arith, digit-is_space ds hs)

parse_disk_size-append :
    (ds letters : Text)
    → ds ≢ []
    → AllDigits ds
    → matches_unit letters ≡ true
    → All (λ c. is_space c ≡ false) letters
    → StartsOutside is_digit letters
    → parse_disk_size (ds ++ letters) ≡ with_value (parse_int64 ds) letters
unfolding parse_disk_size
parse_disk_size-append [] letters ne _ _ _ _ = absurd (ne refl)
parse_disk_size-append (d ∷ ds) letters ne digits unit solid stops = rw (
  trim_space_solid ((d ∷ ds) ++ letters)
      (All-append _ (d ∷ ds) letters (digit-is_space (d ∷ ds) digits) solid),
  leading_digits-append (d ∷ ds) letters digits stops,
  unit,
)

unit_multiplier-unit_of :
    (s : Text) (m : Option ℕ)
    → unit_multiplier (unit_in_capitals (to_upper s)) ≡ m
    → unit_multiplier (unit_of s) ≡ m
unfolding unit_of
unit_multiplier-unit_of s m h = h

with_value_known :
    (u : SizeUnit) (ds letters : Text)
    → unit_multiplier (unit_of letters) ≡ some (factor u)
    → with_value (parse_int64 ds) letters ≡ (
        if leb (decimal 0 ds * factor u) max_int64
        then ok (decimal 0 ds * factor u)
        else if leb (decimal 0 ds) max_int64
        then err overflows
        else err out_of_range)
unfolding parse_int64
with_value_known bytes ds letters e = ground (arith, e)
with_value_known kilo ds letters e = ground (arith, e)
with_value_known mega ds letters e = ground (arith, e)
with_value_known giga ds letters e = ground (arith, e)
with_value_known tera ds letters e = ground (arith, e)

-- One or more digits and a spelling of a unit, in any case, are accepted exactly if their product
-- fits in an int64, and it is the result. Else the error tells which of the two numbers is too large.
pub parse_disk_size_complete :
    (u : SizeUnit) (ds letters : Text)
    → ds ≢ []
    → AllDigits ds
    → OneOf (to_upper letters) (spellings u)
    → parse_disk_size (ds ++ letters) ≡ (
        if leb (decimal 0 ds * factor u) max_int64
        then ok (decimal 0 ds * factor u)
        else if leb (decimal 0 ds) max_int64
        then err overflows
        else err out_of_range)
parse_disk_size_complete u ds letters ne digits spelled =
    let (matches, unit, solid) = OneOf-All (Spells u) _ _ spelled (spellings-Spells u) in
    let (no_space, stops) = unit_letters letters solid in
    parse_disk_size-append ds letters ne digits (matches_unit-upper letters matches) no_space stops
    ∙ with_value_known u ds letters (unit_multiplier-unit_of letters _ unit)
