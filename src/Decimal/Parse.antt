-- ===== src/Decimal/Parse.antt =====
-- `strconv.ParseInt(s, 10, 64)` where a negative number is refused as well.
use ubuntu_vm_template_build.Base.{
  ℕ, zero, suc, ◌+◌, ◌/◌, ◌%◌, ◌^◌, ◌<◌, ◌≡◌, refl, ◌∙◌, inl, inr, Bool, true, false, not, ◌&&◌,
  Option, none, some, [], ◌∷◌, ltb, ◌==◌, within, if◌then◌else◌, is_empty, all_of, All, Bool-cases,
  arith,
}
use ubuntu_vm_template_build.Text.{Text}
use ubuntu_vm_template_build.Decimal.{digits, digits_onto}
use ubuntu_vm_template_build.Decimal.Laws.{spelled, spelled-digits}

abbrev pub is_digit : ℕ → Bool
is_digit c = within b'0' b'9' c

-- Digits alone, and their number in the range of an `int64`.
unfoldable pub parse_digits : Text → Option ℕ
parse_digits ds =
    if not (is_empty ds) && all_of is_digit ds && ltb (spelled 0 ds) (2 ^ 63)
    then some (spelled 0 ds)
    else none

abbrev pub if_zero : Option ℕ → Option ℕ
if_zero none = none
if_zero (some n) = if n == 0 then some 0 else none

unfoldable pub parse_non_negative : Text → Option ℕ
unfolding parse_digits
parse_non_negative [] = none
parse_non_negative (c ∷ s) =
    if c == b'+'
    then parse_digits s
    else if c == b'-'
    then if_zero (parse_digits s)
    else parse_digits (c ∷ s)

-- All digits.
abbrev pub AreDigits : Text → Type 0
AreDigits ds = All (λ c. is_digit c ≡ true) ds

digits_onto-AreDigits :
    (fuel n : ℕ) (out : Text)
    → n < fuel
    → AreDigits out
    → AreDigits (digits_onto fuel n out) × (is_empty (digits_onto fuel n out) ≡ false)
unfolding digits_onto
digits_onto-AreDigits zero n out h a = absurd (omega arith)
digits_onto-AreDigits (suc fuel) n out h a = elim (Bool-cases (ltb n 10)) [
  | inl small ↦ rw small ((ground arith, a), refl)
  | inr large ↦
      rw large (
        digits_onto-AreDigits fuel (n / 10) ((b'0' + n % 10) ∷ out) (ground arith)
          (ground arith, a))
]

pub digits-AreDigits : (n : ℕ) → AreDigits (digits n) × (is_empty (digits n) ≡ false)
unfolding digits
digits-AreDigits n = digits_onto-AreDigits (suc n) n [] (omega arith) tt

AreDigits-all_of : (ds : Text) → AreDigits ds → all_of is_digit ds ≡ true
AreDigits-all_of [] h = refl
AreDigits-all_of (c ∷ ds) (h, hs) = rw (h, AreDigits-all_of ds hs) refl

-- What `Itoa` writes is read back.
pub parse_non_negative-digits : (n : ℕ) → n < 2 ^ 63 → parse_non_negative (digits n) ≡ some n
unfolding parse_non_negative parse_digits
parse_non_negative-digits n h = go (digits n) (digits-AreDigits n) (spelled-digits n)
  where
    unsigned :
        (c : ℕ) (s : Text) → is_digit c ≡ true → parse_non_negative (c ∷ s) ≡ parse_digits (c ∷ s)
    unsigned c s d = ground arith

    in_range :
        (c : ℕ) (ds : Text)
        → is_digit c ≡ true
        → all_of is_digit ds ≡ true
        → spelled 0 (c ∷ ds) ≡ n
        → parse_digits (c ∷ ds) ≡ some n
    in_range c ds d e v = rw (d, e, v) (ground arith)

    go :
        (ds : Text)
        → AreDigits ds × (is_empty ds ≡ false)
        → spelled 0 ds ≡ n
        → parse_non_negative ds ≡ some n
    go [] (d, e) v = absurd (cc e)
    go (c ∷ ds) (d, e) v = unsigned c ds d.0 ∙ in_range c ds d.0 (AreDigits-all_of ds d.1) v
