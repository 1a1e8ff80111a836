-- ===== src/Common/DiskSize.antt =====
-- internal/common/common.go: `ParseDiskSize`. The regular expression
-- `(?i)^([0-9]+)([kmgt]?i?b?)?$` is read as digits, then at most one letter of each class.
pub mod Sound
pub mod Complete
use ubuntu_vm_template_build.Base.{
  ℕ, ◌+◌, ◌-◌, ◌*◌, ◌/◌, ◌^◌, Bool, true, false, not, ◌&&◌, ◌||◌, List, [], ◌∷◌, ◌++◌, Option, none,
  some, ltb, leb, ◌==◌, within, if◌then◌else◌, is_empty, codes,
}
use ubuntu_vm_template_build.Text.{Text, trim_space, to_upper, upper, equal}

abbrev pub max_int64 : ℕ
max_int64 = 2 ^ 63 - 1

-- The errors of `ParseDiskSize`: no match, a number out of range, a unit that the switch does not
-- know, a product that overflows.
pub data SizeError : Type 0 where
  invalid out_of_range unsupported_unit overflows : SizeError

pub data Result (A : Type 0) : Type 0 where
  ok : A → Result A
  err : SizeError → Result A

abbrev pub is_digit : ℕ → Bool
is_digit c = within b'0' b'9' c

-- `[0-9]+` takes all the digits in front; what they spell, and the rest.
unfoldable pub leading_digits : Text → Text × Text
leading_digits [] = ([], [])
leading_digits (c ∷ s) =
    if is_digit c then (let (ds, rest) = leading_digits s in (c ∷ ds, rest)) else ([], c ∷ s)

-- `[kmgt]`, `i` and `b` without case; Go folds `k` with the Kelvin sign too.
unfoldable pub is_multiple_letter : ℕ → Bool
is_multiple_letter c =
    (let u = upper c in u == b'K' || u == b'M' || u == b'G' || u == b'T') || c == 0x212a

unfoldable pub skip_one_of : (ℕ → Bool) → Text → Text
skip_one_of p [] = []
skip_one_of p (c ∷ s) = if p c then s else c ∷ s

-- `[kmgt]?i?b?$`
unfoldable pub matches_unit : Text → Bool
unfolding is_multiple_letter skip_one_of upper
matches_unit s = is_empty (
    skip_one_of (λ c. upper c == b'B')
      (skip_one_of (λ c. upper c == b'I') (skip_one_of is_multiple_letter s)))

-- `strings.TrimSuffix(s, suffix)`
unfoldable pub trim_suffix : Text → Text → Text
unfolding equal
trim_suffix [] suffix = []
trim_suffix (c ∷ s) suffix = if equal (c ∷ s) suffix then [] else c ∷ trim_suffix s suffix

-- The `switch` on the unit.
unfoldable pub unit_multiplier : Text → Option ℕ
unfolding equal
unit_multiplier unit =
    if equal unit []
    then some 1
    else if equal unit (codes "K")
    then some 1024
    else if equal unit (codes "M")
    then some (1024 * 1024)
    else if equal unit (codes "G")
    then some (1024 * 1024 * 1024)
    else if equal unit (codes "T")
    then some (1024 * 1024 * 1024 * 1024)
    else none

-- The number that decimal digits spell behind `n`.
abbrev pub decimal : ℕ → Text → ℕ
decimal n [] = n
decimal n (c ∷ ds) = decimal (n * 10 + (c - b'0')) ds

-- `strconv.ParseInt(digits, 10, 64)` on digits alone: only the range can be wrong.
unfoldable pub parse_int64 : Text → Option ℕ
parse_int64 ds = if leb (decimal 0 ds) max_int64 then some (decimal 0 ds) else none

abbrev pub scaled : ℕ → Option ℕ → Result ℕ
scaled value none = err unsupported_unit
scaled value (some mult) = if ltb (max_int64 / mult) value then err overflows else ok (value * mult)

-- The letters behind the digits, without `IB` or `B`.
unfoldable pub unit_of : Text → Text
unit_of letters = trim_suffix (trim_suffix (to_upper letters) (codes "IB")) (codes "B")

abbrev pub with_value : Option ℕ → Text → Result ℕ
with_value none letters = err out_of_range
with_value (some value) letters = scaled value (unit_multiplier (unit_of letters))

unfoldable pub parse_disk_size : Text → Result ℕ
parse_disk_size size =
    let (ds, letters) = leading_digits (trim_space size) in
    if is_empty ds || not (matches_unit letters)
    then err invalid
    else with_value (parse_int64 ds) letters
