-- ===== src/Text.antt =====
-- What the code uses of Go's package strings, over texts as lists of code points. Letters are
-- folded in ASCII only, which is what every text that the code compares with consists of.
pub mod Trim
pub mod Search
pub mod Split
pub mod Order
pub mod Path
pub mod Occurs
use ubuntu_vm_template_build.Base.{
  ℕ, zero, suc, ◌+◌, ◌-◌, Bool, true, false, not, ◌&&◌, ◌||◌, List, [], ◌∷◌, ◌++◌, map, Option,
  none, some, ltb, leb, ◌==◌, within, if◌then◌else◌, is_empty,
}

abbrev pub Text : Type 0
Text = List ℕ

-- `unicode.IsSpace`
unfoldable pub is_space : ℕ → Bool
is_space c =
    within 9 13 c
    || c == 32
    || c == 0x85
    || c == 0xa0
    || c == 0x1680
    || within 0x2000 0x200a c
    || c == 0x2028
    || c == 0x2029
    || c == 0x202f
    || c == 0x205f
    || c == 0x3000

-- `strings.TrimLeftFunc` and `strings.TrimRightFunc`
unfoldable pub trim_left_by : (ℕ → Bool) → Text → Text
trim_left_by p [] = []
trim_left_by p (c ∷ s) = if p c then trim_left_by p s else c ∷ s

unfoldable pub trim_right_by : (ℕ → Bool) → Text → Text
trim_right_by p [] = []
trim_right_by p (c ∷ s) = let r = trim_right_by p s in if is_empty r && p c then [] else c ∷ r

unfoldable pub trim_by : (ℕ → Bool) → Text → Text
trim_by p s = trim_right_by p (trim_left_by p s)

-- `strings.TrimSpace`
unfoldable pub trim_space : Text → Text
trim_space = trim_by is_space

unfoldable pub lower : ℕ → ℕ
lower c = if within b'A' b'Z' c then c + 32 else c

unfoldable pub upper : ℕ → ℕ
upper c = if within b'a' b'z' c then c - 32 else c

-- `strings.ToLower`, `strings.ToUpper`
unfoldable pub to_lower : Text → Text
to_lower = map lower

unfoldable pub to_upper : Text → Text
to_upper = map upper

-- `strings.ToLower(strings.TrimSpace(s))`
abbrev pub fold_space : Text → Text
fold_space s = to_lower (trim_space s)

-- `==` on strings
unfoldable pub equal : Text → Text → Bool
equal [] [] = true
equal (x ∷ xs) (y ∷ ys) = x == y && equal xs ys
equal [] (y ∷ ys) = false
equal (x ∷ xs) [] = false

-- One of the texts is the first.
unfoldable pub is_among : Text → List Text → Bool
unfolding equal
is_among value [] = false
is_among value (candidate ∷ rest) = equal value candidate || is_among value rest

-- `strings.HasPrefix(s, prefix)`
unfoldable pub has_prefix : Text → Text → Bool
has_prefix s [] = true
has_prefix [] (p ∷ ps) = false
has_prefix (c ∷ s) (p ∷ ps) = c == p && has_prefix s ps

-- `strings.Contains(s, sub)`
unfoldable pub contains : Text → Text → Bool
unfolding has_prefix
contains [] sub = has_prefix [] sub
contains (c ∷ s) sub = has_prefix (c ∷ s) sub || contains s sub

abbrev pub next_index : Option ℕ → Option ℕ
next_index none = none
next_index (some i) = some (suc i)

-- `strings.Index(s, sub)`, with `none` for -1
unfoldable pub index : Text → Text → Option ℕ
unfolding has_prefix
index [] sub = if has_prefix [] sub then some 0 else none
index (c ∷ s) sub =
    let rest = next_index (index s sub) in if has_prefix (c ∷ s) sub then some 0 else rest

-- `strings.ContainsAny(s, chars)`
unfoldable pub mem_char : ℕ → Text → Bool
mem_char c [] = false
mem_char c (d ∷ ds) = c == d || mem_char c ds

unfoldable pub contains_any : Text → Text → Bool
unfolding mem_char
contains_any [] chars = false
contains_any (c ∷ s) chars = mem_char c chars || contains_any s chars

-- `strings.Split(s, sep)` for a separator of one character; `part` is the part begun.
unfoldable pub split_from : Text → Text → ℕ → List Text
split_from part [] sep = part ∷ []
split_from part (c ∷ s) sep =
    let next = part ∷ split_from [] s sep in
    let more = split_from (part ++ c ∷ []) s sep in if c == sep then next else more

unfoldable pub split : Text → ℕ → List Text
unfolding split_from
split s sep = split_from [] s sep

-- `strings.Join(parts, sep)`
unfoldable pub join : List Text → Text → Text
join [] sep = []
join (p ∷ []) sep = p
join (p ∷ q ∷ ps) sep = p ++ (sep ++ join (q ∷ ps) sep)

-- `strings.ReplaceAll(s, old, new)` for an `old` of one character.
unfoldable pub replace_all : Text → ℕ → Text → Text
replace_all [] old new = []
replace_all (c ∷ s) old new = (if c == old then new else c ∷ []) ++ replace_all s old new

-- `strings.Cut(s, sep)` for a separator of one character; `none` where it does not occur.
unfoldable pub cut : Text → ℕ → Option (Text × Text)
cut [] sep = none
cut (c ∷ s) sep =
    if c == sep
    then some ([], s)
    else elim (cut s sep) [ none ↦ none | some (k, v) ↦ some (c ∷ k, v) ]

-- `strings.Fields(s)`; `word` is the word begun.
unfoldable pub fields_from : Text → Text → List Text
fields_from word [] = if is_empty word then [] else word ∷ []
fields_from word (c ∷ s) =
    let ended = word ∷ fields_from [] s in
    let between = fields_from [] s in
    let more = fields_from (word ++ c ∷ []) s in
    if is_space c then (if is_empty word then between else ended) else more

unfoldable pub fields : Text → List Text
unfolding fields_from is_space
fields s = fields_from [] s
