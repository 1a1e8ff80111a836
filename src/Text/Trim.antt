-- ===== src/Text/Trim.antt =====
-- Trimming and case folding.
use ubuntu_vm_template_build.Base.{
  ℕ, ◌≡◌, refl, sym, ap, ◌∙◌, inl, inr, Bool, true, false, ◌&&◌, [], ◌∷◌, map, arith, is_empty,
  Bool-cases, All, ◌↔◌,
}
use ubuntu_vm_template_build.Text.{
  Text, is_space, trim_left_by, trim_right_by, trim_by, trim_space, lower, to_lower, fold_space,
  equal, upper, to_upper,
}

pub equal_iff : (a b : Text) → (equal a b ≡ true) ↔ (a ≡ b)
unfolding equal
equal_iff [] [] = ground arith
equal_iff (x ∷ a) (y ∷ b) = ground (arith, equal_iff a b)
equal_iff [] (y ∷ b) = ground arith
equal_iff (x ∷ a) [] = ground arith

pub equal_refl : (a : Text) → equal a a ≡ true
equal_refl a = (equal_iff a a).1 refl

pub equal_sym : (a b : Text) → equal a b ≡ equal b a
unfolding equal
equal_sym [] [] = refl
equal_sym (x ∷ a) (y ∷ b) = ground (arith, equal_sym a b)
equal_sym [] (y ∷ b) = refl
equal_sym (x ∷ a) [] = refl

pub lower_idem : (c : ℕ) → lower (lower c) ≡ lower c
unfolding lower
lower_idem c = ground arith

pub to_lower_idem : (s : Text) → to_lower (to_lower s) ≡ to_lower s
unfolding to_lower
to_lower_idem [] = refl
to_lower_idem (c ∷ s) = cc (lower_idem c, to_lower_idem s)

is_space-lower : (c : ℕ) → is_space (lower c) ≡ is_space c
unfolding is_space lower
is_space-lower c = ground arith

-- The first character is none to trim, if there is one.
abbrev pub StartsOutside : (ℕ → Bool) → Text → Type 0
StartsOutside p [] = Unit
StartsOutside p (c ∷ s) = p c ≡ false

module _ (p : ℕ → Bool) where
  trim_left_by-StartsOutside : (s : Text) → StartsOutside p (trim_left_by p s)
  unfolding trim_left_by
  trim_left_by-StartsOutside [] = tt
  trim_left_by-StartsOutside (c ∷ s) = elim (Bool-cases (p c)) [
    | inl trimmed ↦ rw trimmed (trim_left_by-StartsOutside s)
    | inr kept ↦ rw kept kept
  ]

  trim_left_by_fixed : (s : Text) → StartsOutside p s → trim_left_by p s ≡ s
  unfolding trim_left_by
  trim_left_by_fixed [] _ = refl
  trim_left_by_fixed (c ∷ s) h = rw h

  trim_right_by_idem : (s : Text) → trim_right_by p (trim_right_by p s) ≡ trim_right_by p s
  unfolding trim_right_by
  trim_right_by_idem [] = refl
  trim_right_by_idem (c ∷ s) = elim (Bool-cases (is_empty (trim_right_by p s) && p c)) [
    | inl all ↦ rw all refl
    | inr kept ↦ rw kept (rw (trim_right_by_idem s, kept))
  ]

  trim_right_by-StartsOutside : (s : Text) → StartsOutside p s → StartsOutside p (trim_right_by p s)
  unfolding trim_right_by
  trim_right_by-StartsOutside [] h = tt
  trim_right_by-StartsOutside (c ∷ s) h = elim (Bool-cases (is_empty (trim_right_by p s) && p c)) [
    | inl all ↦ rw all tt
    | inr kept ↦ rw kept h
  ]

  pub trim_by-StartsOutside : (s : Text) → StartsOutside p (trim_by p s)
  unfolding trim_by
  trim_by-StartsOutside s = trim_right_by-StartsOutside _ (trim_left_by-StartsOutside s)

  pub trim_by_idem : (s : Text) → trim_by p (trim_by p s) ≡ trim_by p s
  unfolding trim_by
  trim_by_idem s =
      ap (trim_right_by p) (trim_left_by_fixed _ (trim_by-StartsOutside s)) ∙ trim_right_by_idem _

  -- Where the test does not see the case of a letter, trimming and folding commute.
  module _ (same : (c : ℕ) → p (lower c) ≡ p c) where
    trim_left_by-lower : (s : Text) → trim_left_by p (map lower s) ≡ map lower (trim_left_by p s)
    unfolding trim_left_by
    trim_left_by-lower [] = refl
    trim_left_by-lower (c ∷ s) = elim (Bool-cases (p c)) [
      | inl trimmed ↦ rw (same c, trimmed) (trim_left_by-lower s)
      | inr kept ↦ rw (same c, kept)
    ]

    is_empty-lower : (s : Text) → is_empty (map lower s) ≡ is_empty s
    is_empty-lower [] = refl
    is_empty-lower (c ∷ s) = refl

    trim_right_by-lower : (s : Text) → trim_right_by p (map lower s) ≡ map lower (trim_right_by p s)
    unfolding trim_right_by
    trim_right_by-lower [] = refl
    trim_right_by-lower (c ∷ s) = elim (Bool-cases (is_empty (trim_right_by p s) && p c)) [
      | inl all ↦ rw (trim_right_by-lower s, is_empty-lower (trim_right_by p s), same c, all)
      | inr kept ↦ rw (trim_right_by-lower s, is_empty-lower (trim_right_by p s), same c, kept)
    ]

pub trim_space_idem : (s : Text) → trim_space (trim_space s) ≡ trim_space s
unfolding trim_space
trim_space_idem s = trim_by_idem is_space s

pub trim_space-to_lower : (s : Text) → trim_space (to_lower s) ≡ to_lower (trim_space s)
unfolding trim_space trim_by to_lower
trim_space-to_lower s =
    ap (trim_right_by is_space) (trim_left_by-lower is_space is_space-lower s)
    ∙ trim_right_by-lower is_space is_space-lower _

pub fold_space_idem : (s : Text) → fold_space (fold_space s) ≡ fold_space s
fold_space_idem s =
    ap to_lower (trim_space-to_lower (trim_space s))
    ∙ to_lower_idem _
    ∙ ap to_lower (trim_space_idem s)

pub trim_space-fold_space : (s : Text) → trim_space (fold_space s) ≡ fold_space s
trim_space-fold_space s = trim_space-to_lower (trim_space s) ∙ ap to_lower (trim_space_idem s)

-- A text without such characters is left as it is.
module _ (p : ℕ → Bool) where
  trim_right_by_solid : (s : Text) → All (λ c. p c ≡ false) s → trim_right_by p s ≡ s
  unfolding trim_right_by
  trim_right_by_solid [] _ = refl
  trim_right_by_solid (c ∷ s) (h, hs) = ground (arith, trim_right_by_solid s hs, h)

  pub trim_by_solid : (s : Text) → All (λ c. p c ≡ false) s → trim_by p s ≡ s
  unfolding trim_by trim_left_by
  trim_by_solid [] _ = trim_right_by_solid [] tt
  trim_by_solid (c ∷ s) (h, hs) = rw h (trim_right_by_solid (c ∷ s) (h, hs))

pub trim_space_solid : (s : Text) → All (λ c. is_space c ≡ false) s → trim_space s ≡ s
unfolding trim_space
trim_space_solid s h = trim_by_solid is_space s h

pub is_space-upper : (c : ℕ) → is_space (upper c) ≡ is_space c
unfolding is_space upper
is_space-upper c = ground arith

pub to_upper_solid :
    (s : Text) → All (λ c. is_space c ≡ false) (to_upper s) → All (λ c. is_space c ≡ false) s
unfolding to_upper
to_upper_solid [] _ = tt
to_upper_solid (c ∷ s) (h, hs) = (sym (is_space-upper c) ∙ h, to_upper_solid s hs)

-- The last character is none to trim, if there is one.
abbrev pub EndsOutside : (ℕ → Bool) → Text → Type 0
EndsOutside p [] = Unit
EndsOutside p (c ∷ []) = p c ≡ false
EndsOutside p (c ∷ d ∷ s) = EndsOutside p (d ∷ s)

module _ (p : ℕ → Bool) where
  EndsOutside-cons :
      (c : ℕ) (s : Text) → (is_empty s && p c) ≡ false → EndsOutside p s → EndsOutside p (c ∷ s)
  EndsOutside-cons c [] h _ = h
  EndsOutside-cons c (d ∷ s) _ h = h

  trim_right_by-EndsOutside : (s : Text) → EndsOutside p (trim_right_by p s)
  unfolding trim_right_by
  trim_right_by-EndsOutside [] = tt
  trim_right_by-EndsOutside (c ∷ s) =
      let rest = trim_right_by-EndsOutside s in
      elim (Bool-cases (is_empty (trim_right_by p s) && p c)) [
        | inl all ↦ rw all tt
        | inr kept ↦ rw kept (EndsOutside-cons c (trim_right_by p s) kept rest)
      ]

  pub trim_by-EndsOutside : (s : Text) → EndsOutside p (trim_by p s)
  unfolding trim_by
  trim_by-EndsOutside s = trim_right_by-EndsOutside (trim_left_by p s)

  trim_right_by_fixed : (s : Text) → EndsOutside p s → trim_right_by p s ≡ s
  unfolding trim_right_by
  trim_right_by_fixed [] _ = refl
  trim_right_by_fixed (c ∷ []) h = rw h
  trim_right_by_fixed (c ∷ d ∷ s) h = rw (trim_right_by_fixed (d ∷ s) h)

  pub trim_by_fixed : (s : Text) → StartsOutside p s → EndsOutside p s → trim_by p s ≡ s
  unfolding trim_by
  trim_by_fixed s h k = rw (trim_left_by_fixed p s h) (trim_right_by_fixed s k)

  -- What holds of every character survives trimming.
  module _ (P : ℕ → Type 0) where
    trim_left_by-All : (s : Text) → All P s → All P (trim_left_by p s)
    unfolding trim_left_by
    trim_left_by-All [] h = h
    trim_left_by-All (c ∷ s) h = elim (Bool-cases (p c)) [
      | inl trimmed ↦ rw trimmed (trim_left_by-All s h.1)
      | inr kept ↦ rw kept h
    ]

    trim_right_by-All : (s : Text) → All P s → All P (trim_right_by p s)
    unfolding trim_right_by
    trim_right_by-All [] h = h
    trim_right_by-All (c ∷ s) h = elim (Bool-cases (is_empty (trim_right_by p s) && p c)) [
      | inl all ↦ rw all tt
      | inr kept ↦ rw kept (h.0, trim_right_by-All s h.1)
    ]

    pub trim_by-All : (s : Text) → All P s → All P (trim_by p s)
    unfolding trim_by
    trim_by-All s h = trim_right_by-All _ (trim_left_by-All s h)

pub trim_space-All : (P : ℕ → Type 0) (s : Text) → All P s → All P (trim_space s)
unfolding trim_space
trim_space-All P s h = trim_by-All is_space P s h
