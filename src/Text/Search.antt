-- ===== src/Text/Search.antt =====
-- Splitting, joining and replacing.
use ubuntu_vm_template_build.Base.{
  ℕ, ◌≡◌, refl, inl, inr, false, List, [], ◌∷◌, ◌++◌, append-nil, append_assoc, if◌then◌else◌,
  is_empty, Bool-cases, All, All-append, ◌==◌,
}
use ubuntu_vm_template_build.Text.{
  Text, is_space, lower, to_lower, replace_all, join, fields, fields_from,
}

pub to_lower_fixed : (s : Text) → All (λ c. lower c ≡ c) s → to_lower s ≡ s
unfolding to_lower
to_lower_fixed [] _ = refl
to_lower_fixed (c ∷ s) (h, hs) = cc (to_lower_fixed s hs)

module _ (P : ℕ → Type 0) where
  -- What holds of the text's characters and of the new ones holds of the result's.
  pub replace_all-All :
      (s new : Text) (old : ℕ)
      → All P new
      → All (λ c. (c == old) ≡ false → P c) s
      → All P (replace_all s old new)
  unfolding replace_all
  replace_all-All [] new old h _ = tt
  replace_all-All (c ∷ s) new old h (k, ks) = elim (Bool-cases (c == old)) [
    | inl same ↦
        rw same (All-append P new (replace_all s old new) h (replace_all-All s new old h ks))
    | inr other ↦ rw other (k other, replace_all-All s new old h ks)
  ]

  pub join-All : (ps : List Text) (sep : Text) → All P sep → All (All P) ps → All P (join ps sep)
  unfolding join
  join-All [] sep h _ = tt
  join-All (p ∷ []) sep h (k, _) = k
  join-All (p ∷ q ∷ ps) sep h (k, ks) =
      All-append P p _ k (All-append P sep _ h (join-All (q ∷ ps) sep h ks))

  fields_from-All :
      (s word : Text)
      → All P word
      → All (λ c. is_space c ≡ false → P c) s
      → All (All P) (fields_from word s)
  unfolding fields_from
  fields_from-All [] [] _ _ = tt
  fields_from-All [] (w ∷ word) h _ = (h, tt)
  fields_from-All (c ∷ s) word h (k, ks) = elim (Bool-cases (is_space c)) [
    | inl space ↦ elim (Bool-cases (is_empty word)) [
      | inl between ↦ rw (space, between) (fields_from-All s [] tt ks)
      | inr ended ↦ rw (space, ended) (h, fields_from-All s [] tt ks)
    ]
    | inr solid ↦
        rw solid
          (fields_from-All s (word ++ c ∷ []) (All-append P word (c ∷ []) h (k solid, tt)) ks)
  ]

  pub fields-All : (s : Text) → All (λ c. is_space c ≡ false → P c) s → All (All P) (fields s)
  unfolding fields
  fields-All s h = fields_from-All s [] tt h

pub replace_all_fixed :
    (s new : Text) (old : ℕ) → All (λ c. (c == old) ≡ false) s → replace_all s old new ≡ s
unfolding replace_all
replace_all_fixed [] new old _ = refl
replace_all_fixed (c ∷ s) new old (h, hs) = rw (h, replace_all_fixed s new old hs)

is_empty-append : (s : Text) (c : ℕ) (t : Text) → is_empty (s ++ (c ∷ t)) ≡ false
is_empty-append [] c t = refl
is_empty-append (d ∷ s) c t = refl

fields_from_solid :
    (s word : Text)
    → All (λ c. is_space c ≡ false) s
    → fields_from word s ≡ (if is_empty (word ++ s) then [] else (word ++ s) ∷ [])
unfolding fields_from
fields_from_solid [] word _ = rw append-nil
fields_from_solid (c ∷ s) word (h, hs) =
    rw (h, fields_from_solid s (word ++ c ∷ []) hs, append_assoc)

-- A text without spaces is one field, or none if it is empty; joined again, it is as it was.
pub join-fields : (s sep : Text) → All (λ c. is_space c ≡ false) s → join (fields s) sep ≡ s
unfolding fields join
join-fields [] sep h = refl
join-fields (c ∷ s) sep h = rw (fields_from_solid (c ∷ s) [] h)
