-- ===== src/Text/Order.antt =====
-- `<` on strings, and sorting by it as `sort.Strings` and `sort.Slice` do for different keys.
use mathlib.Core.List.{Perm}
use mathlib.Core.List.Perm
use ubuntu_vm_template_build.Base.{
  ◌≡◌, refl, inl, inr, Bool, true, false, ◌&&◌, ◌||◌, List, [], ◌∷◌, ltb, ◌==◌, if◌then◌else◌, All,
  All-map, Bool-cases, arith,
}
use ubuntu_vm_template_build.Text.{Text, equal}

unfoldable pub text_less : Text → Text → Bool
text_less s [] = false
text_less [] (d ∷ t) = true
text_less (c ∷ s) (d ∷ t) = let rest = text_less s t in ltb c d || (c == d && rest)

text_less_trans :
    (a b c : Text) → text_less a b ≡ true → text_less b c ≡ true → text_less a c ≡ true
unfolding text_less
text_less_trans a b [] h k = k
text_less_trans a [] (z ∷ c) h k = absurd (ground arith)
text_less_trans [] (y ∷ b) (z ∷ c) h k = refl
text_less_trans (x ∷ a) (y ∷ b) (z ∷ c) h k = ground (arith, text_less_trans a b c)

text_less_total : (a b : Text) → text_less a b ≡ false → equal b a ≡ false → text_less b a ≡ true
unfolding text_less equal
text_less_total [] [] h k = absurd (ground arith)
text_less_total [] (y ∷ b) h k = absurd (ground arith)
text_less_total (x ∷ a) [] h k = refl
text_less_total (x ∷ a) (y ∷ b) h k = ground (arith, text_less_total a b)

module _ {A : Type 0} (key : A → Text) where
  unfoldable pub insert_by : A → List A → List A
  insert_by x [] = x ∷ []
  insert_by x (y ∷ ys) =
      let rest = insert_by x ys in if text_less (key y) (key x) then y ∷ rest else x ∷ y ∷ ys

  unfoldable pub sort_by : List A → List A
  sort_by [] = []
  sort_by (x ∷ xs) = insert_by x (sort_by xs)

  -- Each key is less than those behind it.
  unfoldable pub Ascending : List A → Type 0
  Ascending [] = Unit
  Ascending (x ∷ xs) = All (λ y. text_less (key x) (key y) ≡ true) xs × Ascending xs

  -- Each key is different from those behind it.
  unfoldable pub Distinct : List A → Type 0
  Distinct [] = Unit
  Distinct (x ∷ xs) = All (λ y. equal (key x) (key y) ≡ false) xs × Distinct xs

  insert_by-All : (P : A → Type 0) (x : A) (ys : List A) → P x → All P ys → All P (insert_by x ys)
  unfolding insert_by
  insert_by-All P x [] h k = (h, tt)
  insert_by-All P x (y ∷ ys) h (k, ks) = elim (Bool-cases (text_less (key y) (key x))) [
    | inl before ↦ rw before (k, insert_by-All P x ys h ks)
    | inr behind ↦ rw behind (h, (k, ks))
  ]

  pub sort_by-All : (P : A → Type 0) (xs : List A) → All P xs → All P (sort_by xs)
  unfolding sort_by
  sort_by-All P [] h = tt
  sort_by-All P (x ∷ xs) (h, hs) = insert_by-All P x (sort_by xs) h (sort_by-All P xs hs)

  insert_by-Ascending :
      (x : A) (ys : List A)
      → All (λ y. equal (key x) (key y) ≡ false) ys
      → Ascending ys
      → Ascending (insert_by x ys)
  unfolding insert_by Ascending
  insert_by-Ascending x [] h a = (tt, tt)
  insert_by-Ascending x (y ∷ ys) (h, hs) (l, a) = elim (Bool-cases (text_less (key y) (key x))) [
    | inl before ↦ rw before (
      insert_by-All (λ z. text_less (key y) (key z) ≡ true) x ys before l,
      insert_by-Ascending x ys hs a,
    )
    | inr behind ↦
        let less : text_less (key x) (key y) ≡ true = text_less_total (key y) (key x) behind h in
        rw behind
          ((less, All-map (λ z k. text_less_trans (key x) (key y) (key z) less k) ys l), (l, a))
  ]

  -- Elements with different keys are put into ascending order.
  pub sort_by-Ascending : (xs : List A) → Distinct xs → Ascending (sort_by xs)
  unfolding sort_by Distinct Ascending
  sort_by-Ascending [] d = tt
  sort_by-Ascending (x ∷ xs) (d, ds) =
      insert_by-Ascending x (sort_by xs) (sort_by-All (λ y. equal (key x) (key y) ≡ false) xs d)
        (sort_by-Ascending xs ds)

  insert_by-perm : (x : A) (ys : List A) → Perm (insert_by x ys) (x ∷ ys)
  unfolding insert_by
  insert_by-perm x [] = Perm.refl (x ∷ [])
  insert_by-perm x (y ∷ ys) = elim (Bool-cases (text_less (key y) (key x))) [
    | inl before ↦ rw before (Perm.trans (Perm.cons y (insert_by-perm x ys)) (Perm.swap x y ys))
    | inr behind ↦ rw behind (Perm.refl (x ∷ y ∷ ys))
  ]

  pub sort_by-perm : (xs : List A) → Perm (sort_by xs) xs
  unfolding sort_by
  sort_by-perm [] = Perm.refl []
  sort_by-perm (x ∷ xs) = Perm.trans (insert_by-perm x (sort_by xs)) (Perm.cons x (sort_by-perm xs))
