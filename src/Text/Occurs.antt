-- ===== src/Text/Occurs.antt =====
-- `strings.HasPrefix` and `strings.Contains` as a text in another one, and where two ways to cut a
-- text meet.
use ubuntu_vm_template_build.Base.{
  ◌≤◌, ◌≡◌, refl, ap, ◌∙◌, inl, inr, true, [], ◌∷◌, ◌++◌, ◌==◌, ==_iff, length, Bool-cases, arith,
}
use ubuntu_vm_template_build.Text.{Text, has_prefix, contains}

-- The text has the other one in it.
abbrev pub Occurs : Text → Text → Type 0
Occurs sub s = (before : Text) × (behind : Text) × (s ≡ before ++ (sub ++ behind))

has_prefix_sound : (s p : Text) → has_prefix s p ≡ true → (behind : Text) × (s ≡ p ++ behind)
unfolding has_prefix
has_prefix_sound s [] h = (s, refl)
has_prefix_sound [] (c ∷ p) h = absurd (cc h)
has_prefix_sound (d ∷ s) (c ∷ p) h = elim (Bool-cases (d == c)) [
  | inl same ↦
      let (behind, e) = has_prefix_sound s p (rw same at h) in
      (behind, ap (λ x. x ∷ s) ((==_iff d c).0 same) ∙ ap (◌∷◌ c) e)
  | inr other ↦ absurd (cc (rw other at h))
]

pub has_prefix_self : (p s : Text) → has_prefix (p ++ s) p ≡ true
unfolding has_prefix
has_prefix_self [] [] = refl
has_prefix_self [] (c ∷ s) = refl
has_prefix_self (c ∷ p) s = ground (arith, has_prefix_self p s)

pub contains_sound : (s sub : Text) → contains s sub ≡ true → Occurs sub s
unfolding contains
contains_sound [] sub h = let (behind, e) = has_prefix_sound [] sub h in ([], behind, e)
contains_sound (c ∷ s) sub h = elim (Bool-cases (has_prefix (c ∷ s) sub)) [
  | inl here ↦ let (behind, e) = has_prefix_sound (c ∷ s) sub here in ([], behind, e)
  | inr later ↦
      let (before, behind, e) = contains_sound s sub (rw later at h) in
      (c ∷ before, behind, ap (◌∷◌ c) e)
]

pub contains_here : (s sub : Text) → has_prefix s sub ≡ true → contains s sub ≡ true
unfolding contains
contains_here [] sub h = h
contains_here (c ∷ s) sub h = rw h refl

contains_within : (a p b : Text) → contains (a ++ (p ++ b)) p ≡ true
unfolding contains
contains_within [] p b = contains_here (p ++ b) p (has_prefix_self p b)
contains_within (c ∷ a) p b = ground (arith, contains_within a p b)

pub contains_complete : (s sub : Text) → Occurs sub s → contains s sub ≡ true
contains_complete s sub (before, behind, e) = rw e (contains_within before sub behind)

-- Where a text is cut in two ways, the longer first part begins with the shorter one.
pub append_meet :
    (x y a z : Text)
    → x ++ y ≡ a ++ z
    → length x ≤ length a
    → (w : Text) × (a ≡ x ++ w) × (y ≡ w ++ z)
append_meet [] y a z e h = (a, refl, e)
append_meet (c ∷ x) y [] z e h = absurd (omega arith)
append_meet (c ∷ x) y (d ∷ a) z e h =
    let (w, f, g) = append_meet x y a z (cc e) (omega arith) in (w, cc (e, f), g)
