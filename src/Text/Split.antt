-- ===== src/Text/Split.antt =====
-- Splitting at a character, and joining with it.
use ubuntu_vm_template_build.Base.{
  ℕ, ◌≡◌, ◌≢◌, refl, true, false, List, [], ◌∷◌, ◌++◌, append-nil, append_assoc, All, ◌==◌, ==_iff,
  all_of, all_of-All, All-map, All-append, not, Bool, inl, inr, Bool-cases, arith,
}
use ubuntu_vm_template_build.Text.{Text, join, split, split_from, mem_char, contains_any}

-- The text does not hold the character.
abbrev pub Lacks : ℕ → Text → Type 0
Lacks sep s = All (λ c. (c == sep) ≡ false) s

split_from-part : (part s : Text) (sep : ℕ) → Lacks sep s → split_from part s sep ≡ (part ++ s) ∷ []
unfolding split_from
split_from-part part [] sep _ = rw append-nil
split_from-part part (c ∷ s) sep (h, hs) =
    rw (h, split_from-part (part ++ c ∷ []) s sep hs, append_assoc)

split_from-append :
    (part s rest : Text) (sep : ℕ)
    → Lacks sep s
    → split_from part (s ++ (sep ∷ rest)) sep ≡ (part ++ s) ∷ split_from [] rest sep
unfolding split_from
split_from-append part [] rest sep _ = rw (append-nil) (ground arith)
split_from-append part (c ∷ s) rest sep (h, hs) =
    rw (h, split_from-append (part ++ c ∷ []) s rest sep hs, append_assoc)

-- Joined parts without the separator are split into the same parts.
pub split-join :
    (ps : List Text) (sep : ℕ) → ps ≢ [] → All (Lacks sep) ps → split (join ps (sep ∷ [])) sep ≡ ps
unfolding split join
split-join [] sep h _ = absurd (h refl)
split-join (p ∷ []) sep _ (h, _) = split_from-part [] p sep h
split-join (p ∷ q ∷ ps) sep _ (h, hs) =
    rw (split_from-append [] p (join (q ∷ ps) (sep ∷ [])) sep h, split-join (q ∷ ps) sep (cc) hs)

-- Joined parts with a separator behind the last are split into the same parts and an empty one.
pub split-join_ended :
    (ps : List Text) (sep : ℕ)
    → ps ≢ []
    → All (Lacks sep) ps
    → split (join ps (sep ∷ []) ++ sep ∷ []) sep ≡ ps ++ [] ∷ []
unfolding split join split_from
split-join_ended [] sep h _ = absurd (h refl)
split-join_ended (p ∷ []) sep _ (h, _) = split_from-append [] p [] sep h
split-join_ended (p ∷ q ∷ ps) sep _ (h, hs) = rw (append_assoc) (
    rw (
      split_from-append [] p (join (q ∷ ps) (sep ∷ []) ++ sep ∷ []) sep h,
      split-join_ended (q ∷ ps) sep (cc) hs,
    ))

-- A text without any of some characters lacks each of them.
pub contains_any-Lacks :
    (s chars : Text) (sep : ℕ)
    → mem_char sep chars ≡ true
    → contains_any s chars ≡ false
    → Lacks sep s
unfolding contains_any mem_char
contains_any-Lacks [] chars sep m h = tt
contains_any-Lacks (c ∷ s) chars sep m h = elim (Bool-cases (c == sep)) [
  | inl same ↦ absurd (ground (arith, (==_iff c sep).0 same))
  | inr other ↦ (other, contains_any-Lacks s chars sep m (ground arith))
]

pub split_from-Lacks :
    (part s : Text) (sep : ℕ) → Lacks sep part → All (Lacks sep) (split_from part s sep)
unfolding split_from
split_from-Lacks part [] sep h = (h, tt)
split_from-Lacks part (c ∷ s) sep h = elim (Bool-cases (c == sep)) [
  | inl same ↦ rw same (h, split_from-Lacks [] s sep tt)
  | inr other ↦ rw other (
      split_from-Lacks (part ++ c ∷ []) s sep
        (All-append (λ d. (d == sep) ≡ false) part (c ∷ []) h (other, tt)))
]

pub split_from-both :
    (part s rest : Text) (sep : ℕ)
    → split_from part (s ++ sep ∷ rest) sep ≡ split_from part s sep ++ split_from [] rest sep
unfolding split_from
split_from-both part [] rest sep = ground arith
split_from-both part (c ∷ s) rest sep = elim (Bool-cases (c == sep)) [
  | inl same ↦ rw (same, split_from-both [] s rest sep)
  | inr other ↦ rw (other, split_from-both (part ++ c ∷ []) s rest sep)
]

-- The test for one character, to run on closed texts.
abbrev pub lacks : ℕ → Text → Bool
lacks sep = all_of (λ c. not (c == sep))

pub lacks_iff : (sep : ℕ) (s : Text) → lacks sep s ≡ true → Lacks sep s
lacks_iff sep [] h = tt
lacks_iff sep (c ∷ s) h = (ground arith, lacks_iff sep s (ground arith))

pub all_lack : (sep : ℕ) (ss : List Text) → all_of (lacks sep) ss ≡ true → All (Lacks sep) ss
all_lack sep ss h = All-map (lacks_iff sep) ss (all_of-All (lacks sep) ss h)
