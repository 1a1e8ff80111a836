-- ===== src/Qemu/Detector/Whole.antt =====
-- internal/backend/qemu/qemu.go: the detector finds in pieces what stands in the whole output.
use ubuntu_vm_template_build.Base.{
  ◌-◌, ◌≤◌, ◌≡◌, ◌⊎◌, refl, sym, ap, ◌∙◌, subst, inl, inr, true, false, List, [], ◌∷◌, ◌++◌,
  append-nil, append_assoc, none, some, ltb, is_empty, length, length-append, length-drop, take,
  drop, take-append-drop, flatten, All, OneOf, Bool-cases, arith,
}
use ubuntu_vm_template_build.Text.{Text, contains, has_prefix}
use ubuntu_vm_template_build.Text.Occurs.{Occurs, contains_sound, contains_complete, append_meet}
use ubuntu_vm_template_build.Qemu.Detector.{
  InstallerFailureDetector, new_detector, installer_failure_markers, find_marker, keep_tail, write,
  write_all, error_marker,
}

-- The tail is what has been read, or the last 4096 characters of it.
abbrev IsTail : Text → Text → Type 0
IsTail seen tail =
    (before : Text) × (seen ≡ before ++ tail) × ((before ≡ []) ⊎ (length tail ≡ 4096))

length_kept : (s : Text) → ltb 4096 (length s) ≡ true → length (drop (length s - 4096) s) ≡ 4096
length_kept s h = let len = length-drop (length s - 4096) s in ground (arith, len, h)

length_full :
    (tail p : Text)
    → length tail ≡ 4096
    → ltb 4096 (length (tail ++ p)) ≡ false
    → length (tail ++ p) ≡ 4096
length_full tail p h k = let len = length-append tail p in ground (arith, len, h, k)

-- A tail that was full still is.
still_cut :
    (before tail p : Text)
    → (before ≡ []) ⊎ (length tail ≡ 4096)
    → ltb 4096 (length (tail ++ p)) ≡ false
    → (before ≡ []) ⊎ (length (tail ++ p) ≡ 4096)
still_cut before tail p (inl all) h = inl all
still_cut before tail p (inr full) h = inr (length_full tail p full h)

keep_tail-IsTail :
    (seen tail p : Text) → IsTail seen tail → IsTail (seen ++ p) (keep_tail (tail ++ p))
keep_tail-IsTail seen tail p (before, e, short) =
    let joined = ap (λ s. s ++ p) e ∙ append_assoc before tail p in
    elim (Bool-cases (ltb 4096 (length (tail ++ p)))) [
      | inl long ↦
          let k = length (tail ++ p) - 4096 in
          rw long (
            before ++ take k (tail ++ p),
            joined
                ∙ ap (λ s. before ++ s) (sym (take-append-drop k (tail ++ p)))
                ∙ sym (append_assoc before (take k (tail ++ p)) (drop k (tail ++ p))),
            inr (length_kept (tail ++ p) long),
          )
      | inr fits ↦ rw fits (before, joined, still_cut before tail p short fits)
    ]

-- What ends within what was read before was there.
Occurs-before :
    (seen p a sub b : Text)
    → seen ++ p ≡ a ++ (sub ++ b)
    → length (a ++ sub) ≤ length seen
    → contains seen sub ≡ true
Occurs-before seen p a sub b f h =
    let (w, g, _) = append_meet (a ++ sub) b seen p (append_assoc a sub b ∙ sym f) h in
    contains_complete seen sub (a, w, g ∙ append_assoc a sub w)

-- An occurrence that is not in what was read before lies in the tail and the new piece.
Occurs-combined :
    (seen tail p sub : Text)
    → length sub ≤ 4096
    → IsTail seen tail
    → contains seen sub ≡ false
    → Occurs sub (seen ++ p)
    → Occurs sub (tail ++ p)
Occurs-combined seen tail p sub short (before, e, cases) fresh (a, b, f) =
    let joined = sym (append_assoc before tail p) ∙ ap (λ s. s ++ p) (sym e) ∙ f in
    elim (Bool-cases (ltb (length a) (length before))) [
      | inl early ↦ absurd (within early cases)
      | inr late ↦
          let (w, _, g) = append_meet before (tail ++ p) a (sub ++ b) joined (at_least late) in
          (w, b, g)
    ]
  where
    at_least : ltb (length a) (length before) ≡ false → length before ≤ length a
    at_least h = ground (arith, h)

    ends_before :
        ltb (length a) (length before) ≡ true → length tail ≡ 4096 → length (a ++ sub) ≤ length seen
    ends_before early full =
        let len = length-append a sub in
        let all = length-append before tail in
        let same : length seen ≡ length (before ++ tail) = ap (λ s. length s) e in
        ground (arith, len, all, same, early, full, short)

    nothing_before : ltb (length a) (length before) ≡ true → before ≡ [] → ⊥
    nothing_before early none_before =
        let len : length before ≡ 0 = ap (λ s. length s) none_before in ground (arith, len, early)

    within : ltb (length a) (length before) ≡ true → (before ≡ []) ⊎ (length tail ≡ 4096) → ⊥
    within early (inl none_before) = nothing_before early none_before
    within early (inr full) = cc (Occurs-before seen p a sub b f (ends_before early full), fresh)

contains-behind : (before s sub : Text) → contains s sub ≡ true → contains (before ++ s) sub ≡ true
contains-behind before s sub h =
    let (a, b, e) = contains_sound s sub h in
    contains_complete (before ++ s) sub
      (before ++ a, b, ap (λ t. before ++ t) e ∙ sym (append_assoc before a (sub ++ b)))

contains-longer : (s p sub : Text) → contains s sub ≡ true → contains (s ++ p) sub ≡ true
contains-longer s p sub h =
    let (a, b, e) = contains_sound s sub h in
    contains_complete (s ++ p) sub (
      a,
      b ++ p,
      ap (λ t. t ++ p) e ∙ append_assoc a (sub ++ b) p ∙ ap (λ t. a ++ t) (append_assoc sub b p),
    )

-- No marker is in the text.
abbrev pub HasNone : Text → List Text → Type 0
HasNone s ms = All (λ m. contains s m ≡ false) ms

-- This marker is in the text.
abbrev pub HasOne : Text → List Text → Text → Type 0
HasOne s ms m = OneOf m ms × (contains s m ≡ true)

-- The text has none of the markers, or it has this one.
abbrev Found : Text → List Text → Text → Type 0
Found s ms m = ((is_empty m ≡ true) × HasNone s ms) ⊎ ((is_empty m ≡ false) × HasOne s ms m)

Found-cons :
    (s m : Text) (ms : List Text) (r : Text)
    → contains s m ≡ false
    → Found s ms r
    → Found s (m ∷ ms) r
Found-cons s m ms r h (inl (nothing, all)) = inl (nothing, (h, all))
Found-cons s m ms r h (inr (found, (one, has))) = inr (found, (inr one, has))

find_marker_here :
    (m : Text) (ms : List Text) (s : Text) → contains s m ≡ true → find_marker (m ∷ ms) s ≡ m
unfolding find_marker
find_marker_here m ms s h = rw h refl

find_marker_later :
    (m : Text) (ms : List Text) (s : Text)
    → contains s m ≡ false
    → find_marker (m ∷ ms) s ≡ find_marker ms s
unfolding find_marker
find_marker_later m ms s h = rw h refl

find_marker-Found :
    (ms : List Text) (s : Text) → All (λ m. is_empty m ≡ false) ms → Found s ms (find_marker ms s)
find_marker-Found [] s h = inl (unfold find_marker in refl, tt)
find_marker-Found (m ∷ ms) s (h, hs) = elim (Bool-cases (contains s m)) [
  | inl here ↦
      subst (Found s (m ∷ ms)) (sym (find_marker_here m ms s here)) (inr (h, (inl refl, here)))
  | inr other ↦
      subst (Found s (m ∷ ms)) (sym (find_marker_later m ms s other))
        (Found-cons s m ms (find_marker ms s) other (find_marker-Found ms s hs))
]

HasNone-longer :
    (seen tail p : Text) (ms : List Text)
    → IsTail seen tail
    → All (λ m. length m ≤ 4096) ms
    → HasNone seen ms
    → HasNone (tail ++ p) ms
    → HasNone (seen ++ p) ms
HasNone-longer seen tail p [] t _ _ _ = tt
HasNone-longer seen tail p (m ∷ ms) t (short, shorts) (gone, gones) (new, news) = (
  elim (Bool-cases (contains (seen ++ p) m)) [
    | inl there ↦ absurd (
        cc (
          contains_complete (tail ++ p) m
              (Occurs-combined seen tail p m short t gone (contains_sound (seen ++ p) m there)),
          new,
        ))
    | inr missing ↦ missing
  ],
  HasNone-longer seen tail p ms t shorts gones news,
)

-- What is known of a detector that has been given so much.
abbrev Inv : InstallerFailureDetector → Text → Type 0
Inv d seen =
    ((is_empty d.marker ≡ true) × IsTail seen d.tail × HasNone seen installer_failure_markers)
    ⊎ ((is_empty d.marker ≡ false) × HasOne seen installer_failure_markers d.marker)

are_short : All (λ m. length m ≤ 4096) installer_failure_markers
are_short = (omega arith, (omega arith, (omega arith, tt)))

write-Inv :
    (d : InstallerFailureDetector) (seen p : Text) → Inv d seen → Inv (write d p).0 (seen ++ p)
unfolding write
write-Inv d seen p (inr (found, (one, has))) =
    rw found (inr (found, (one, contains-longer seen p d.marker has)))
write-Inv d seen p (inl (nothing, t, gone)) =
    let joined = ap (λ s. s ++ p) t.1 ∙ append_assoc t.0 d.tail p in
    rw nothing
      (elim (find_marker-Found installer_failure_markers (d.tail ++ p) (refl, (refl, (refl, tt)))) [
        | inl (still, all) ↦ inl (
          still,
          keep_tail-IsTail seen d.tail p t,
          HasNone-longer seen d.tail p installer_failure_markers t are_short gone all,
        )
        | inr (found, (one, has)) ↦ inr (found, (one, rw joined (contains-behind t.0 _ _ has)))
      ])

write_all-Inv :
    (d : InstallerFailureDetector) (seen : Text) (ps : List Text)
    → Inv d seen
    → Inv (write_all d ps) (seen ++ flatten ps)
unfolding write_all
write_all-Inv d seen [] h = rw append-nil h
write_all-Inv d seen (p ∷ ps) h =
    rw (sym (append_assoc seen p (flatten ps)))
      (write_all-Inv (write d p).0 (seen ++ p) ps (write-Inv d seen p h))

error_marker-Inv :
    (d : InstallerFailureDetector) (seen : Text)
    → Inv d seen
    → ((error_marker d ≡ none) × HasNone seen installer_failure_markers)
      ⊎ ((m : Text) × (error_marker d ≡ some m) × HasOne seen installer_failure_markers m)
unfolding error_marker
error_marker-Inv d seen (inl (nothing, t, gone)) = inl (rw nothing refl, gone)
error_marker-Inv d seen (inr (found, one)) = inr (d.marker, rw found refl, one)

start : HasNone [] installer_failure_markers
unfolding contains has_prefix
start = (refl, (refl, (refl, tt)))

-- In whatever pieces the output of the installer comes, the detector has an error in the end exactly
-- if one of the markers is in the whole output, be it across the pieces, and the error names one that
-- is.
pub error_marker-write_all :
    (ps : List Text)
    → ((error_marker (write_all new_detector ps) ≡ none)
        × HasNone (flatten ps) installer_failure_markers)
      ⊎ ((m : Text) × (error_marker (write_all new_detector ps) ≡ some m)
          × HasOne (flatten ps) installer_failure_markers m)
error_marker-write_all ps =
    error_marker-Inv (write_all new_detector ps) (flatten ps)
      (write_all-Inv new_detector [] ps (inl (refl, ([], refl, inl refl), start)))
