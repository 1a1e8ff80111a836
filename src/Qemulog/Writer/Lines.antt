-- ===== src/Qemulog/Writer/Lines.antt =====
-- internal/qemulog/qemulog.go: the whole of `CompactingWriter`, over an output that does not fail,
-- against a description by lines: end every line with LF, cut the text into lines, sanitize each,
-- and keep one of several lines in a row without visible content.
use ubuntu_vm_template_build.Base.{
  ℕ, ◌+◌, ◌≡◌, refl, sym, ap, ◌∙◌, inl, inr, Bool, true, false, not, ◌&&◌, List, [], ◌∷◌, ◌++◌,
  append-nil, append_assoc, Option, none, ◌==◌, arith, if◌then◌else◌, Bool-cases, All, Bytes,
  is_empty, length, flatten, flatten-append,
}
use ubuntu_vm_template_build.Qemulog.Sanitize.{is_kept, sanitize_line}
use ubuntu_vm_template_build.Qemulog.Sanitize.Laws.{sanitize_line_clean}
use ubuntu_vm_template_build.Qemulog.Writer.{
  CompactingWriter, new_compacting_writer, has_visible_content, newline, emit_line,
  emit_buffered_line, take_byte, write_byte, write_from, write, flush,
}

-- An output that keeps all that is written to it.
abbrev pub collect : Bytes → Bytes → Bytes × Option ⊥
collect p out = (out ++ p, none)

-- CR LF and CR alone become LF; the flag is set behind a CR.
abbrev pub with_lf : Bool → Bytes → Bytes
with_lf after_cr [] = []
with_lf after_cr (b ∷ rest) =
    let skipped = with_lf false rest in
    let cr = b'\n' ∷ with_lf true rest in
    let other = b ∷ with_lf false rest in
    if after_cr && b == b'\n' then skipped else if b == b'\r' then cr else other

-- The lines of a text, the first of which begins with `line`. What stands behind the last LF is a
-- line if it is not empty.
abbrev pub lines : Bytes → Bytes → List Bytes
lines line [] = if is_empty line then [] else line ∷ []
lines line (b ∷ rest) =
    let ended = line ∷ lines [] rest in
    let more = lines (line ++ b ∷ []) rest in if b == b'\n' then ended else more

-- What one line adds to the output, where the flag says that the line before was blank.
abbrev pub shown : Bool → Bytes → List Bytes
shown blank line =
    if has_visible_content (sanitize_line line)
    then (sanitize_line line ++ newline) ∷ []
    else if blank
    then []
    else newline ∷ []

abbrev pub squeeze : Bool → List Bytes → List Bytes
squeeze blank [] = []
squeeze blank (line ∷ rest) =
    shown blank line ++ squeeze (not (has_visible_content (sanitize_line line))) rest

emit_line-shown :
    (w : CompactingWriter Bytes) (line : Bytes)
    → emit_line collect w line ≡ (
      record w {
        out = w.out ++ flatten (shown w.blank line);
        blank = not (has_visible_content (sanitize_line line));
      },
      none,
    )
unfolding emit_line
emit_line-shown w line = ground (
  arith,
  append-nil w.out,
  append-nil newline,
  append_assoc w.out (sanitize_line line) newline,
  append-nil (sanitize_line line ++ newline),
)

-- The output in the end, from a writer in any state.
abbrev pub remaining : CompactingWriter Bytes → Bytes → Bytes
remaining w p = flatten (squeeze w.blank (lines w.line (with_lf w.skip_next_lf p)))

shown-append :
    (w : CompactingWriter Bytes) (rest : Bytes)
    → (w.out ++ flatten (shown w.blank w.line))
        ++ flatten (squeeze (not (has_visible_content (sanitize_line w.line))) (lines [] rest))
      ≡ w.out ++ flatten (squeeze w.blank (w.line ∷ lines [] rest))
shown-append w rest =
    append_assoc w.out _ _ ∙ ap (λ s. w.out ++ s) (sym (flatten-append (shown w.blank w.line) _))

-- One byte: no error, and the output so far with what remains stays the same.
write_byte-remaining :
    (w : CompactingWriter Bytes) (b : ℕ) (p : Bytes)
    → ((write_byte collect w b).1 ≡ none)
      × ((write_byte collect w b).0.out ++ remaining (write_byte collect w b).0 p
          ≡ w.out ++ remaining w (b ∷ p))
unfolding write_byte take_byte emit_buffered_line
write_byte-remaining w b p = elim (Bool-cases (w.skip_next_lf && b == b'\n')) [
  | inl skipped ↦ rw skipped (refl, refl)
  | inr read ↦ elim (Bool-cases (b == b'\r')) [
    | inl cr ↦
        rw (read, cr, emit_line-shown (record w { line = []; skip_next_lf = false }) w.line)
          (refl, shown-append w (with_lf true p))
    | inr not_cr ↦ elim (Bool-cases (b == b'\n')) [
      | inl lf ↦
          rw
            (
              read,
              not_cr,
              lf,
              emit_line-shown (record w { line = []; skip_next_lf = false }) w.line,
            )
            (refl, shown-append w (with_lf false p))
      | inr other ↦ rw (read, not_cr, other) (refl, refl)
    ]
  ]
]

pub flush-remaining :
    (w : CompactingWriter Bytes) → (flush collect w).0.out ≡ w.out ++ remaining w []
unfolding flush emit_buffered_line
flush-remaining w = elim (Bool-cases (is_empty w.line)) [
  | inl nothing ↦ rw nothing (sym (append-nil w.out))
  | inr line ↦
      rw (line, emit_line-shown (record w { line = [] }) w.line)
        (ap (λ s. w.out ++ flatten s) (sym (append-nil (shown w.blank w.line))))
]

write_from_fine :
    (idx : ℕ) (w : CompactingWriter Bytes) (b : ℕ) (p : Bytes)
    → (write_byte collect w b).1 ≡ none
    → write_from collect idx w (b ∷ p) ≡ write_from collect (idx + 1) (write_byte collect w b).0 p
unfolding write_from
write_from_fine idx w b p fine = rw (fine, write_from)

-- Written whole, a text leaves an output that goes on with what follows as if it were read in one.
pub write_from-remaining :
    (p q : Bytes) (idx : ℕ) (w : CompactingWriter Bytes)
    → ((write_from collect idx w p).1 ≡ idx + length p)
      × ((write_from collect idx w p).2 ≡ none)
      × ((write_from collect idx w p).0.out ++ remaining (write_from collect idx w p).0 q
          ≡ w.out ++ remaining w (p ++ q))
write_from-remaining [] q idx w = unfold write_from in (omega arith, refl, refl)
write_from-remaining (b ∷ p) q idx w =
    let (fine, same) = write_byte-remaining w b (p ++ q) in
    let (count, end, out) = write_from-remaining p q (idx + 1) (write_byte collect w b).0 in
    rw (write_from_fine idx w b p fine) (omega (arith, count), end, out ∙ same)

-- Written to an output that does not fail, a whole log takes all its bytes, with no error, and after
-- `Flush` the output is what the description by lines gives.
pub write-squeeze :
    (p : Bytes)
    → ((write collect (new_compacting_writer []) p).1 ≡ length p)
      × ((write collect (new_compacting_writer []) p).2 ≡ none)
      × ((flush collect (write collect (new_compacting_writer []) p).0).0.out
          ≡ flatten (squeeze false (lines [] (with_lf false p))))
unfolding write
write-squeeze p =
    let (count, end, out) = write_from-remaining p [] 0 (new_compacting_writer []) in
    (
      omega (arith, count),
      end,
      flush-remaining _ ∙ out ∙ ap (λ s. remaining (new_compacting_writer []) s) (append-nil p),
    )

-- A line of the output: sanitized text and LF.
abbrev pub IsOutputLine : Bytes → Type 0
IsOutputLine line = (text : Bytes) × (line ≡ text ++ newline) × All (λ b. is_kept b ≡ true) text

-- No line without visible content stands behind another; the flag says that one stands in front.
abbrev pub NoBlankPair : Bool → List Bytes → Type 0
NoBlankPair blank [] = Unit
NoBlankPair blank (line ∷ rest) =
    (blank ≡ true → has_visible_content line ≡ true)
    × NoBlankPair (not (has_visible_content line)) rest

has_visible_content-newline :
    (s : Bytes) → has_visible_content (s ++ newline) ≡ has_visible_content s
unfolding has_visible_content
has_visible_content-newline [] = refl
has_visible_content-newline (b ∷ s) = ground (arith, has_visible_content-newline s)

abbrev Good : Bool → List Bytes → Type 0
Good blank ls = All IsOutputLine ls × NoBlankPair blank ls

shown-Good :
    (line : Bytes) (blank : Bool) (rest : List Bytes)
    → Good (not (has_visible_content (sanitize_line line))) rest
    → Good blank (shown blank line ++ rest)
unfolding has_visible_content
shown-Good line blank rest (good, apart) =
    elim (Bool-cases (has_visible_content (sanitize_line line))) [
      | inl visible ↦
          let same = has_visible_content-newline (sanitize_line line) in
          rw visible (
            ((sanitize_line line, refl, (sanitize_line_clean line).0), good),
            ((λ _. same ∙ visible), rw same apart),
          )
      | inr hidden ↦ elim (Bool-cases blank) [
        | inl again ↦ rw (hidden, again) (good, rw hidden at apart)
        | inr first ↦ rw (hidden, first) ((([], refl, tt), good), ((λ e. cc), rw hidden at apart))
      ]
    ]

squeeze-Good : (ls : List Bytes) (blank : Bool) → Good blank (squeeze blank ls)
squeeze-Good [] blank = (tt, tt)
squeeze-Good (line ∷ ls) blank =
    shown-Good line blank _ (squeeze-Good ls (not (has_visible_content (sanitize_line line))))

-- What a whole log leaves in an output that does not fail is a list of lines of sanitized text, none
-- without visible content right behind another such.
pub write-NoBlankPair :
    (p : Bytes)
    → (ls : List Bytes) × ((flush collect (write collect (new_compacting_writer []) p).0).0.out
        ≡ flatten ls)
      × All IsOutputLine ls
      × NoBlankPair false ls
write-NoBlankPair p =
    let good = squeeze-Good (lines [] (with_lf false p)) false in
    (squeeze false (lines [] (with_lf false p)), (write-squeeze p).2, good.0, good.1)
