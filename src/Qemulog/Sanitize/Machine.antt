-- ===== src/Qemulog/Sanitize/Machine.antt =====
-- The index loop of `sanitizeLine` against a one-pass machine over the bytes.
use ubuntu_vm_template_build.Base.{
  ℕ, zero, suc, ◌+◌, ◌-◌, ◌≤◌, ◌<◌, ◌≡◌, refl, ap, ◌∙◌, inl, inr, true, false, ◌&&◌, [], ◌∷◌, ◌++◌,
  append-nil, append_assoc, some, arith, leb, leb→le, ◌==◌, if◌then◌else◌, within, All, ltb, ltb→lt,
  Bool-cases, Bytes, length, drop, drop_past, drop_below, drop-drop, length-drop, get_or,
}
use ubuntu_vm_template_build.Qemulog.Sanitize.{
  esc, skip_csi_from, skip_csi, is_string_terminator, skip_osc_from, skip_osc, is_designator,
  skip_escape, is_kept, sanitize_loop, sanitize_fuel, sanitize_line,
}

-- What the machine is in the middle of.
pub data Mode : Type 0 where
  plain after_esc in_csi in_osc skip_one : Mode

-- The mode that the byte after ESC leads to.
unfoldable pub escape_mode : ℕ → Mode
unfolding is_designator
escape_mode c =
    if c == b'['
    then in_csi
    else if c == b']'
    then in_osc
    else if is_designator c
    then skip_one
    else plain

-- One byte: the next mode, given whether a backslash comes next.
unfoldable pub step_mode : Mode → ℕ → Bytes → Mode
unfolding is_string_terminator
step_mode plain b rest = if b == esc then after_esc else plain
step_mode after_esc b rest = escape_mode b
step_mode in_csi b rest = if within 0x40 0x7e b then plain else in_csi
step_mode in_osc b rest =
    if b == 0x07 then plain else if is_string_terminator (b ∷ rest) then skip_one else in_osc
step_mode skip_one b rest = plain

-- The bytes that one byte leaves in the output.
unfoldable pub emitted : Mode → ℕ → Bytes
unfolding is_kept
emitted plain b = if b == esc then [] else if is_kept b then b ∷ [] else []
emitted _ b = []

unfoldable pub clean : Mode → Bytes → Bytes
clean m [] = []
clean m (b ∷ rest) = emitted m b ++ clean (step_mode m b rest) rest

-- Reading `s` in mode `m` and skipping to the index `r` are the same, where `s` starts at `idx`.
Skips : Mode → Bytes → ℕ → ℕ → Type 0
Skips m s idx r = (k : ℕ) × (r ≡ idx + k) × (k ≤ length s) × (clean m s ≡ clean plain (drop k s))

skip_csi_from-Skips : (s : Bytes) (idx : ℕ) → Skips in_csi s idx (skip_csi_from s idx)
unfolding Skips skip_csi_from clean step_mode emitted
skip_csi_from-Skips [] idx = (0, omega arith, omega arith, refl)
skip_csi_from-Skips (b ∷ rest) idx = elim (Bool-cases (within 0x40 0x7e b)) [
  | inl final ↦ (1, rw final (omega arith), omega arith, rw final)
  | inr more ↦
      let (k, at_k, within_s, same) = skip_csi_from-Skips rest (idx + 1) in
      (suc k, rw more (omega arith), omega arith, rw more same)
]

skip_osc_from-Skips : (s : Bytes) (idx : ℕ) → Skips in_osc s idx (skip_osc_from s idx)
unfolding Skips skip_osc_from clean step_mode emitted is_string_terminator
skip_osc_from-Skips [] idx = (0, omega arith, omega arith, refl)
skip_osc_from-Skips (b ∷ []) idx = (1, ground arith, omega arith, ground arith)
skip_osc_from-Skips (b ∷ c ∷ rest) idx =
    let (k, at_k, within_s, same) = skip_osc_from-Skips (c ∷ rest) (idx + 1) in
    elim (Bool-cases (b == 0x07)) [
      | inl bell ↦ (1, rw bell (omega arith), omega arith, rw bell)
      | inr mute ↦ elim (Bool-cases (b == esc && c == b'\\')) [
        | inl ends ↦ (2, rw (mute, ends) (omega arith), omega arith, rw (mute, ends))
        | inr more ↦ (suc k, rw (mute, more) (omega arith), omega arith, rw (mute, more) same)
      ]
    ]

-- The same about a suffix of the line.
Skips-drop :
    (m : Mode) (line : Bytes) (j r : ℕ)
    → j ≤ length line
    → Skips m (drop j line) j r
    → (j ≤ r) × (r ≤ length line) × (clean m (drop j line) ≡ clean plain (drop r line))
unfolding Skips
Skips-drop m line j r h (k, at_k, within_s, same) = (
  omega arith,
  omega (arith, length-drop j line),
  same ∙ ap (clean plain) (drop-drop k j line) ∙ rw (← at_k),
)

abbrev Resumes : Bytes → ℕ → ℕ → Type 0
Resumes line idx r =
    (idx < r)
    × (r ≤ length line)
    × (clean after_esc (drop (suc idx) line) ≡ clean plain (drop r line))

skip_escape_end :
    (line : Bytes) (idx : ℕ)
    → idx < length line
    → length line ≤ suc idx
    → Resumes line idx (skip_escape line idx)
unfolding skip_escape
skip_escape_end line idx h e =
    let ends : leb (length line) (idx + 1) ≡ true = ground arith in
    rw ends (
      omega arith,
      omega arith,
      rw (drop_past (suc idx) line e, drop_past (idx + 1) line (omega arith))
          (unfold clean in refl),
    )

pub clean_after_esc :
    (c : ℕ) (rest : Bytes) → clean after_esc (c ∷ rest) ≡ clean (escape_mode c) rest
unfolding clean emitted step_mode
clean_after_esc c rest = refl

-- The mode after the byte behind ESC, at the index two further.
Resumes-mode :
    (m : Mode) (line : Bytes) (idx r : ℕ)
    → suc idx < length line
    → Skips m (drop (idx + 2) line) (idx + 2) r
    → escape_mode (get_or line (suc idx) 0) ≡ m
    → Resumes line idx r
Resumes-mode m line idx r h s e =
    let (after, inside, same) = Skips-drop m line (idx + 2) r (omega arith) s in
    let next : drop (suc idx) line ≡ get_or line (suc idx) 0 ∷ drop (suc (suc idx)) line =
      drop_below (suc idx) line 0 h in
    let two : idx + 2 ≡ suc (suc idx) = omega arith in
    (
      omega arith,
      inside,
      rw next (
          clean_after_esc _ _
          ∙ ap (λ m'. clean m' (drop (suc (suc idx)) line)) e
          ∙ (rw two at same)),
    )

Skips-plain : (s : Bytes) (j : ℕ) → Skips plain s j j
unfolding Skips
Skips-plain s j = (0, omega arith, omega arith, refl)

-- `if idx+2 < len(line) { return idx + 3 }; return len(line)`
Skips-designator :
    (line : Bytes) (j : ℕ)
    → j ≤ length line
    → Skips skip_one (drop j line) j (if ltb j (length line) then j + 1 else length line)
unfolding Skips clean emitted step_mode
Skips-designator line j h = elim (Bool-cases (ltb j (length line))) [
  | inl more ↦ (
    1,
    rw more,
    omega (arith, length-drop j line, ltb→lt),
    rw (drop_below j line 0 (ltb→lt j _ more)) refl,
  )
  | inr last ↦ (0, rw last (ground arith), omega arith, rw (drop_past j line (ground arith)))
]

skip_escape_inner :
    (line : Bytes) (idx : ℕ) → suc idx < length line → Resumes line idx (skip_escape line idx)
unfolding skip_escape
skip_escape_inner line idx h =
    let more : leb (length line) (idx + 1) ≡ false = ground arith in
    let one : suc idx ≡ idx + 1 = omega arith in
    let c = get_or line (idx + 1) 0 in
    let go =
      λ (m : Mode) (r : ℕ) (s : Skips m (drop (idx + 2) line) (idx + 2) r) (e : escape_mode c ≡ m).
        Resumes-mode m line idx r h s (rw one e) in
    let three : idx + 3 ≡ idx + 2 + 1 = omega arith in
    elim (Bool-cases (c == b'[')) [
      | inl csi ↦
          rw (more, csi)
            (go in_csi _ (unfold skip_csi in skip_csi_from-Skips _ _)
              (unfold escape_mode in rw csi))
      | inr not_csi ↦ elim (Bool-cases (c == b']')) [
        | inl osc ↦
            rw (more, not_csi, osc)
              (go in_osc _ (unfold skip_osc in skip_osc_from-Skips _ _)
                (unfold escape_mode in rw (not_csi, osc)))
        | inr not_osc ↦ elim (Bool-cases (is_designator c)) [
          | inl sets ↦
              rw (more, not_csi, not_osc, sets, three)
                (go skip_one _ (Skips-designator line (idx + 2) (omega arith))
                  (unfold escape_mode in rw (not_csi, not_osc, sets)))
          | inr other ↦
              rw (more, not_csi, not_osc, other)
                (go plain _ (Skips-plain _ _) (unfold escape_mode in rw (not_csi, not_osc, other)))
        ]
      ]
    ]

-- Skipping an escape sequence moves on, stays inside the line, and leaves what the machine leaves.
pub skip_escape-Resumes :
    (line : Bytes) (idx : ℕ) → idx < length line → Resumes line idx (skip_escape line idx)
skip_escape-Resumes line idx h = elim (Bool-cases (leb (length line) (suc idx))) [
  | inl ends ↦ skip_escape_end line idx h (leb→le _ _ ends)
  | inr more ↦ skip_escape_inner line idx (ground arith)
]

pub clean_plain :
    (b : ℕ) (rest : Bytes)
    → clean plain (b ∷ rest) ≡ (
        if b == esc
        then clean after_esc rest
        else if is_kept b
        then b ∷ clean plain rest
        else clean plain rest)
unfolding clean emitted step_mode
clean_plain b rest = ground arith

-- With fuel for the bytes left, the loop ends, and appends what the machine emits.
sanitize_loop-clean :
    (fuel : ℕ) (line : Bytes) (idx : ℕ) (out : Bytes)
    → length line - idx < fuel
    → sanitize_loop fuel line idx out ≡ some (out ++ clean plain (drop idx line))
unfolding sanitize_loop
sanitize_loop-clean zero line idx out h = absurd (omega arith)
sanitize_loop-clean (suc fuel) line idx out h = elim (Bool-cases (leb (length line) idx)) [
  | inl ends ↦ rw (ends, drop_past idx line (leb→le _ _ ends)) (unfold clean in rw append-nil)
  | inr more ↦
      let inside : idx < length line = ground arith in
      let next = drop_below idx line 0 inside in
      let b = get_or line idx 0 in
      let one : suc idx ≡ idx + 1 = omega arith in
      let step = λ (o : Bytes). sanitize_loop-clean fuel line (idx + 1) o (omega arith) in
      let (moves, stays, same) = skip_escape-Resumes line idx inside in
      let over = sanitize_loop-clean fuel line (skip_escape line idx) out (omega arith) in
      rw (more, next, clean_plain b (drop (suc idx) line))
        (ground (
          arith,
          same,
          over,
          one,
          step out,
          step (out ++ b ∷ []),
          append_assoc out (b ∷ []) (clean plain (drop (idx + 1) line)),
        ))
]

-- `sanitizeLine` is the one-pass machine: its loop never runs out of fuel.
pub sanitize_line-clean : (line : Bytes) → sanitize_line line ≡ clean plain line
unfolding sanitize_line
sanitize_line-clean line = rw (sanitize_loop-clean (sanitize_fuel line) line 0 [] (omega arith))

-- Every byte that is left is a tab, or is printable and no DEL.
pub clean-All_kept : (m : Mode) (s : Bytes) → All (λ b. is_kept b ≡ true) (clean m s)
unfolding clean emitted
clean-All_kept m [] = tt
clean-All_kept plain (b ∷ rest) = ground (arith, clean-All_kept (step_mode plain b rest) rest)
clean-All_kept after_esc (b ∷ rest) = clean-All_kept (step_mode after_esc b rest) rest
clean-All_kept in_csi (b ∷ rest) = clean-All_kept (step_mode in_csi b rest) rest
clean-All_kept in_osc (b ∷ rest) = clean-All_kept (step_mode in_osc b rest) rest
clean-All_kept skip_one (b ∷ rest) = clean-All_kept (step_mode skip_one b rest) rest

pub clean_kept :
    (b : ℕ) (rest : Bytes) → is_kept b ≡ true → clean plain (b ∷ rest) ≡ b ∷ clean plain rest
unfolding clean emitted step_mode is_kept
clean_kept b rest h = ground arith

-- A text with nothing to strip is kept whole, in front of whatever follows.
pub clean-append :
    (s rest : Bytes)
    → All (λ b. is_kept b ≡ true) s
    → clean plain (s ++ rest) ≡ s ++ clean plain rest
clean-append [] rest _ = refl
clean-append (b ∷ s) rest (kept, more) =
    clean_kept b (s ++ rest) kept ∙ ap (◌∷◌ b) (clean-append s rest more)
