-- ===== src/Qemulog/Writer/Feed.antt =====
-- internal/qemulog/qemulog.go: how `Write` depends on where the input is cut and on its line ends,
-- for every output, failing ones included.
use ubuntu_vm_template_build.Base.{
  ℕ, ◌+◌, ◌≡◌, refl, ◌∙◌, inl, inr, true, false, [], ◌∷◌, ◌++◌, Option, none, some, ◌==◌, arith,
  if◌then◌else◌, ==_iff, Bool-cases, Option-cases, All, Bytes,
}
use ubuntu_vm_template_build.Qemulog.Writer.{
  CompactingWriter, and_then, emit_line, emit_buffered_line, take_byte, write_byte, write_from,
  write,
}

-- Go on with the bytes `q` after what a call of `Write` has returned.
abbrev pub resume :
    {S E : Type 0}
    → (Bytes → S → S × Option E)
    → CompactingWriter S × ℕ × Option E
    → Bytes
    → CompactingWriter S × ℕ × Option E
resume put (w, n, none) q = write_from put n w q
resume put (w, n, some e) q = (w, n, some e)

-- The text with every LF written as CR LF.
abbrev pub with_crlf : Bytes → Bytes
with_crlf [] = []
with_crlf (b ∷ rest) = if b == b'\n' then b'\r' ∷ b'\n' ∷ with_crlf rest else b ∷ with_crlf rest

module _ {S E : Type 0} (put : Bytes → S → S × Option E) where
  write_from-append :
      (p q : Bytes) (idx : ℕ) (w : CompactingWriter S)
      → write_from put idx w (p ++ q) ≡ resume put (write_from put idx w p) q
  unfolding write_from
  write_from-append [] q idx w = refl
  write_from-append (b ∷ p) q idx w = elim (Option-cases (write_byte put w b).1) [
    | inl fine ↦ rw (fine, write_from) (write_from-append p q (idx + 1) (write_byte put w b).0)
    | inr (e, failed) ↦ rw (failed, write_from)
  ]

  -- `Write` of `p ++ q` is `Write` of `p` and, unless that fails, of `q`; the bytes are counted on.
  pub write-append :
      (p q : Bytes) (w : CompactingWriter S) → write put w (p ++ q) ≡ resume put (write put w p) q
  unfolding write
  write-append p q w = write_from-append p q 0 w

  emit_line_skip :
      (w : CompactingWriter S) (line : Bytes)
      → (emit_line put w line).0.skip_next_lf ≡ w.skip_next_lf
  unfolding emit_line
  emit_line_skip w line = ground arith

  -- What `Write` returns after one byte.
  abbrev after_byte : ℕ → CompactingWriter S × Option E → CompactingWriter S × ℕ × Option E
  after_byte idx (w, none) = (w, idx + 1, none)
  after_byte idx (w, some e) = (w, idx, some e)

  -- The same writer and the same error; the counts of bytes may differ.
  abbrev Agree : CompactingWriter S × ℕ × Option E → CompactingWriter S × ℕ × Option E → Type 0
  Agree a b = (a.0 ≡ b.0) × (a.2 ≡ b.2)

  write_from_cons :
      (idx : ℕ) (w : CompactingWriter S) (b : ℕ) (rest : Bytes)
      → write_from put idx w (b ∷ rest) ≡ resume put (after_byte idx (write_byte put w b)) rest
  unfolding write_from
  write_from_cons idx w b rest = elim (Option-cases (write_byte put w b).1) [
    | inl fine ↦ rw (fine, write_from)
    | inr (e, failed) ↦ rw (failed, write_from)
  ]

  write_byte_cr :
      (w : CompactingWriter S)
      → w.skip_next_lf ≡ false
      → write_byte put w b'\r'
        ≡ and_then
            (emit_line put (record w { line = []; skip_next_lf = false }) w.line)
            (λ w. (record w { skip_next_lf = true }, none))
  unfolding write_byte take_byte emit_buffered_line
  write_byte_cr w h = rw h

  write_byte_lf :
      (w : CompactingWriter S)
      → w.skip_next_lf ≡ false
      → write_byte put w b'\n' ≡ emit_line put (record w { line = []; skip_next_lf = false }) w.line
  unfolding write_byte take_byte emit_buffered_line
  write_byte_lf w h = rw h

  lf_after_cr :
      (idx idx' : ℕ) (r : CompactingWriter S × Option E)
      → r.0.skip_next_lf ≡ false
      → Agree
          (resume put
            (after_byte idx (and_then r (λ w. (record w { skip_next_lf = true }, none))))
            (b'\n' ∷ []))
          (after_byte idx' r)
  unfolding write_from write_byte
  lf_after_cr idx idx' (w, none) h = ground arith
  lf_after_cr idx idx' (w, some e) h = (refl, refl)

  -- CR and LF in a row do what LF does.
  write_from_crlf :
      (idx idx' : ℕ) (w : CompactingWriter S)
      → w.skip_next_lf ≡ false
      → Agree (write_from put idx w (b'\r' ∷ b'\n' ∷ [])) (after_byte idx' (write_byte put w b'\n'))
  write_from_crlf idx idx' w h =
      let empty = record w { line = []; skip_next_lf = false } in
      rw (write_from_cons idx w b'\r', write_byte_cr w h, write_byte_lf w h)
        (lf_after_cr idx idx' (emit_line put empty w.line) (emit_line_skip empty w.line ∙ refl))

  write_byte_skip :
      (w : CompactingWriter S) (b : ℕ)
      → w.skip_next_lf ≡ false
      → (b == b'\r') ≡ false
      → (write_byte put w b).0.skip_next_lf ≡ false
  unfolding write_byte take_byte emit_buffered_line
  write_byte_skip w b h other =
      ground (arith, emit_line_skip (record w { line = []; skip_next_lf = false }) w.line)

  after_byte_skip :
      (idx : ℕ) (r : CompactingWriter S × Option E)
      → (after_byte idx r).0.skip_next_lf ≡ r.0.skip_next_lf
  after_byte_skip idx (w, none) = refl
  after_byte_skip idx (w, some e) = refl

  resume-Agree :
      (p q : Bytes) (a b : CompactingWriter S × ℕ × Option E)
      → Agree a b
      → b.0.skip_next_lf ≡ false
      → ((i j : ℕ) (w : CompactingWriter S)
          → w.skip_next_lf ≡ false
          → Agree (write_from put i w p) (write_from put j w q))
      → Agree (resume put a p) (resume put b q)
  resume-Agree p q (w, i, none) (v, j, none) h s next = rw h.0 (next i j v s)
  resume-Agree p q (w, i, none) (v, j, some e) h s next = cc
  resume-Agree p q (w, i, some d) (v, j, none) h s next = cc
  resume-Agree p q (w, i, some d) (v, j, some e) h s next = h

  after_byte-Agree :
      (idx idx' : ℕ) (r : CompactingWriter S × Option E)
      → Agree (after_byte idx r) (after_byte idx' r)
  after_byte-Agree idx idx' (w, none) = (refl, refl)
  after_byte-Agree idx idx' (w, some e) = (refl, refl)

  Agree-at :
      (a a' b b' : CompactingWriter S × ℕ × Option E) → a ≡ a' → b ≡ b' → Agree a' b' → Agree a b
  Agree-at a a' b b' e f h = rw (e, f) h

  with_crlf-Agree :
      (p : Bytes) (idx idx' : ℕ) (w : CompactingWriter S)
      → All (λ b. (b == b'\r') ≡ false) p
      → w.skip_next_lf ≡ false
      → Agree (write_from put idx w (with_crlf p)) (write_from put idx' w p)
  with_crlf-Agree [] idx idx' w _ s = unfold write_from in (refl, refl)
  with_crlf-Agree (b ∷ p) idx idx' w (other, others) s =
      let next = λ (i j : ℕ) (v : CompactingWriter S) (t : v.skip_next_lf ≡ false).
        with_crlf-Agree p i j v others t in
      let after = after_byte_skip idx' (write_byte put w b) ∙ write_byte_skip w b s other in
      elim (Bool-cases (b == b'\n')) [
        | inl lf ↦ rw lf (
            Agree-at _ _ _ _ (write_from-append (b'\r' ∷ b'\n' ∷ []) (with_crlf p) idx w)
              (write_from_cons idx' w b p)
              (resume-Agree (with_crlf p) p (write_from put idx w (b'\r' ∷ b'\n' ∷ []))
                (after_byte idx' (write_byte put w b))
                (rw ((==_iff b _).0 lf) (write_from_crlf idx idx' w s)) after next))
        | inr plain ↦
            rw (plain, write_from_cons idx w b, write_from_cons idx' w b)
              (resume-Agree (with_crlf p) p _ _ (after_byte-Agree idx idx' _) after next)
      ]

  -- A text without CR, read at a line start, leaves the writer and the error that its CR LF form
  -- leaves.
  pub write-with_crlf :
      (p : Bytes) (w : CompactingWriter S)
      → All (λ b. (b == b'\r') ≡ false) p
      → w.skip_next_lf ≡ false
      → ((write put w (with_crlf p)).0 ≡ (write put w p).0)
        × ((write put w (with_crlf p)).2 ≡ (write put w p).2)
  unfolding write
  write-with_crlf p w h s = with_crlf-Agree p 0 0 w h s
