-- ===== src/Qemulog/Sanitize/Laws.antt =====
-- What `sanitizeLine` promises, read off the one-pass machine; and the bounds of `skipEscape`.
use ubuntu_vm_template_build.Base.{
  ℕ, ◌≤◌, ◌<◌, ◌≡◌, sym, ap, ◌∙◌, true, false, [], ◌∷◌, ◌++◌, append-nil, within, All, Bytes,
  length,
}
use ubuntu_vm_template_build.Qemulog.Sanitize.Machine.{
  plain, in_csi, clean, clean_plain, clean_after_esc, clean-All_kept, clean-append,
  sanitize_line-clean, skip_escape-Resumes, step_mode, emitted, escape_mode,
}
use ubuntu_vm_template_build.Qemulog.Sanitize.{esc, is_kept, skip_escape, sanitize_line}

-- From an index inside the line, skipping an escape sequence moves on and does not leave the line.
pub skip_escape_bounds :
    (line : Bytes) (idx : ℕ)
    → idx < length line
    → (idx < skip_escape line idx) × (skip_escape line idx ≤ length line)
skip_escape_bounds line idx h =
    let (moves, stays, _) = skip_escape-Resumes line idx h in (moves, stays)

-- What is left holds only tabs and bytes from the space up other than DEL, and sanitizing it once
-- more changes nothing.
pub sanitize_line_clean :
    (line : Bytes)
    → All (λ b. is_kept b ≡ true) (sanitize_line line)
      × (sanitize_line (sanitize_line line) ≡ sanitize_line line)
sanitize_line_clean line =
    let kept : All (λ b. is_kept b ≡ true) (sanitize_line line) =
      rw sanitize_line-clean (clean-All_kept plain line) in
    (
      kept,
      sanitize_line-clean (sanitize_line line)
          ∙ ap (clean plain) (sym (append-nil (sanitize_line line)))
          ∙ clean-append (sanitize_line line) [] kept
          ∙ (unfold clean in append-nil (sanitize_line line)),
    )

clean_params :
    (params : Bytes) (f : ℕ) (rest : Bytes)
    → All (λ b. within 0x40 0x7e b ≡ false) params
    → within 0x40 0x7e f ≡ true
    → clean in_csi (params ++ (f ∷ rest)) ≡ clean plain rest
unfolding clean emitted step_mode
clean_params [] f rest _ final = rw final
clean_params (b ∷ params) f rest (more, later) final =
    rw more (clean_params params f rest later final)

clean_csi :
    (params : Bytes) (f : ℕ) (rest : Bytes)
    → All (λ b. within 0x40 0x7e b ≡ false) params
    → within 0x40 0x7e f ≡ true
    → clean plain (esc ∷ b'[' ∷ (params ++ (f ∷ rest))) ≡ clean plain rest
clean_csi params f rest h final =
    clean_plain esc _
    ∙ clean_after_esc b'[' _
    ∙ (unfold escape_mode in clean_params params f rest h final)

-- A control sequence `ESC [ params f`, with `f` the first byte in 0x40 to 0x7e, is cut out of a line
-- whose text before it holds nothing to strip.
pub sanitize_line_csi :
    (s params : Bytes) (f : ℕ) (rest : Bytes)
    → All (λ b. is_kept b ≡ true) s
    → All (λ b. within 0x40 0x7e b ≡ false) params
    → within 0x40 0x7e f ≡ true
    → sanitize_line (s ++ (esc ∷ b'[' ∷ (params ++ (f ∷ rest)))) ≡ s ++ sanitize_line rest
sanitize_line_csi s params f rest kept h final =
    sanitize_line-clean _
    ∙ clean-append s _ kept
    ∙ ap (λ t. s ++ t) (clean_csi params f rest h final)
    ∙ ap (λ t. s ++ t) (sym (sanitize_line-clean rest))
