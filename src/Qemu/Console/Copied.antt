-- ===== src/Qemu/Console/Copied.antt =====
-- internal/backend/qemu/qemu.go: where all the output of QEMU has been copied without an error, the
-- detector has seen all of it.
use ubuntu_vm_template_build.Base.{
  ℕ, ◌≡◌, refl, sym, ap, ◌∙◌, inl, inr, Bool, true, false, List, [], ◌∷◌, map, Option, none, some,
  ◌==◌, if◌then◌else◌, length, Bytes, Bool-cases, Option-cases,
}
use ubuntu_vm_template_build.Text.{Text}
use ubuntu_vm_template_build.Qemulog.Writer.{CompactingWriter}
use ubuntu_vm_template_build.Qemulog.Writer
use ubuntu_vm_template_build.Qemu.Detector.{InstallerFailureDetector, write, write_all}
use ubuntu_vm_template_build.Qemu.Host.{Stream, stdout, stderr, QemuHost}
use ubuntu_vm_template_build.Qemu.Console.{
  ConsoleError, Sink, Console, put, after_log, copy_unless, take_piece, take_pieces,
}

after_log-copied :
    (d : InstallerFailureDetector) (p : Text)
    (r : CompactingWriter (List Bytes) × ℕ × Option Text)
    → (after_log d p r).0.failure ≡ none
    → (after_log d p r).1 ≡ (write d p).0
after_log-copied d p (w, n, some e) h = absurd (cc h)
after_log-copied d p (w, n, none) h = elim (Bool-cases (n == length p)) [
  | inl all ↦ rw all refl
  | inr short ↦ absurd (cc (rw short at h))
]

module _ (host : QemuHost) where
  copy_unless-copied :
      (stream : Stream) (failure : Option ConsoleError) (sink : Sink)
      (d : InstallerFailureDetector) (p : Text)
      → sink.failure ≡ failure
      → (copy_unless host stream failure sink d p).0.failure ≡ none
      → (copy_unless host stream failure sink d p).1 ≡ (write d p).0
  copy_unless-copied stream (some e) sink d p f h = absurd (cc (f, h))
  copy_unless-copied stream none sink d p f h = after_log-copied d p _ h

  -- No error of either stream.
  abbrev pub IsFine : Console → Type 0
  IsFine c = (c.out.failure ≡ none) × (c.error_out.failure ≡ none)

  take_piece-copied :
      (c : Console) (piece : Stream × Text)
      → IsFine (take_piece host c piece)
      → (take_piece host c piece).detector ≡ (write c.detector piece.1).0
  unfolding take_piece
  take_piece-copied c (stdout, p) (f, g) =
      copy_unless-copied stdout c.out.failure c.out c.detector p refl f
  take_piece-copied c (stderr, p) (f, g) =
      copy_unless-copied stderr c.error_out.failure c.error_out c.detector p refl g

  copy_unless-before :
      (stream : Stream) (failure : Option ConsoleError) (sink : Sink)
      (d : InstallerFailureDetector) (p : Text)
      → sink.failure ≡ failure
      → (copy_unless host stream failure sink d p).0.failure ≡ none
      → failure ≡ none
  copy_unless-before stream (some e) sink d p f h = absurd (cc (f, h))
  copy_unless-before stream none sink d p f h = refl

  take_piece-before :
      (c : Console) (piece : Stream × Text) → IsFine (take_piece host c piece) → IsFine c
  unfolding take_piece
  take_piece-before c (stdout, p) (f, g) =
      (copy_unless-before stdout c.out.failure c.out c.detector p refl f, g)
  take_piece-before c (stderr, p) (f, g) =
      (f, copy_unless-before stderr c.error_out.failure c.error_out c.detector p refl g)

  take_pieces-before :
      (ps : List (Stream × Text)) (c : Console) → IsFine (take_pieces host c ps) → IsFine c
  unfolding take_pieces
  take_pieces-before [] c h = h
  take_pieces-before (piece ∷ ps) c h =
      take_piece-before c piece (take_pieces-before ps (take_piece host c piece) h)

  pub take_pieces-copied :
      (ps : List (Stream × Text)) (c : Console)
      → IsFine (take_pieces host c ps)
      → (take_pieces host c ps).detector ≡ write_all c.detector (map (λ piece. piece.1) ps)
  unfolding take_pieces write_all
  take_pieces-copied [] c h = refl
  take_pieces-copied (piece ∷ ps) c h =
      take_pieces-copied ps (take_piece host c piece) h
      ∙ ap (λ d. write_all d (map (λ piece. piece.1) ps))
          (take_piece-copied c piece (take_pieces-before ps (take_piece host c piece) h))
