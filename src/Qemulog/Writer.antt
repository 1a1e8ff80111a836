-- ===== src/Qemulog/Writer.antt =====
-- internal/qemulog/qemulog.go: `CompactingWriter` over an output that may fail. `put` is the
-- output's `Write`: the bytes and the output's state give the next state, and an error if any.
pub mod Feed
pub mod Lines
use ubuntu_vm_template_build.Base.{
  ℕ, ◌+◌, Bool, true, false, not, ◌&&◌, ◌||◌, List, [], ◌∷◌, ◌++◌, Option, none, some, leb, ◌==◌,
  if◌then◌else◌, Bytes, is_empty,
}
use ubuntu_vm_template_build.Qemulog.Sanitize.{sanitize_line}

pub record CompactingWriter (S : Type 0) : Type 0 where
  pub out : S
  pub line : Bytes
  pub skip_next_lf : Bool
  pub blank : Bool

abbrev pub new_compacting_writer : {S : Type 0} → S → CompactingWriter S
new_compacting_writer out = record { out = out; line = []; skip_next_lf = false; blank = false }

-- A byte that `hasVisibleContent` passes over.
unfoldable pub is_invisible : ℕ → Bool
is_invisible b = leb b b' ' || b == 0x7f

unfoldable pub has_visible_content : Bytes → Bool
unfolding is_invisible
has_visible_content [] = false
has_visible_content (b ∷ rest) = if is_invisible b then has_visible_content rest else true

abbrev pub newline : Bytes
newline = b'\n' ∷ []

-- `if err != nil { return err }`, with the writer as it stands then.
abbrev pub and_then :
    {S E : Type 0}
    → CompactingWriter S × Option E
    → (CompactingWriter S → CompactingWriter S × Option E)
    → CompactingWriter S × Option E
and_then (w, none) next = next w
and_then (w, some e) next = (w, some e)

module _ {S E : Type 0} (put : Bytes → S → S × Option E) where
  -- `w.out.Write(p)`
  unfoldable pub write_out : CompactingWriter S → Bytes → CompactingWriter S × Option E
  write_out w p = let (out, err) = put p w.out in (record w { out = out }, err)

  unfoldable pub emit_line : CompactingWriter S → Bytes → CompactingWriter S × Option E
  unfolding write_out
  emit_line w line =
      let clean = sanitize_line line in
      if not (has_visible_content clean)
      then (if w.blank then (w, none) else write_out (record w { blank = true }) newline)
      else and_then (write_out w clean)
          (λ w. and_then (write_out w newline) (λ w. (record w { blank = false }, none)))

  unfoldable pub emit_buffered_line : CompactingWriter S → CompactingWriter S × Option E
  emit_buffered_line w = emit_line (record w { line = [] }) w.line

  -- The `switch` of `Write`.
  unfoldable pub take_byte : CompactingWriter S → ℕ → CompactingWriter S × Option E
  take_byte w b =
      if b == b'\r'
      then and_then (emit_buffered_line w) (λ w. (record w { skip_next_lf = true }, none))
      else if b == b'\n'
      then emit_buffered_line w
      else (record w { line = w.line ++ b ∷ [] }, none)

  -- One round of the loop of `Write`.
  unfoldable pub write_byte : CompactingWriter S → ℕ → CompactingWriter S × Option E
  write_byte w b =
      if w.skip_next_lf && b == b'\n'
      then (record w { skip_next_lf = false }, none)
      else take_byte (record w { skip_next_lf = false }) b

  -- The rounds from the index `idx` on, and what `Write` returns.
  unfoldable pub write_from : ℕ → CompactingWriter S → Bytes → CompactingWriter S × ℕ × Option E
  write_from idx w [] = (w, idx, none)
  write_from idx w (b ∷ rest) =
      let (w', err) = write_byte w b in
      elim err [ some e ↦ (w', idx, some e) | none ↦ write_from (idx + 1) w' rest ]

  unfoldable pub write : CompactingWriter S → Bytes → CompactingWriter S × ℕ × Option E
  write w p = write_from 0 w p

  unfoldable pub flush : CompactingWriter S → CompactingWriter S × Option E
  flush w = if is_empty w.line then (w, none) else emit_buffered_line w
