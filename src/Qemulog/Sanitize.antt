-- ===== src/Qemulog/Sanitize.antt =====
-- internal/qemulog/qemulog.go: `sanitizeLine` and the functions that skip an escape sequence.
-- An index loop `for idx < len(line)` is a recursion on the bytes left, beside the index.
pub mod Machine
pub mod Laws
use ubuntu_vm_template_build.Base.{
  ℕ, zero, suc, ◌+◌, Bool, true, false, not, ◌&&◌, ◌||◌, List, [], ◌∷◌, ◌++◌, Option, none, some,
  ltb, leb, ◌==◌, within, if◌then◌else◌, Bytes, length, drop, get_or,
}

abbrev pub esc : ℕ
esc = 0x1b

-- The loop of `skipCSI`; the first argument is `line[idx:]`.
unfoldable pub skip_csi_from : Bytes → ℕ → ℕ
skip_csi_from [] idx = idx
skip_csi_from (b ∷ rest) idx = if within 0x40 0x7e b then idx + 1 else skip_csi_from rest (idx + 1)

unfoldable pub skip_csi : Bytes → ℕ → ℕ
skip_csi line idx = skip_csi_from (drop idx line) idx

-- `bytes.HasPrefix(line[idx:], []byte{0x1b, '\\'})`
unfoldable pub is_string_terminator : Bytes → Bool
is_string_terminator (b ∷ c ∷ rest) = b == esc && c == b'\\'
is_string_terminator (b ∷ []) = false
is_string_terminator [] = false

unfoldable pub skip_osc_from : Bytes → ℕ → ℕ
unfolding is_string_terminator
skip_osc_from [] idx = idx
skip_osc_from (b ∷ rest) idx =
    if b == 0x07
    then idx + 1
    else if is_string_terminator (b ∷ rest)
    then idx + 2
    else skip_osc_from rest (idx + 1)

unfoldable pub skip_osc : Bytes → ℕ → ℕ
skip_osc line idx = skip_osc_from (drop idx line) idx

-- The bytes after ESC that take one more byte.
unfoldable pub is_designator : ℕ → Bool
is_designator c =
    c == b'('
    || c == b')'
    || c == b'*'
    || c == b'+'
    || c == b'-'
    || c == b'.'
    || c == b'/'
    || c == b'#'
    || c == b'%'

unfoldable pub skip_escape : Bytes → ℕ → ℕ
skip_escape line idx =
    if leb (length line) (idx + 1)
    then idx + 1
    else (let c = get_or line (idx + 1) 0 in
        if c == b'['
        then skip_csi line (idx + 2)
        else if c == b']'
        then skip_osc line (idx + 2)
        else if is_designator c
        then (if ltb (idx + 2) (length line) then idx + 3 else length line)
        else idx + 2)

-- `b == '\t' || (b >= ' ' && b != 0x7f)`
unfoldable pub is_kept : ℕ → Bool
is_kept b = b == b'\t' || (leb b' ' b && not (b == 0x7f))

-- The loop of `sanitizeLine`; `none` means that the fuel ran out.
unfoldable pub sanitize_loop : ℕ → Bytes → ℕ → Bytes → Option Bytes
sanitize_loop zero line idx sanitized = none
sanitize_loop (suc fuel) line idx sanitized =
    let b = get_or line idx 0 in
    let escaped = sanitize_loop fuel line (skip_escape line idx) sanitized in
    let kept = sanitize_loop fuel line (idx + 1) (sanitized ++ b ∷ []) in
    let dropped = sanitize_loop fuel line (idx + 1) sanitized in
    if leb (length line) idx
    then some sanitized
    else if b == esc
    then escaped
    else if is_kept b
    then kept
    else dropped

-- One round for each byte, and one to see the end.
abbrev pub sanitize_fuel : Bytes → ℕ
sanitize_fuel line = suc (length line)

abbrev or_empty : Option Bytes → Bytes
or_empty none = []
or_empty (some s) = s

unfoldable pub sanitize_line : Bytes → Bytes
sanitize_line line = or_empty (sanitize_loop (sanitize_fuel line) line 0 [])
