-- ===== src/Common/Names.antt =====
-- internal/common/common.go: `SafeName`.
pub mod Laws
use ubuntu_vm_template_build.Base.{
  ℕ, Bool, true, false, ◌||◌, [], ◌∷◌, map, ◌==◌, within, if◌then◌else◌, is_empty, codes,
}
use ubuntu_vm_template_build.Text.{Text, trim_space, trim_by, mem_char}

abbrev pub fallback_name : Text
fallback_name = codes "ubuntu-vm-template-builder"

unfoldable pub is_safe_rune : ℕ → Bool
is_safe_rune r =
    within b'a' b'z' r
    || within b'A' b'Z' r
    || within b'0' b'9' r
    || r == b'-'
    || r == b'_'
    || r == b'.'

unfoldable pub safe_rune : ℕ → ℕ
unfolding is_safe_rune
safe_rune r = if is_safe_rune r then r else b'-'

-- The cutset of `strings.Trim(b.String(), "-_.")`
unfoldable pub is_edge : ℕ → Bool
is_edge r = r == b'-' || r == b'_' || r == b'.'

unfoldable pub clean_name : Text → Text
clean_name name = trim_by is_edge (map safe_rune name)

abbrev or_fallback : Text → Text
or_fallback s = if is_empty s then fallback_name else s

unfoldable pub safe_name : Text → Text
safe_name name =
    let name = trim_space name in
    if is_empty name then fallback_name else or_fallback (clean_name name)
