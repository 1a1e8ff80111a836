-- ===== src/Proxmox/CloudInit/Escape.antt =====
-- internal/backend/proxmox/options.go: `encodeProxmoxURLValue`, over the bytes of the text.
use ubuntu_vm_template_build.Base.{
  ℕ, ◌+◌, ◌-◌, ◌/◌, ◌%◌, Bool, ◌||◌, List, [], ◌∷◌, ◌++◌, ltb, ◌==◌, within, if◌then◌else◌, codes,
}
use ubuntu_vm_template_build.Text.{Text, replace_all}

-- The bytes of a string: UTF-8.
unfoldable pub utf8 : Text → List ℕ
utf8 [] = []
utf8 (c ∷ s) =
    (if ltb c 0x80
      then c ∷ []
      else if ltb c 0x800
      then (0xc0 + c / 64) ∷ (0x80 + c % 64) ∷ []
      else if ltb c 0x10000
      then (0xe0 + c / 4096) ∷ (0x80 + c / 64 % 64) ∷ (0x80 + c % 64) ∷ []
      else (0xf0 + c / 262144)
        ∷ (0x80 + c / 4096 % 64)
        ∷ (0x80 + c / 64 % 64)
        ∷ (0x80 + c % 64)
        ∷ [])
    ++ utf8 s

unfoldable pub is_unreserved : ℕ → Bool
is_unreserved b =
    within b'0' b'9' b
    || within b'A' b'Z' b
    || within b'a' b'z' b
    || b == b'-'
    || b == b'_'
    || b == b'.'
    || b == b'~'

unfoldable pub hex_digit : ℕ → ℕ
hex_digit n = if ltb n 10 then b'0' + n else b'A' + (n - 10)

-- `url.QueryEscape` of a byte
unfoldable pub escape_byte : ℕ → Text
escape_byte b =
    if is_unreserved b
    then b ∷ []
    else if b == 32
    then b'+' ∷ []
    else b'%' ∷ hex_digit (b / 16) ∷ hex_digit (b % 16) ∷ []

unfoldable pub query_escape : List ℕ → Text
query_escape [] = []
query_escape (b ∷ bytes) = escape_byte b ++ query_escape bytes

unfoldable pub encode_proxmox_url_value : Text → Text
encode_proxmox_url_value value = replace_all (query_escape (utf8 value)) b'+' (codes "%20")
