-- ===== src/Proxmox/CloudInit/RoundTrip.antt =====
-- internal/backend/proxmox/options.go: what a server reads from an encoded value.
use ubuntu_vm_template_build.Base.{
  ℕ, ◌+◌, ◌-◌, ◌*◌, ◌/◌, ◌%◌, ◌<◌, ◌≡◌, refl, sym, ap, inl, inr, true, false, List, [], ◌∷◌, ◌++◌,
  append_assoc, ltb, ◌==◌, if◌then◌else◌, Bool-cases, All, All-append, codes, arith,
}
use ubuntu_vm_template_build.Text.{Text, replace_all}
use ubuntu_vm_template_build.Proxmox.CloudInit.Escape.{
  utf8, is_unreserved, hex_digit, escape_byte, query_escape, encode_proxmox_url_value,
}

abbrev hex_value : ℕ → ℕ
hex_value c = if ltb c b'A' then c - b'0' else c - b'A' + 10

-- Percent-decoding, where `+` stands for itself, as in the path of a URL.
pub percent_decode : Text → List ℕ
percent_decode [] = []
percent_decode (c ∷ []) = c ∷ []
percent_decode (c ∷ h ∷ []) = c ∷ h ∷ []
percent_decode (c ∷ h ∷ l ∷ s) =
    let escaped = (hex_value h * 16 + hex_value l) ∷ percent_decode s in
    let plain = c ∷ percent_decode (h ∷ l ∷ s) in if c == b'%' then escaped else plain

replace_all-append :
    (s t new : Text) (old : ℕ)
    → replace_all (s ++ t) old new ≡ replace_all s old new ++ replace_all t old new
unfolding replace_all
replace_all-append [] t new old = refl
replace_all-append (c ∷ s) t new old = rw (replace_all-append s t new old, append_assoc) refl

percent_decode_plain :
    (c : ℕ) (s : Text) → (c == b'%') ≡ false → percent_decode (c ∷ s) ≡ c ∷ percent_decode s
unfolding percent_decode
percent_decode_plain c [] h = refl
percent_decode_plain c (d ∷ []) h = refl
percent_decode_plain c (d ∷ e ∷ s) h = rw h refl

percent_decode_escape :
    (h l : ℕ) (s : Text)
    → percent_decode (b'%' ∷ h ∷ l ∷ s) ≡ (hex_value h * 16 + hex_value l) ∷ percent_decode s
unfolding percent_decode
percent_decode_escape h l s = refl

hex_value-hex_digit : (n : ℕ) → n < 16 → hex_value (hex_digit n) ≡ n
unfolding hex_digit
hex_value-hex_digit n h = ground arith

hex_digit-plus : (n : ℕ) → n < 16 → (hex_digit n == b'+') ≡ false
unfolding hex_digit
hex_digit-plus n h = ground arith

not_plus : (b : ℕ) → is_unreserved b ≡ true → (b == b'+') ≡ false
unfolding is_unreserved
not_plus b h = ground arith

not_percent : (b : ℕ) → is_unreserved b ≡ true → (b == b'%') ≡ false
unfolding is_unreserved
not_percent b h = ground arith

space_is : (b : ℕ) → (b == 32) ≡ true → b ≡ 32
space_is b h = ground arith

hex_pair :
    (b : ℕ) → b < 256 → hex_value (hex_digit (b / 16)) * 16 + hex_value (hex_digit (b % 16)) ≡ b
hex_pair b h =
    rw (hex_value-hex_digit (b / 16) (omega arith), hex_value-hex_digit (b % 16) (omega arith))
      (omega arith)

percent_decode-escape_byte :
    (b : ℕ) (s : Text)
    → b < 256
    → percent_decode (replace_all (escape_byte b) b'+' (codes "%20") ++ s) ≡ b ∷ percent_decode s
unfolding escape_byte replace_all percent_decode
percent_decode-escape_byte b s small = elim (Bool-cases (is_unreserved b)) [
  | inl plain ↦ rw (plain, not_plus b plain) (percent_decode_plain b s (not_percent b plain))
  | inr special ↦ elim (Bool-cases (b == 32)) [
    | inl space ↦ rw (special, space) (ap (λ c. c ∷ percent_decode s) (sym (space_is b space)))
    | inr other ↦
        rw
          (
            special,
            other,
            hex_digit-plus (b / 16) (omega arith),
            hex_digit-plus (b % 16) (omega arith),
          )
          (ap (λ c. c ∷ percent_decode s) (hex_pair b small))
  ]
]

utf8-bytes : (s : Text) → All (λ c. c < 0x110000) s → All (λ b. b < 256) (utf8 s)
unfolding utf8
utf8-bytes [] _ = tt
utf8-bytes (c ∷ s) (h, hs) = All-append (λ b. b < 256) _ (utf8 s) (ground arith) (utf8-bytes s hs)

percent_decode-query_escape :
    (bytes : List ℕ)
    → All (λ b. b < 256) bytes
    → percent_decode (replace_all (query_escape bytes) b'+' (codes "%20")) ≡ bytes
unfolding query_escape replace_all percent_decode
percent_decode-query_escape [] _ = refl
percent_decode-query_escape (b ∷ bytes) (h, hs) =
    rw
      (
        replace_all-append (escape_byte b) (query_escape bytes) (codes "%20") b'+',
        percent_decode-escape_byte b (replace_all (query_escape bytes) b'+' (codes "%20")) h,
        percent_decode-query_escape bytes hs,
      )
      refl

-- An encoded value, percent-decoded, gives the bytes of the value back, spaces and plus signs too.
pub percent_decode-encode_proxmox_url_value :
    (value : Text)
    → All (λ c. c < 0x110000) value
    → percent_decode (encode_proxmox_url_value value) ≡ utf8 value
unfolding encode_proxmox_url_value
percent_decode-encode_proxmox_url_value value h =
    percent_decode-query_escape (utf8 value) (utf8-bytes value h)
