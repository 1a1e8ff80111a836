-- ===== src/Vcenter/Console/Server.antt =====
-- internal/backend/vcenter/console.go: a server that has a log, and how the size and the ranges are
-- read from it.
use ubuntu_vm_template_build.Base.{
  ℕ, pos, ◌+◌, ◌-◌, ◌^◌, ◌<◌, ◌≡◌, refl, Bool, true, false, [], ◌∷◌, ◌++◌, none, some, ltb,
  if◌then◌else◌, is_empty, length, drop, take, codes, Bytes, All, ok, arith,
}
use ubuntu_vm_template_build.Text.{Text, trim_space, is_space, equal}
use ubuntu_vm_template_build.Text.Trim.{EndsOutside, trim_by_fixed, trim_space_solid}
use ubuntu_vm_template_build.Decimal.{digits}
use ubuntu_vm_template_build.Decimal.Parse.{AreDigits, digits-AreDigits, parse_non_negative-digits}
use ubuntu_vm_template_build.Vcenter.Console.{
  Request, head, get_range, Response, Server, after_last_slash, total_of, parse_content_range_total,
}

abbrev pub response : ℕ → Text → Text → Bytes → Response
response code status range_header body = record {
  status_code = code;
  status = status;
  content_length = pos (length body);
  length_header = [];
  range_header = range_header;
  body = some body;
}

abbrev pub not_allowed : Text
not_allowed = codes "405 Method Not Allowed"

-- The bytes from one index to another, the last included.
abbrev pub slice : ℕ → ℕ → Bytes → Bytes
slice start end log = take (end - start + 1) (drop start log)

-- `Content-Range`.
abbrev pub range_header : Text → ℕ → Text
range_header range total = codes "bytes " ++ (range ++ (b'/' ∷ digits total))

-- What a server answers that has the log, with or without HEAD and ranges.
unfoldable pub respond : Bool → Bool → Bytes → Request → Response
respond true ranges log head = response 200 (codes "200 OK") [] log
respond false ranges log head = response 405 not_allowed [] []
respond head_ok true log (get_range start end) =
    if ltb start (length log)
    then response 206 (codes "206 Partial Content")
        (range_header (digits start ++ (b'-' ∷ digits end)) (length log)) (slice start end log)
    else response 416 (codes "416 Range Not Satisfiable") (range_header (codes "*") (length log)) []
respond head_ok false log (get_range start end) = response 200 (codes "200 OK") [] log

-- The log when so much has been asked is the first bytes of the whole.
unfoldable pub serve : Bool → Bool → Bytes → (ℕ → ℕ) → Server
unfolding respond
serve head_ok ranges whole grown h request =
    ok (respond head_ok ranges (take (grown (length h)) whole) request)

All-EndsOutside : (p : ℕ → Bool) (s : Text) → All (λ c. p c ≡ false) s → EndsOutside p s
All-EndsOutside p [] h = tt
All-EndsOutside p (c ∷ []) h = h.0
All-EndsOutside p (c ∷ d ∷ s) h = All-EndsOutside p (d ∷ s) h.1

EndsOutside-append :
    (p : ℕ → Bool) (a s : Text) → is_empty s ≡ false → EndsOutside p s → EndsOutside p (a ++ s)
EndsOutside-append p [] s h k = k
EndsOutside-append p (c ∷ []) [] h k = absurd (cc h)
EndsOutside-append p (c ∷ []) (d ∷ s) h k = k
EndsOutside-append p (c ∷ b ∷ a) s h k = EndsOutside-append p (b ∷ a) s h k

digits_solid : (ds : Text) → AreDigits ds → All (λ c. is_space c ≡ false) ds
unfolding is_space
digits_solid [] h = tt
digits_solid (c ∷ ds) (h, hs) = (ground arith, digits_solid ds hs)

after_last_slash-digits : (ds : Text) → AreDigits ds → after_last_slash ds ≡ none
unfolding after_last_slash
after_last_slash-digits [] h = refl
after_last_slash-digits (c ∷ ds) (h, hs) = rw (after_last_slash-digits ds hs) (ground arith)

after_last_slash-append :
    (a s : Text) → after_last_slash s ≡ none → after_last_slash (a ++ (b'/' ∷ s)) ≡ some s
unfolding after_last_slash
after_last_slash-append [] s h = rw h refl
after_last_slash-append (c ∷ a) s h = rw (after_last_slash-append a s h) refl

digits_not_star : (ds : Text) → AreDigits ds → equal ds (codes "*") ≡ false
unfolding equal
digits_not_star [] h = refl
digits_not_star (c ∷ ds) (h, hs) = ground arith

total_of-digits : (n : ℕ) → n < 2 ^ 63 → total_of (some (digits n)) ≡ some n
unfolding total_of
total_of-digits n h =
    let (are, ne) = digits-AreDigits n in
    rw
      (
        ne,
        trim_space_solid (digits n) (digits_solid (digits n) are),
        digits_not_star (digits n) are,
      )
      (parse_non_negative-digits n h)

-- The total of a header is read back.
pub parse_content_range_total-range_header :
    (range : Text) (n : ℕ) → n < 2 ^ 63 → parse_content_range_total (range_header range n) ≡ some n
unfolding parse_content_range_total trim_space is_space
parse_content_range_total-range_header range n h =
    let (are, ne) = digits-AreDigits n in
    let ends = EndsOutside-append is_space (codes "bytes " ++ range) (b'/' ∷ digits n) refl (
      EndsOutside-append is_space (b'/' ∷ []) (digits n) ne
        (All-EndsOutside is_space (digits n) (digits_solid (digits n) are))) in
    rw
      (
        trim_by_fixed is_space (range_header range n) refl ends,
        after_last_slash-append (codes "bytes " ++ range) (digits n)
            (after_last_slash-digits (digits n) are),
      )
      (total_of-digits n h)
