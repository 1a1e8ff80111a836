-- ===== src/Vcenter/Console.antt =====
-- internal/backend/vcenter/console.go: the console of the installer, streamed from the growing log
-- on a datastore. ServiceTicket and DownloadRequest are one request to a server that answers by what
-- was asked before. Printing of warnings and the clock are left out.
pub mod Server
pub mod Size
pub mod Served
pub mod Streamed
use ubuntu_vm_template_build.Base.{
  ℕ, zero, suc, ℤ, pos, negsuc, ◌+◌, ◌-◌, Bool, false, ◌||◌, List, [], ◌∷◌, ◌++◌, Option, none,
  some, ltb, ◌==◌, if◌then◌else◌, is_empty, length, drop, codes, Bytes, Result, ok, err,
}
use ubuntu_vm_template_build.Text.{Text, trim_space, to_lower, contains, equal}
use ubuntu_vm_template_build.Decimal.Parse.{parse_non_negative}
use ubuntu_vm_template_build.Steps.{Step, done, fail, ◌>>=◌, ask}
use ubuntu_vm_template_build.Qemulog.Writer.{CompactingWriter, new_compacting_writer, write, flush}

-- The method, and the range of a GET.
pub data Request : Type 0 where
  head : Request
  get_range : ℕ → ℕ → Request

-- What the code reads of an `http.Response`; the body is `none` where reading it fails.
pub record Response : Type 0 where
  pub status_code : ℕ
  pub status : Text
  pub content_length : ℤ
  pub length_header : Text
  pub range_header : Text
  pub body : Option Bytes

-- An error: the code of a datastoreHTTPStatusError, and the message.
pub record TailError : Type 0 where
  pub code : Option ℕ
  pub message : Text

pub data Event : Type 0 where
  requested : Request → Result TailError Response → Event

abbrev pub Server : Type 0
Server = List Event → Request → Result TailError Response

abbrev pub Tail : Type 0 → Type 0
Tail = Step Event TailError

unfoldable pub answered : {A : Type 0} → Result TailError A → Tail A
unfolding done fail
answered (ok a) = done a
answered (err e) = fail e

unfoldable pub send : Server → Request → Tail Response
unfolding ask ◌>>=◌
send server request = do answer ← ask (λ h. server h request) (requested request); answered answer

abbrev pub is_code : ℕ → Option ℕ → Bool
is_code n none = false
is_code n (some m) = n == m

unfoldable pub is_missing_console_log : TailError → Bool
is_missing_console_log e =
    let msg = to_lower e.message in
    is_code 404 e.code
    || contains msg (codes "404")
    || contains msg (codes "not found")
    || contains msg (codes "no such file")

unfoldable pub response_content_length : Response → Option ℕ
unfolding parse_non_negative
response_content_length res = elim res.content_length [
  | pos n ↦ some n
  | negsuc n ↦ parse_non_negative (trim_space res.length_header)
]

abbrev pub or_here : ℕ → Text → Option Text → Option Text
or_here c s none = if c == b'/' then some s else none
or_here c s (some rest) = some rest

-- What stands behind the last slash.
unfoldable pub after_last_slash : Text → Option Text
after_last_slash [] = none
after_last_slash (c ∷ s) = or_here c s (after_last_slash s)

unfoldable pub total_of : Option Text → Option ℕ
unfolding parse_non_negative
total_of none = none
total_of (some raw) =
    if is_empty raw || equal (trim_space raw) (codes "*")
    then none
    else parse_non_negative (trim_space raw)

unfoldable pub parse_content_range_total : Text → Option ℕ
unfolding total_of after_last_slash
parse_content_range_total header = total_of (after_last_slash (trim_space header))

-- `datastoreHTTPStatusError` and the errors without a code.
abbrev pub status_message : Text → Text → Text → Text
status_message method path status = method ++ (codes " " ++ (path ++ (codes ": " ++ status)))

abbrev pub http_status_error : Text → Text → Response → TailError
http_status_error method path res = record {
  code = some res.status_code;
  message = status_message method path res.status;
}

abbrev pub plain_error : Text → TailError
plain_error message = record { code = none; message = message }

unfoldable pub size_or : Text → Option ℕ → Tail ℕ
unfolding done fail
size_or message none = fail (plain_error message)
size_or message (some n) = done n

unfoldable pub head_answer : Text → Response → Tail ℕ
unfolding size_or response_content_length fail
head_answer path res =
    if res.status_code == 200
    then size_or (codes "HEAD " ++ (path ++ codes " returned no content length"))
        (response_content_length res)
    else if res.status_code == 405 || res.status_code == 501
    then fail (plain_error (status_message (codes "HEAD") path res.status))
    else fail (http_status_error (codes "HEAD") path res)

unfoldable pub head_size : Server → Text → Tail ℕ
unfolding send head_answer ◌>>=◌
head_size server path = send server head >>= head_answer path

abbrev pub or_zero : Option ℕ → ℕ
or_zero none = 0
or_zero (some n) = n

unfoldable pub probe_answer : Text → Response → Tail ℕ
unfolding size_or response_content_length parse_content_range_total done fail
probe_answer path res =
    if res.status_code == 206
    then size_or (codes "range probe " ++ (path ++ codes " returned invalid Content-Range"))
        (parse_content_range_total res.range_header)
    else if res.status_code == 200
    then size_or
        (codes "range probe " ++ (path ++ codes " returned full response without content length"))
        (response_content_length res)
    else if res.status_code == 416
    then done (or_zero (parse_content_range_total res.range_header))
    else fail (http_status_error (codes "GET") path res)

unfoldable pub range_probe_size : Server → Text → Tail ℕ
unfolding send probe_answer ◌>>=◌
range_probe_size server path = send server (get_range 0 0) >>= probe_answer path

unfoldable pub or_probe :
    Server → Text → Result TailError ℕ × List Event → Result TailError ℕ × List Event
unfolding range_probe_size
or_probe server path (ok size, h) = (ok size, h)
or_probe server path (err e, h) =
    if is_missing_console_log e then (err e, h) else range_probe_size server path h

unfoldable pub file_size : Server → Text → Tail ℕ
unfolding head_size or_probe
file_size server path h = or_probe server path (head_size server path h)

-- Bytes that have been read, with the offset behind them.
abbrev pub chunk_from : ℕ → Bytes → Bytes × ℕ
chunk_from start bytes = (bytes, start + length bytes)

unfoldable pub body_or : Option Bytes → Tail Bytes
unfolding done fail
body_or none = fail (plain_error (codes "read"))
body_or (some bytes) = done bytes

abbrev pub full_chunk : ℕ → Bytes → Bytes × ℕ
full_chunk start bytes =
    if ltb (length bytes) start then (bytes, length bytes) else chunk_from start (drop start bytes)

abbrev pub or_start : ℕ → Option ℕ → ℕ
or_start start none = start
or_start start (some size) = size

unfoldable pub range_answer : Text → ℕ → Response → Tail (Bytes × ℕ)
unfolding body_or parse_content_range_total done fail ◌>>=◌
range_answer path start res =
    if res.status_code == 206
    then body_or res.body >>= (λ bytes. done (chunk_from start bytes))
    else if res.status_code == 200
    then body_or res.body >>= (λ bytes. done (full_chunk start bytes))
    else if res.status_code == 416
    then done ([], or_start start (parse_content_range_total res.range_header))
    else fail (http_status_error (codes "GET") path res)

unfoldable pub read_range : Server → Text → ℕ → ℕ → Tail (Bytes × ℕ)
unfolding send range_answer ◌>>=◌
read_range server path start end = send server (get_range start end) >>= range_answer path start

unfoldable pub read_new : Server → Text → ℕ → ℕ → Tail (Bytes × ℕ)
unfolding read_range done
read_new server path offset size =
    let start = if ltb size offset then 0 else offset in
    if size == start then done ([], start) else read_range server path start (size - 1)

-- `Tail`
unfoldable pub tail : Server → Text → ℕ → Tail (Bytes × ℕ)
unfolding file_size read_new ◌>>=◌
tail server path offset = file_size server path >>= read_new server path offset

pub record Streamer (S : Type 0) : Type 0 where
  pub writer : CompactingWriter S
  pub offset : ℕ
  pub bytes_read : ℕ

abbrev pub new_streamer : {S : Type 0} → S → Streamer S
new_streamer out = record { writer = new_compacting_writer out; offset = 0; bytes_read = 0 }

pub data PollError (E : Type 0) : Type 0 where
  not_read : TailError → PollError E
  not_written : E → PollError E

module _ {S E : Type 0} (put : Bytes → S → S × Option E) where
  -- What a write leaves in the streamer.
  abbrev pub after_write :
      Streamer S → Bytes → ℕ → CompactingWriter S × ℕ × Option E → Streamer S × Option (PollError E)
  after_write s chunk new_offset (w, n, some e) = (record s { writer = w }, some (not_written e))
  after_write s chunk new_offset (w, n, none) =
      (record s { writer = w; offset = new_offset; bytes_read = s.bytes_read + length chunk }, none)

  unfoldable pub take_chunk : Streamer S → Bytes → ℕ → Streamer S × Option (PollError E)
  unfolding write
  take_chunk s chunk new_offset =
      if is_empty chunk
      then (record s { offset = new_offset }, none)
      else after_write s chunk new_offset (write put s.writer chunk)

  unfoldable pub after_tail :
      Streamer S
      → Result TailError (Bytes × ℕ) × List Event
      → Streamer S × Option (PollError E) × List Event
  unfolding take_chunk
  after_tail s (err e, h) = (s, (if is_missing_console_log e then none else some (not_read e)), h)
  after_tail s (ok (chunk, new_offset), h) =
      let (s', e) = take_chunk s chunk new_offset in (s', e, h)

  -- `poll`
  unfoldable pub poll :
      Server → Text → Streamer S → List Event → Streamer S × Option (PollError E) × List Event
  unfolding tail after_tail
  poll server path s h = after_tail s (tail server path s.offset h)

  -- So many polls; an error is a warning only.
  unfoldable pub run : ℕ → Server → Text → Streamer S → List Event → Streamer S × List Event
  run zero server path s h = (s, h)
  run (suc n) server path s h = let (s', e, h') = poll server path s h in run n server path s' h'

  -- `finish`: a last poll and the flush of the writer; whether no byte has been streamed.
  unfoldable pub finish : Server → Text → Streamer S → List Event → CompactingWriter S × Bool
  finish server path s h =
      let (s', e, h') = poll server path s h in ((flush put s'.writer).0, s'.bytes_read == 0)
