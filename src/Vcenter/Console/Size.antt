-- ===== src/Vcenter/Console/Size.antt =====
-- internal/backend/vcenter/console.go: the size that `fileSize` reads of a log that grows while it is
-- read.
use ubuntu_vm_template_build.Base.{
  ℕ, ◌^◌, ◌≤◌, ◌<◌, ◌≡◌, refl, ap, inl, inr, Bool, true, false, List, [], ◌∷◌, ltb, length, take,
  codes, Bytes, ok, Bool-cases, arith, length-take,
}
use ubuntu_vm_template_build.Text.{Text}
use ubuntu_vm_template_build.Steps.{done, fail, ◌>>=◌, ask}
use ubuntu_vm_template_build.Vcenter.Console.{
  head, get_range, Event, requested, answered, send, is_missing_console_log,
  response_content_length, status_message, plain_error, size_or, head_answer, head_size,
  probe_answer, range_probe_size, or_probe, file_size,
}
use ubuntu_vm_template_build.Vcenter.Console.Server.{
  response, not_allowed, respond, serve, parse_content_range_total-range_header,
}

-- The log of the server, the path, and what is known of them: the log only grows, and the error of a
-- refused HEAD does not look like that of a missing log.
module _ (whole : Bytes) (grown : ℕ → ℕ) (path : Text)
    (grows : (m n : ℕ) → m ≤ n → grown m ≤ grown n) (inside : (n : ℕ) → grown n ≤ length whole)
    (bounded : length whole < 2 ^ 63)
    (not_missing : is_missing_console_log
        (plain_error (status_message (codes "HEAD") path not_allowed))
      ≡ false) where
  log_length : (n : ℕ) → length (take (grown n) whole) ≡ grown n
  log_length n = length-take (grown n) whole (inside n)

  log_bounded : (n : ℕ) → length (take (grown n) whole) < 2 ^ 63
  log_bounded n = omega (arith, log_length n, inside n, bounded)

  abbrev log : List Event → Bytes
  log h = take (grown (length h)) whole

  probe_answer-full :
      (h : List Event)
      → probe_answer path (response 200 (codes "200 OK") [] (log h)) ≡ done (grown (length h))
  unfolding probe_answer size_or response_content_length done
  probe_answer-full h = rw (log_length (length h)) refl

  probe_answer-part :
      (h : List Event)
      → probe_answer path (respond false true (log h) (get_range 0 0)) ≡ done (grown (length h))
  unfolding probe_answer size_or respond done
  probe_answer-part h =
      let small = log_bounded (length h) in
      elim (Bool-cases (ltb 0 (length (log h)))) [
        | inl some_bytes ↦
            rw (some_bytes, parse_content_range_total-range_header _ (length (log h)) small)
              (rw (log_length (length h)) refl)
        | inr empty ↦
            rw (empty, parse_content_range_total-range_header _ (length (log h)) small)
              (rw (log_length (length h)) refl)
      ]

  abbrev probed : Bool → List Event → Event
  probed ranges h = requested (get_range 0 0) (ok (respond false ranges (log h) (get_range 0 0)))

  abbrev found : List Event → Event
  found h = requested head (ok (response 200 (codes "200 OK") [] (log h)))

  abbrev refused : Event
  refused = requested head (ok (response 405 not_allowed [] []))

  range_probe_size-grown :
      (ranges : Bool) (h : List Event)
      → range_probe_size (serve false ranges whole grown) path h
        ≡ (ok (grown (length h)), probed ranges h ∷ h)
  unfolding range_probe_size send ◌>>=◌ ask answered serve respond done
  range_probe_size-grown true h = ap (λ step. step (probed true h ∷ h)) (probe_answer-part h)
  range_probe_size-grown false h = ap (λ step. step (probed false h ∷ h)) (probe_answer-full h)

  -- The size is a length the log had between the first request and the last.
  abbrev pub Sized : Bool → Bool → List Event → Type 0
  Sized head_ok ranges h =
      (size : ℕ) × (h' : List Event) × (file_size (serve head_ok ranges whole grown) path h
        ≡ (ok size, h'))
      × (grown (length h) ≤ size)
      × (size ≤ grown (length h'))

  Sized-at :
      (head_ok ranges : Bool) (h h' : List Event) (n : ℕ)
      → file_size (serve head_ok ranges whole grown) path h ≡ (ok (grown n), h')
      → length h ≤ n
      → n ≤ length h'
      → Sized head_ok ranges h
  Sized-at head_ok ranges h h' n e a b = (grown n, h', e, grows _ _ a, grows _ _ b)

  -- `fileSize`
  pub file_size-Sized : (head_ok ranges : Bool) (h : List Event) → Sized head_ok ranges h
  unfolding file_size head_size send ◌>>=◌ ask answered serve respond head_answer or_probe done fail
      size_or response_content_length
  file_size-Sized true ranges h =
      Sized-at true ranges h (found h ∷ h) (length h)
        (ap (λ n. (ok n, found h ∷ h)) (log_length (length h))) (omega arith) (omega arith)
  file_size-Sized false ranges h =
      Sized-at false ranges h (probed ranges (refused ∷ h) ∷ refused ∷ h) (length (refused ∷ h))
        (rw not_missing (range_probe_size-grown ranges (refused ∷ h))) (omega arith) (omega arith)
