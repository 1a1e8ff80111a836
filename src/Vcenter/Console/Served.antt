-- ===== src/Vcenter/Console/Served.antt =====
-- internal/backend/vcenter/console.go: what `Tail` reads of a log that grows while it is read.
use ubuntu_vm_template_build.Base.{
  ℕ, suc, ◌+◌, ◌-◌, ◌^◌, ◌≤◌, ◌<◌, ◌≡◌, refl, sym, ap, ◌∙◌, inl, inr, Bool, true, false, List, [],
  ◌∷◌, ◌++◌, ltb, length, drop, take, codes, Bytes, ok, Bool-cases, arith, length-drop,
  take-append-drop, append-nil, length-take, take-take, drop_between,
}
use ubuntu_vm_template_build.Text.{Text}
use ubuntu_vm_template_build.Steps.{done, ◌>>=◌, ask}
use ubuntu_vm_template_build.Vcenter.Console.{
  get_range, Event, requested, answered, send, is_missing_console_log, status_message, plain_error,
  chunk_from, body_or, range_answer, read_range, read_new, tail,
}
use ubuntu_vm_template_build.Vcenter.Console.Server.{not_allowed, slice, respond, serve}
use ubuntu_vm_template_build.Vcenter.Console.Size.{file_size-Sized}

below_size : (offset size : ℕ) → ltb offset size ≡ true → offset < size
below_size offset size h = ground (arith, h)

offset_at_end : (offset size : ℕ) → offset ≤ size → ltb offset size ≡ false → offset ≡ size
offset_at_end offset size a b = ground (arith, a, b)

-- The log of the server, the path, and what is known of them: the log only grows, and the error of a
-- refused HEAD does not look like that of a missing log.
module _ (whole : Bytes) (grown : ℕ → ℕ) (path : Text)
    (grows : (m n : ℕ) → m ≤ n → grown m ≤ grown n) (inside : (n : ℕ) → grown n ≤ length whole)
    (bounded : length whole < 2 ^ 63)
    (not_missing : is_missing_console_log
        (plain_error (status_message (codes "HEAD") path not_allowed))
      ≡ false) where
  log_length : (n : ℕ) → length (take (grown n) whole) ≡ grown n
  log_length n = length-take (grown n) whole (inside n)

  abbrev log : List Event → Bytes
  log h = take (grown (length h)) whole

  -- What a poll reads: the bytes from the offset on to some length the log had meanwhile.
  abbrev pub Read : Bool → Bool → ℕ → List Event → Type 0
  Read head_ok ranges offset h =
      (chunk : Bytes) × (new : ℕ) × (h' : List Event) × (tail (serve head_ok ranges whole grown)
          path offset h
        ≡ (ok (chunk, new), h'))
      × (take offset whole ++ chunk ≡ take new whole)
      × (new ≡ offset + length chunk)
      × (grown (length h) ≤ new)
      × (new ≤ grown (length h'))

  abbrev asked : Bool → Bool → ℕ → ℕ → List Event → Event
  asked head_ok ranges start end h =
      requested (get_range start end) (ok (respond head_ok ranges (log h) (get_range start end)))

  read_range-answer :
      (head_ok ranges : Bool) (start end : ℕ) (h : List Event)
      → read_range (serve head_ok ranges whole grown) path start end h
        ≡ range_answer path start
            (respond head_ok ranges (log h) (get_range start end))
            (asked head_ok ranges start end h ∷ h)
  unfolding read_range send ◌>>=◌ ask answered serve respond done
  read_range-answer true true start end h = refl
  read_range-answer true false start end h = refl
  read_range-answer false true start end h = refl
  read_range-answer false false start end h = refl

  range_answer-part :
      (head_ok : Bool) (start end : ℕ) (h h' : List Event)
      → start < length (log h)
      → range_answer path start (respond head_ok true (log h) (get_range start end)) h'
        ≡ (ok (chunk_from start (slice start end (log h))), h')
  unfolding range_answer respond body_or ◌>>=◌ done
  range_answer-part true start end h h' s = ground (arith, s)
  range_answer-part false start end h h' s = ground (arith, s)

  range_answer-full :
      (head_ok : Bool) (start end : ℕ) (h h' : List Event)
      → start < length (log h)
      → range_answer path start (respond head_ok false (log h) (get_range start end)) h'
        ≡ (ok (chunk_from start (drop start (log h))), h')
  unfolding range_answer respond body_or ◌>>=◌ done
  range_answer-full true start end h h' s = ground (arith, s)
  range_answer-full false start end h h' s = ground (arith, s)

  -- What is read once the size is known.
  abbrev Fresh : Bool → Bool → ℕ → ℕ → List Event → Type 0
  Fresh head_ok ranges offset size h =
      (chunk : Bytes) × (new : ℕ) × (h' : List Event) × (read_new (serve head_ok ranges whole grown)
          path offset size h
        ≡ (ok (chunk, new), h'))
      × (take offset whole ++ chunk ≡ take new whole)
      × (new ≡ offset + length chunk)
      × (size ≤ new)
      × (new ≤ grown (length h'))

  read_new-range :
      (head_ok ranges : Bool) (offset size : ℕ) (h : List Event)
      → offset < size
      → read_new (serve head_ok ranges whole grown) path offset size h
        ≡ read_range (serve head_ok ranges whole grown) path offset (size - 1) h
  unfolding read_new
  read_new-range head_ok ranges offset size h s = ground (arith, s)

  take-log : (m : ℕ) (h : List Event) → m ≤ grown (length h) → take m (log h) ≡ take m whole
  take-log m h b = take-take m (grown (length h)) whole b

  -- One more request makes the log longer at most.
  grown-cons : (n : ℕ) → grown n ≤ grown (suc n)
  grown-cons n = grows n (suc n) (omega arith)

  length-slice :
      (offset size : ℕ) (h : List Event)
      → offset < size
      → size ≤ grown (length h)
      → offset + length (slice offset (size - 1) (log h)) ≡ size
  length-slice offset size h s b =
      let len = length-drop offset (log h) in
      omega (
        arith,
        length-take (size - 1 - offset + 1) (drop offset (log h))
            (omega (arith, len, log_length (length h), s, b)),
      )

  log_reaches :
      (offset size : ℕ) (h : List Event)
      → offset < size
      → size ≤ grown (length h)
      → offset < length (log h)
  log_reaches offset size h s b = omega (arith, log_length (length h), s, b)

  slice_joined :
      (offset size : ℕ) (h : List Event)
      → offset < size
      → size ≤ grown (length h)
      → take offset whole ++ slice offset (size - 1) (log h)
        ≡ take (offset + length (slice offset (size - 1) (log h))) whole
  slice_joined offset size h s b =
      let len = length-slice offset size h s b in
      ap (λ t. t ++ slice offset (size - 1) (log h)) (sym (take-log offset h (omega (arith, s, b))))
      ∙ drop_between offset (size - 1 - offset + 1) (log h)
      ∙ ap (λ n. take n (log h)) (omega (arith, len, s))
      ∙ take-log (offset + length (slice offset (size - 1) (log h))) h (omega (arith, len, b))

  drop_joined :
      (offset : ℕ) (h : List Event)
      → offset ≤ grown (length h)
      → take offset whole ++ drop offset (log h)
        ≡ take (offset + length (drop offset (log h))) whole
  drop_joined offset h b =
      let len = length-drop offset (log h) in
      ap (λ t. t ++ drop offset (log h)) (sym (take-log offset h b))
      ∙ take-append-drop offset (log h)
      ∙ ap (λ n. take n whole) (omega (arith, len, log_length (length h), b))

  read_new-Fresh :
      (head_ok ranges : Bool) (offset size : ℕ) (h : List Event)
      → offset < size
      → size ≤ grown (length h)
      → Fresh head_ok ranges offset size h
  read_new-Fresh head_ok true offset size h s b =
      let e = asked head_ok true offset (size - 1) h in
      let chunk = slice offset (size - 1) (log h) in
      let inside_log = log_reaches offset size h s b in
      let len = length-slice offset size h s b in
      (
        chunk,
        offset + length chunk,
        e ∷ h,
        read_new-range head_ok true offset size h s
            ∙ read_range-answer head_ok true offset (size - 1) h
            ∙ range_answer-part head_ok offset (size - 1) h (e ∷ h) inside_log,
        slice_joined offset size h s b,
        refl,
        omega (arith, len),
        omega (arith, len, b, grown-cons (length h)),
      )
  read_new-Fresh head_ok false offset size h s b =
      let e = asked head_ok false offset (size - 1) h in
      let chunk = drop offset (log h) in
      let inside_log = log_reaches offset size h s b in
      let len = length-drop offset (log h) in
      (
        chunk,
        offset + length chunk,
        e ∷ h,
        read_new-range head_ok false offset size h s
            ∙ read_range-answer head_ok false offset (size - 1) h
            ∙ range_answer-full head_ok offset (size - 1) h (e ∷ h) inside_log,
        drop_joined offset h (omega (arith, s, b)),
        refl,
        omega (arith, len, log_length (length h), s, b),
        omega (arith, len, log_length (length h), s, b, grown-cons (length h)),
      )

  -- With nothing new there is no request.
  read_new-nothing :
      (head_ok ranges : Bool) (offset : ℕ) (h : List Event)
      → read_new (serve head_ok ranges whole grown) path offset offset h ≡ (ok ([], offset), h)
  unfolding read_new done
  read_new-nothing head_ok ranges offset h = ground arith

  -- `Tail`
  pub tail-Read :
      (head_ok ranges : Bool) (offset : ℕ) (h : List Event)
      → offset ≤ grown (length h)
      → Read head_ok ranges offset h
  unfolding tail ◌>>=◌
  tail-Read head_ok ranges offset h b =
      let (size, h1, sized, low, high) =
        file_size-Sized whole grown path grows inside bounded not_missing head_ok ranges h in
      elim (Bool-cases (ltb offset size)) [
        | inl more ↦
            let (chunk, new, h', read, joined, counted, from, to) =
              read_new-Fresh head_ok ranges offset size h1 (below_size offset size more) high in
            (chunk, new, h', rw sized read, joined, counted, omega (arith, low, from), to)
        | inr same ↦
            let at_end = offset_at_end offset size (omega (arith, b, low)) same in
            (
              [],
              offset,
              h1,
              rw (sized, sym at_end) (read_new-nothing head_ok ranges offset h1),
              append-nil (take offset whole),
              omega arith,
              omega (arith, low, at_end),
              omega (arith, high, at_end),
            )
      ]
