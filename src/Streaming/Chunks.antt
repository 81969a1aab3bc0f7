-- ===== src/Streaming/Chunks.antt =====
-- What is read from a stream.
use beanstream.Prelude.{
  ℕ, zero, suc, ◌+◌, ◌%◌, ◌^◌, ◌<◌, ◌≡◌, refl, sym, ap, ◌∙◌, ◌≢◌, ◌↔◌, inl, inr, Bool, true, false,
  Option, none, some, [], ◌++◌, arith, Bool-cases, length, length-append,
}
use mathlib.Core.List.{append_assoc, append-nil}
use beanstream.Error.{Result, ok, err}
use beanstream.Streaming.{Poll, pending, ready, Bytes, ByteStream, count, poll_next, drain, to_end}

abbrev pub Polls : Type 0
Polls = ℕ → Poll (Option (Result Bytes))

abbrev pub later : Polls → Polls
later polls n = polls (suc n)

-- The chunks that some polls yield, joined in order.
abbrev pub chunk_of : Poll (Option (Result Bytes)) → Bytes
chunk_of (ready (some (ok chunk))) = chunk
chunk_of _ = []

abbrev pub chunks_before : ℕ → Polls → Bytes
chunks_before zero polls = []
chunks_before (suc n) polls = chunk_of (polls 0) ++ chunks_before n (later polls)

-- Whether a poll ends the body or breaks it, and what is then returned.
abbrev pub is_last : Poll (Option (Result Bytes)) → Bool
is_last (ready none) = true
is_last (ready (some (err e))) = true
is_last _ = false

abbrev pub ending : Poll (Option (Result Bytes)) → Bytes → Result Bytes
ending (ready (some (err e))) buffer = err e
ending _ buffer = ok buffer

-- The body ends at the poll `last`, and what was read onto `buffer` gives `r`.
pub record EndsAt (last : ℕ) (buffer : Bytes) (polls : Polls) (r : Result Bytes) : Type 0 where
  pub goes_on : (n : ℕ) → n < last → is_last (polls n) ≡ false
  pub ends : is_last (polls last) ≡ true
  pub result : r ≡ ending (polls last) (buffer ++ chunks_before last polls)

ends_now :
    (buffer : Bytes) (polls : Polls) (r : Result Bytes)
    → is_last (polls 0) ≡ true
    → (r ≡ ending (polls 0) buffer) ↔ EndsAt 0 buffer polls r
ends_now buffer polls r e =
    let bare : buffer ++ [] ≡ buffer = append-nil buffer in
    (
      λ k. record {
        goes_on = λ n h. absurd (omega (arith, h));
        ends = e;
        result = k ∙ ap (ending (polls 0)) (sym bare);
      },
      λ k. k.result ∙ ap (ending (polls 0)) bare,
    )

ends_later :
    (last : ℕ) (buffer : Bytes) (polls : Polls) (r : Result Bytes)
    → is_last (polls 0) ≡ false
    → EndsAt last (buffer ++ chunk_of (polls 0)) (later polls) r ↔ EndsAt (suc last) buffer polls r
ends_later last buffer polls r e =
    let joined = append_assoc buffer (chunk_of (polls 0)) (chunks_before last (later polls)) in
    (
      λ k. record {
        goes_on = goes_on_of k.goes_on;
        ends = k.ends;
        result = k.result ∙ ap (ending (polls (suc last))) joined;
      },
      λ k. record {
        goes_on = λ n h. k.goes_on (suc n) (omega (arith, h));
        ends = k.ends;
        result = k.result ∙ ap (ending (polls (suc last))) (sym joined);
      },
    )
  where
    goes_on_of :
        ((n : ℕ) → n < last → is_last (polls (suc n)) ≡ false)
        → (n : ℕ) → n < suc last
        → is_last (polls n) ≡ false
    goes_on_of k zero h = e
    goes_on_of k (suc n) h = k n (omega (arith, h))

-- A poll that does not end the body leaves the loop where it was, with its chunk read.
drain-goes_on :
    (fuel : ℕ) (buffer : Bytes) (s : ByteStream)
    → is_last (s.inner 0) ≡ false
    → drain (suc fuel) buffer s ≡ drain fuel (buffer ++ chunk_of (s.inner 0)) (poll_next s).1
unfolding drain poll_next
drain-goes_on fuel buffer s e = go (s.inner 0) e
  where
    go :
        (event : Poll (Option (Result Bytes)))
        → is_last event ≡ false
        → elim event [
          | pending ↦ drain fuel buffer (poll_next s).1
          | ready none ↦ some (ok buffer)
          | ready (some (ok chunk)) ↦ drain fuel (buffer ++ chunk) (poll_next s).1
          | ready (some (err e)) ↦ some (err e)
        ]
          ≡ drain fuel (buffer ++ chunk_of event) (poll_next s).1
    go pending h = ap (λ b. drain fuel b (poll_next s).1) (sym (append-nil buffer))
    go (ready none) h = absurd (cc h)
    go (ready (some (ok chunk))) h = refl
    go (ready (some (err e))) h = absurd (cc h)

drain-stops :
    (fuel : ℕ) (buffer : Bytes) (s : ByteStream)
    → is_last (s.inner 0) ≡ true
    → drain (suc fuel) buffer s ≡ some (ending (s.inner 0) buffer)
unfolding drain poll_next
drain-stops fuel buffer s e = go (s.inner 0) e
  where
    go :
        (event : Poll (Option (Result Bytes)))
        → is_last event ≡ true
        → elim event [
          | pending ↦ drain fuel buffer (poll_next s).1
          | ready none ↦ some (ok buffer)
          | ready (some (ok chunk)) ↦ drain fuel (buffer ++ chunk) (poll_next s).1
          | ready (some (err e)) ↦ some (err e)
        ]
          ≡ some (ending event buffer)
    go pending h = absurd (cc h)
    go (ready none) h = refl
    go (ready (some (ok chunk))) h = absurd (cc h)
    go (ready (some (err e))) h = refl

drain-zero : (buffer : Bytes) (s : ByteStream) (r : Result Bytes) → drain 0 buffer s ≢ some r
unfolding drain
drain-zero buffer s r h = cc h

drain_iff :
    (fuel : ℕ) (buffer : Bytes) (s : ByteStream) (r : Result Bytes)
    → (drain fuel buffer s ≡ some r) ↔ ((last : ℕ) × (last < fuel) × EndsAt last buffer s.inner r)
unfolding poll_next
drain_iff zero buffer s r =
    (λ h. absurd (drain-zero buffer s r h), λ (last, h, k). absurd (omega (arith, h)))
drain_iff (suc fuel) buffer s r = elim (Bool-cases (is_last (s.inner 0))) [
  | inl e ↦
      let stops = drain-stops fuel buffer s e in
      (
        λ h.
            let same : r ≡ ending (s.inner 0) buffer = cc (h, stops) in
            (0, omega arith, (ends_now buffer s.inner r e).0 same),
        λ (last, h, k). stopped last k e stops,
      )
  | inr e ↦
      let goes_on = drain-goes_on fuel buffer s e in
      let rest = drain_iff fuel (buffer ++ chunk_of (s.inner 0)) (poll_next s).1 r in
      (
        λ h.
            let (last, k, l) = rest.0 (sym goes_on ∙ h) in
            (suc last, omega (arith, k), (ends_later last buffer s.inner r e).0 l),
        λ (last, h, k). went_on last h k e (λ n l m. goes_on ∙ rest.1 (n, l, m)),
      )
]
  where
    stopped :
        (last : ℕ)
        → EndsAt last buffer s.inner r
        → is_last (s.inner 0) ≡ true
        → drain (suc fuel) buffer s ≡ some (ending (s.inner 0) buffer)
        → drain (suc fuel) buffer s ≡ some r
    stopped zero k e stops = stops ∙ ap some (sym ((ends_now buffer s.inner r e).1 k))
    stopped (suc last) k e stops = absurd (cc (e, k.goes_on 0 (omega arith)))

    went_on :
        (last : ℕ)
        → last < suc fuel
        → EndsAt last buffer s.inner r
        → is_last (s.inner 0) ≡ false
        → ((n : ℕ)
            → n < fuel
            → EndsAt n (buffer ++ chunk_of (s.inner 0)) (later s.inner) r
            → drain (suc fuel) buffer s ≡ some r)
        → drain (suc fuel) buffer s ≡ some r
    went_on zero h k e next = absurd (cc (e, k.ends))
    went_on (suc last) h k e next =
        next last (omega (arith, h)) ((ends_later last buffer s.inner r e).1 k)

-- `to_end` returns a result within some polls exactly where one of these polls is the first that
-- ends the body or is an error: the chunks of the polls before it, joined in order, or that error.
-- On a body that never ends, and on one that is pending for ever, it returns nothing.
pub to_end_iff :
    (fuel : ℕ) (s : ByteStream) (r : Result Bytes)
    → (to_end fuel s ≡ some r) ↔ ((last : ℕ) × (last < fuel) × EndsAt last [] s.inner r)
unfolding to_end
to_end_iff fuel s r = drain_iff fuel [] s r

-- The chunks that some polls yield, and the stream after them.
abbrev after_polls : ℕ → ByteStream → ByteStream
after_polls zero s = s
after_polls (suc n) s = after_polls n (poll_next s).1

count-chunk_of :
    (event : Poll (Option (Result Bytes))) (total : ℕ)
    → total < 2 ^ 64
    → count event total ≡ (total + length (chunk_of event)) % 2 ^ 64
unfolding count
count-chunk_of pending total h = omega (arith, h)
count-chunk_of (ready none) total h = omega (arith, h)
count-chunk_of (ready (some (ok chunk))) total h = refl
count-chunk_of (ready (some (err e))) total h = omega (arith, h)

-- After any number of polls, the counter is what it was before with the lengths of the chunks that
-- the polls yielded, as a 64-bit number.
after_polls-total_received :
    (n : ℕ) (s : ByteStream)
    → s.total_received < 2 ^ 64
    → (after_polls n s).total_received
      ≡ (s.total_received + length (chunks_before n s.inner)) % 2 ^ 64
unfolding poll_next
after_polls-total_received zero s h = omega (arith, h)
after_polls-total_received (suc n) s h =
    let now = count-chunk_of (s.inner 0) s.total_received h in
    let rest = after_polls-total_received n (poll_next s).1 (omega (arith, now)) in
    let joined = length-append (chunk_of (s.inner 0)) (chunks_before n (later s.inner)) in
    omega (arith, now, rest, joined)
