-- ===== src/Protocols/Framing.antt =====
-- tracker.go, `Framer`: what `NextFrame` may answer.
use farbo_rastreamento.Prelude.{ℕ, ◌≤◌, ◌<◌, ◌≡◌, Option, none, some, ◌++◌, length, take}
use farbo_rastreamento.Prelude.Words.{Bytes}

-- `incomplete_frame` is `ErrIncompleteFrame`; the others stand for the texts of the adapters.
pub data FramingError : Type 0 where
  incomplete_frame : FramingError
  no_start : ℕ → FramingError
  discarded : ℕ → FramingError
  bad_length : ℕ → FramingError
  bad_stop : ℕ → ℕ → FramingError
  no_terminator : FramingError
  over_limit : FramingError
  absurd_length : FramingError

-- `(frame []byte, consumed int, err error)`; a nil frame is `none`.
pub record Framed : Type 0 where
  pub frame : Option Bytes
  pub consumed : ℕ
  pub error : Option FramingError

abbrev pub wait : Framed
wait = record { frame = none; consumed = 0; error = some incomplete_frame }

abbrev pub junk : ℕ → FramingError → Framed
junk n e = record { frame = none; consumed = n; error = some e }

abbrev pub skipped : ℕ → Framed
skipped n = record { frame = none; consumed = n; error = none }

abbrev pub framed : Bytes → ℕ → Framed
framed f n = record { frame = some f; consumed = n; error = none }

-- The three answers that the comment on `Framer` promises: wait for more, a frame that is the
-- start of the buffer, or a positive number of bytes to throw away. A fourth one, which the comment
-- does not list and the session takes, drops separators without an error.
pub data Honours (buf : Bytes) (r : Framed) : Type 0 where
  waits : r ≡ wait → Honours buf r
  frames : (n : ℕ) → 0 < n → n ≤ length buf → r ≡ framed (take n buf) n → Honours buf r
  throws : (n : ℕ) (e : FramingError) → 0 < n → n ≤ length buf → r ≡ junk n e → Honours buf r
  skips : (n : ℕ) → 0 < n → n ≤ length buf → r ≡ skipped n → Honours buf r

-- What the session relies on: every answer honours the contract, a complete frame stays the
-- answer when more bytes arrive, and before it is complete the answer is to wait. An adapter may
-- give up on an unfinished frame that is longer than `top`.
pub record FramerLaws (top : ℕ) (next_frame : Bytes → Framed) : Type 0 where
  pub honours : (buf : Bytes) → Honours buf (next_frame buf)
  pub stable :
      (buf more : Bytes) (f : Bytes) (n : ℕ)
      → next_frame buf ≡ framed f n
      → next_frame (buf ++ more) ≡ framed f n
  pub patient :
      (buf : Bytes) (f : Bytes) (n k : ℕ)
      → next_frame buf ≡ framed f n
      → n ≤ top
      → k < n
      → next_frame (take k buf) ≡ wait
