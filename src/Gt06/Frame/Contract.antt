-- ===== src/Gt06/Frame/Contract.antt =====
-- frame.go: `NextFrame` keeps the contract of `Framer`.
use farbo_rastreamento.Prelude.{
  ℕ, ◌-◌, ◌≤◌, ◌<◌, ◌≡◌, refl, sym, ap, ◌∙◌, [], ◌∷◌, ◌++◌, Option, some, none, zero, suc, arith,
  length, length-append, length-take, get_or, take, take_within, get_or_within, ◌&&◌, true, false,
  ◌==◌,
}
use farbo_rastreamento.Prelude.Words.{Bytes}
use farbo_rastreamento.Protocols.Framing.{framed, wait, FramerLaws}
use farbo_rastreamento.Gt06.Frame.{
  is_start, next_frame, index_of_start, index_from, split_at, at_start, without_start, kept,
  close_frame, frame_length, header_size, stop_cr, stop_lf,
}
use farbo_rastreamento.Gt06.Frame.Honours.{
  index_from_first, index_from_hit, total_size, bad_size, short, refused, partial, whole,
  at_start_cases, next_frame-Honours,
}

-- What makes a frame of `n` bytes complete at the start of a buffer.
record Complete (buf : Bytes) (n : ℕ) : Type 0 where
  starts : (is_start (get_or buf 0 0) && (get_or buf 1 0 == get_or buf 0 0)) ≡ true
  sized : bad_size buf ≡ false
  size : n ≡ total_size buf
  enough : n ≤ length buf
  cr : get_or buf (n - 2) 0 ≡ stop_cr
  lf : get_or buf (n - 1) 0 ≡ stop_lf

Complete-framed : (buf : Bytes) (n : ℕ) → Complete buf n → next_frame buf ≡ framed (take n buf) n
unfolding next_frame index_of_start at_start close_frame
Complete-framed buf n c = ground (arith, index_from_hit 0 buf)

close_frame-framed :
    (buf f : Bytes) (total n : ℕ)
    → close_frame buf total ≡ framed f n
    → (n ≡ total)
      × (f ≡ take total buf)
      × (get_or buf (total - 2) 0 ≡ stop_cr)
      × (get_or buf (total - 1) 0 ≡ stop_lf)
unfolding close_frame
close_frame-framed buf f total n h = ground arith

at_start-framed :
    (buf f : Bytes) (n : ℕ)
    → (is_start (get_or buf 0 0) && (get_or buf 1 0 == get_or buf 0 0)) ≡ true
    → at_start buf ≡ framed f n
    → Complete buf n × (f ≡ take n buf)
at_start-framed buf f n starts h = elim (at_start_cases buf) [
  | short _ e ↦ cc
  | refused _ _ e ↦ cc
  | partial _ _ _ e ↦ cc
  | whole good enough e ↦
      let closed = close_frame-framed buf f (total_size buf) n (sym e ∙ h) in
      (
        record {
          starts = starts;
          sized = good;
          size = closed.0;
          enough = omega arith;
          cr = rw closed.0 closed.2;
          lf = rw closed.0 closed.3;
        },
        rw closed.0 closed.1,
      )
]

framed-Complete :
    (buf f : Bytes) (n : ℕ) → next_frame buf ≡ framed f n → Complete buf n × (f ≡ take n buf)
unfolding next_frame index_of_start without_start
framed-Complete buf f n h = go (index_from 0 buf) refl h
  where
    go :
        (o : Option ℕ)
        → index_from 0 buf ≡ o
        → split_at buf o ≡ framed f n
        → Complete buf n × (f ≡ take n buf)
    go none e h' = ground arith
    go (some zero) e h' = at_start-framed buf f n (index_from_first 0 buf e) h'
    go (some (suc k)) e h' = cc

frame_length-append :
    (buf more : Bytes) → 5 ≤ length buf → (frame_length (buf ++ more) ≡ frame_length buf)
unfolding frame_length
frame_length-append [] more h = absurd (omega arith)
frame_length-append (a ∷ []) more h = absurd (omega arith)
frame_length-append (a ∷ b ∷ []) more h = absurd (omega arith)
frame_length-append (a ∷ b ∷ c ∷ []) more h = absurd (omega arith)
frame_length-append (a ∷ b ∷ c ∷ d ∷ bs) more h = refl

-- More bytes behind a complete frame do not change it.
Complete-append : (buf more : Bytes) (n : ℕ) → Complete buf n → Complete (buf ++ more) n
unfolding header_size
Complete-append buf more n c = ground (
  arith,
  get_or_within 0 buf more 0,
  get_or_within 1 buf more 0,
  get_or_within (n - 2) buf more 0,
  get_or_within (n - 1) buf more 0,
  frame_length-append buf more,
  length-append buf more,
)

-- The length field of a part of the buffer, once the header is there.
frame_length-take :
    (k : ℕ) (buf : Bytes)
    → header_size (get_or (take k buf) 0 0) ≤ length (take k buf)
    → frame_length (take k buf) ≡ frame_length buf
unfolding frame_length header_size
frame_length-take zero buf h = absurd (ground arith)
frame_length-take (suc k) [] h = refl
frame_length-take (suc zero) (a ∷ bs) h = absurd (ground arith)
frame_length-take (suc (suc k)) (a ∷ []) h = refl
frame_length-take (suc (suc zero)) (a ∷ b ∷ bs) h = absurd (ground arith)
frame_length-take (suc (suc (suc k))) (a ∷ b ∷ []) h = refl
frame_length-take (suc (suc (suc zero))) (a ∷ b ∷ c ∷ bs) h = ground arith
frame_length-take (suc (suc (suc (suc k)))) (a ∷ b ∷ c ∷ []) h = refl
frame_length-take (suc (suc (suc (suc k)))) (a ∷ b ∷ c ∷ d ∷ bs) h = refl

at_start-patient :
    (k n : ℕ) (a b : ℕ) (bs : Bytes)
    → Complete (a ∷ b ∷ bs) n
    → suc (suc k) < n
    → at_start (a ∷ b ∷ take k bs) ≡ wait
at_start-patient k n a b bs c h =
    let same = frame_length-take (suc (suc k)) (a ∷ b ∷ bs) in
    elim (at_start_cases (a ∷ b ∷ take k bs)) [
      | short _ e ↦ e
      | refused header bad _ ↦ absurd (ground (arith, same header))
      | partial _ _ _ e ↦ e
      | whole good enough _ ↦ absurd (omega (arith, length-take k bs, same (omega arith)))
    ]

-- Until the last byte of a frame has arrived, `NextFrame` asks for more.
next_frame-patient :
    (buf : Bytes) (n k : ℕ) → Complete buf n → k < n → next_frame (take k buf) ≡ wait
unfolding next_frame index_of_start index_from without_start kept
next_frame-patient buf n zero c h = refl
next_frame-patient [] n (suc k) c h = absurd (omega arith)
next_frame-patient (a ∷ bs) n (suc zero) c h = ground arith
next_frame-patient (a ∷ []) n (suc (suc k)) c h = absurd (omega arith)
next_frame-patient (a ∷ b ∷ bs) n (suc (suc k)) c h = ground (arith, at_start-patient k n a b bs c)

pub next_frame-FramerLaws : (top : ℕ) → FramerLaws top next_frame
next_frame-FramerLaws top = record {
  honours = next_frame-Honours;
  stable = λ buf more f n h.
      let (c, e) = framed-Complete buf f n h in
      Complete-framed (buf ++ more) n (Complete-append buf more n c)
      ∙ ap (λ g. framed g n) (take_within n buf more c.enough ∙ sym e);
  patient = λ buf f n k h fits l. next_frame-patient buf n k (framed-Complete buf f n h).0 l;
}
