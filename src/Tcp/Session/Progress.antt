-- ===== src/Tcp/Session/Progress.antt =====
-- session.go: the loop of `process` ends on every buffer.
use farbo_rastreamento.Prelude.{
  ℕ, zero, suc, ◌≤◌, ◌<◌, ◌≡◌, ◌⊎◌, refl, Bool, true, false, Option, none, some, List, [], ◌∷◌,
  ◌++◌, arith, length, length-drop, drop, ltb, if◌then◌else◌, inl, inr,
}
use farbo_rastreamento.Prelude.Words.{Bytes}
use farbo_rastreamento.Protocols.Framing.{FramingError, incomplete_frame}
use farbo_rastreamento.Tcp.Session.{
  round, loop_from, resume, detected, identified, run_on, detect_first, TrackerProtocol, Effects,
  Core, Session, Next, stop, go_on, answer, process_frames, process, run, take_frame,
}

module _ {E F W : Type 0} (fx : Effects E F W) (p : TrackerProtocol E F) where
  -- A round that goes on has consumed at least one byte, and no more than there are.
  answer-advances :
      (c c' : Core W) (buf : Bytes) (n k : ℕ) (frame : Option Bytes) (e : Option FramingError)
      → answer fx p c buf n frame e ≡ go_on c' k
      → 0 < k
  unfolding answer take_frame
  answer-advances c c' buf n k frame (some incomplete_frame) h = cc
  answer-advances c c' buf n k frame (some _) h = ground arith
  answer-advances c c' buf n k none none h = ground arith
  answer-advances c c' buf n k (some f) none h = ground arith

  Next-cases :
      (nx : Next W)
      → ((c : Core W) × (alive : Bool) × (nx ≡ stop c alive))
        ⊎ ((c : Core W) × (n : ℕ) × (nx ≡ go_on c n))
  Next-cases (stop c alive) = inl (c, alive, refl)
  Next-cases (go_on c n) = inr (c, n, refl)

  round-advances : (c c' : Core W) (buf : Bytes) (k : ℕ) → round fx p c buf ≡ go_on c' k → 0 < k
  unfolding round
  round-advances c c' buf k h =
      let r = p.next_frame buf in answer-advances c c' buf r.consumed k r.frame r.error h

  -- With as much fuel as there are bytes the loop gives a result.
  process_frames_total :
      (fuel : ℕ) (c : Core W) (buf : Bytes)
      → length buf ≤ fuel
      → (r : Core W × Bytes × Bool) × (process_frames fx fuel p c buf ≡ some r)
  unfolding process_frames
  process_frames_total fuel c [] h = ((c, [], true), refl)
  process_frames_total zero c (b ∷ bs) h = absurd (omega arith)
  process_frames_total (suc fuel) c (b ∷ bs) h = elim (Next-cases (round fx p c (b ∷ bs))) [
    | inl (c', alive, e) ↦ ((c', b ∷ bs, alive), rw (e, process_frames))
    | inr (c', n, e) ↦
        let (r, done) =
          process_frames_total fuel c' (drop n (b ∷ bs))
            (omega (arith, length-drop n (b ∷ bs), round-advances c c' (b ∷ bs) n e)) in
        (r, rw (e, process_frames) done)
  ]

abbrev HasResult {ℓ} : {A : Type ℓ} → Option A → Type ℓ
HasResult {A} o = (r : A) × (o ≡ some r)

module _ {ℓ} {A : Type ℓ} where
  some-HasResult : (a : A) → HasResult (some a)
  some-HasResult a = (a, refl)

  if-HasResult :
      (b : Bool) (x y : Option A) → HasResult x → HasResult y → HasResult (if b then x else y)
  if-HasResult true x y h k = h
  if-HasResult false x y h k = k

module _ {E F W : Type 0} (fx : Effects E F W) where
  loop_from_total : (s : Session E F W) (p : TrackerProtocol E F) → HasResult (loop_from fx s p)
  unfolding resume
  loop_from_total s p =
      let (r, e) = process_frames_total fx p (length s.buf) s.core s.buf (omega arith) in
      ((record s { core = r.0; protocol = some p; buf = r.1 }, r.2), rw (e, resume))

  detected_total :
      (s : Session E F W) (o : Option (TrackerProtocol E F)) → HasResult (detected fx s o)
  unfolding detected
  detected_total s (some p) = loop_from_total s p
  detected_total s none =
      if-HasResult (ltb (length s.buf) 8) _ _ (some-HasResult _) (some-HasResult _)

  identified_total :
      (registry : List (TrackerProtocol E F)) (s : Session E F W) (o : Option (TrackerProtocol E F))
      → HasResult (identified fx registry s o)
  unfolding identified
  identified_total registry s (some p) = loop_from_total s p
  identified_total registry s none = detected_total s (detect_first registry s.buf)

  process_total :
      (max_packet_size : ℕ) (registry : List (TrackerProtocol E F)) (s : Session E F W)
      → HasResult (process fx max_packet_size registry s)
  unfolding process
  process_total max_packet_size registry s =
      if-HasResult (ltb max_packet_size (length s.buf)) _ _ (some-HasResult _)
        (identified_total registry s s.protocol)

  run_on_total :
      (o : Option (Session E F W × Bool)) (rest : Session E F W → Option (Session E F W × Bool))
      → HasResult o
      → ((s : Session E F W) → HasResult (rest s))
      → HasResult (run_on fx o rest)
  unfolding run_on
  run_on_total none rest h k = absurd (cc h.1)
  run_on_total (some (s, true)) rest h k = k s
  run_on_total (some (s, false)) rest h k = ((s, false), refl)

  -- Whatever the adapters answer and however the stream is cut, the read loop comes back from every
  -- chunk: no adapter can make `process` spin.
  pub run_total :
      (max_packet_size : ℕ) (registry : List (TrackerProtocol E F)) (s : Session E F W)
      (chunks : List Bytes)
      → (r : Session E F W × Bool) × (run fx max_packet_size registry s chunks ≡ some r)
  unfolding run
  run_total max_packet_size registry s [] = ((s, true), refl)
  run_total max_packet_size registry s (chunk ∷ chunks) =
      run_on_total (process fx max_packet_size registry (record s { buf = s.buf ++ chunk }))
        (λ s'. run fx max_packet_size registry s' chunks)
        (process_total max_packet_size registry (record s { buf = s.buf ++ chunk }))
        (λ s'. run_total max_packet_size registry s' chunks)
