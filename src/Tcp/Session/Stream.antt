-- ===== src/Tcp/Session/Stream.antt =====
-- session.go: a read of the socket is no packet. However the network cuts a stream of frames, the
-- session dispatches the same frames in the same order.
use mathlib.Core.List.{append_assoc}
use farbo_rastreamento.Prelude.{
  ℕ, ◌≤◌, ◌≡◌, refl, ap, ◌∙◌, Bool, true, false, Option, none, some, List, [], ◌∷◌, ◌++◌, arith,
  length, length-append, le→ltb, All,
}
use farbo_rastreamento.Prelude.Words.{Bytes}
use farbo_rastreamento.Protocols.Framing.{FramerLaws}
use farbo_rastreamento.Tcp.Session.{
  TrackerProtocol, Effects, Core, Session, process_frames, resume, identified, process, run_on, run,
}
use farbo_rastreamento.Tcp.Session.Feed.{concat, IsFrame, IsChunk, IsPending, deliver, carry, feed}

-- How a session ends up, whatever is left in its buffer.
abbrev pub ends : {E F W : Type 0} → Option (Session E F W × Bool) → Option (Core W × Bool)
ends none = none
ends (some (s, alive)) = some (s.core, alive)

-- A session that speaks `p`.
abbrev pub speaking : {E F W : Type 0} → TrackerProtocol E F → Core W → Bytes → Session E F W
speaking p c buf = record { core = c; protocol = some p; buf = buf }

module _ {E F W : Type 0} (fx : Effects E F W) (p : TrackerProtocol E F) where
  ends-resume :
      (c : Core W) (b : Bytes) (o : Option (Core W × Bytes × Bool))
      (rest : Session E F W → Option (Session E F W × Bool))
      → ends (run_on fx (resume fx (speaking p c b) p o) rest)
        ≡ carry fx p o (λ c' b'. ends (rest (speaking p c' b')))
  unfolding run_on resume
  ends-resume c b none rest = refl
  ends-resume c b (some (c', b', true)) rest = refl
  ends-resume c b (some (c', b', false)) rest = refl

  ends-process :
      (max_packet_size : ℕ) (registry : List (TrackerProtocol E F)) (c : Core W) (b : Bytes)
      (rest : Session E F W → Option (Session E F W × Bool))
      → length b ≤ max_packet_size
      → ends (run_on fx (process fx max_packet_size registry (speaking p c b)) rest)
        ≡ carry fx p (process_frames fx (length b) p c b) (λ c' b'. ends (rest (speaking p c' b')))
  unfolding process identified
  ends-process max_packet_size registry c b rest h =
      rw (le→ltb max_packet_size (length b) h) (ends-resume c b _ rest)

  module _ (top : ℕ) (laws : FramerLaws top p.next_frame) (limit : ℕ)
      (registry : List (TrackerProtocol E F)) where
    -- One more chunk leaves the buffer within the limit.
    chunk_fits :
        (chunk : Bytes) (chunks : List Bytes) (buf : Bytes) (fs : List Bytes)
        → buf ++ concat (chunk ∷ chunks) ≡ concat fs
        → IsPending buf fs
        → All (IsFrame p.next_frame top limit) fs
        → IsChunk chunk
        → length (buf ++ chunk) ≤ limit
    chunk_fits chunk chunks buf [] e pending good small = omega (
      arith,
      ap length e,
      length-append buf (chunk ++ concat chunks),
      length-append chunk (concat chunks),
      length-append buf chunk,
    )
    chunk_fits chunk chunks buf (f ∷ fs) e pending good small =
        omega (arith, length-append buf chunk)

    run_pending :
        (chunks : List Bytes) (c : Core W) (buf : Bytes) (fs : List Bytes)
        → buf ++ concat chunks ≡ concat fs
        → IsPending buf fs
        → All (IsFrame p.next_frame top limit) fs
        → All IsChunk chunks
        → ends (run fx limit registry (speaking p c buf) chunks) ≡ some (deliver fx p c fs)
    unfolding run deliver
    run_pending [] c buf [] e pending good small = refl
    run_pending [] c buf (f ∷ fs) e pending good small =
        absurd (omega (arith, ap length e, length-append buf [], length-append f (concat fs)))
    run_pending (chunk ∷ chunks) c buf fs e pending good small =
        ends-process limit registry c (buf ++ chunk) (λ s'. run fx limit registry s' chunks)
          (chunk_fits chunk chunks buf fs e pending good small.0)
        ∙ feed fx p top laws limit (concat chunks)
            (λ c' b'. ends (run fx limit registry (speaking p c' b') chunks))
            (length (buf ++ chunk)) c fs (buf ++ chunk) (append_assoc buf chunk (concat chunks) ∙ e)
            good (omega arith)
            (λ c' b' fs' e' pending' good'. run_pending chunks c' b' fs' e' pending' good' small.1)

    -- In a session that has chosen an adapter which keeps the laws of framing for frames up to a
    -- length, and whose buffer is empty, a stream of whole frames of at most that length, each of
    -- them with room for one read beside it under the limit, is dispatched frame by frame, up to the first that ends the session, however the reads
    -- cut it: the chunks, each of one read at most, matter only by what they add up to.
    pub run-deliver :
        (chunks : List Bytes) (c : Core W) (fs : List Bytes)
        → concat chunks ≡ concat fs
        → All (IsFrame p.next_frame top limit) fs
        → All IsChunk chunks
        → ends (run fx limit registry (speaking p c []) chunks) ≡ some (deliver fx p c fs)
    run-deliver chunks c [] e good small = run_pending chunks c [] [] e refl good small
    run-deliver chunks c (f ∷ fs) e good small =
        run_pending chunks c [] (f ∷ fs) e (good.0.0, refl) good small
