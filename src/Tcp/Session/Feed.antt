-- ===== src/Tcp/Session/Feed.antt =====
-- session.go: what the loop of `process` does with whole frames and with parts of them.
use farbo_rastreamento.Prelude.{
  ℕ, zero, suc, ◌+◌, ◌≤◌, ◌<◌, ◌≡◌, ◌⊎◌, refl, sym, ap, subst, ◌∙◌, Bool, true, false, Option, none,
  some, List, [], ◌∷◌, ◌++◌, arith, length, length-drop, drop, take, take_seam, take_within,
  drop_seam, drop_within, take-append-drop, ltb, Bool-cases, inl, inr, All,
}
use farbo_rastreamento.Prelude.Words.{Bytes}
use farbo_rastreamento.Protocols.Framing.{Framed, framed, wait, FramerLaws}
use farbo_rastreamento.Tcp.Session.{
  read_chunk, TrackerProtocol, Effects, Core, stop, answer, take_frame, round, process_frames,
  dispatch,
}

-- A cut of two equal concatenations: the shorter first part is the start of the longer one.
module _ {ℓ} {A : Type ℓ} (b rest f r : List A) (e : b ++ rest ≡ f ++ r) where
  cut_inside : length b ≤ length f → b ≡ take (length b) f
  cut_inside h =
      sym (take_seam (length b) b rest refl) ∙ ap (take (length b)) e ∙ take_within (length b) f r h

  cut_behind : length f ≤ length b → drop (length f) b ++ rest ≡ r
  cut_behind h =
      sym (drop_within (length f) b rest h) ∙ ap (drop (length f)) e ∙ drop_seam (length f) f r refl

  cut_whole : length f ≤ length b → f ++ drop (length f) b ≡ b
  cut_whole h =
      ap (λ x. x ++ drop (length f) b)
        (sym (take_seam (length f) f r refl)
          ∙ sym (ap (take (length f)) e)
          ∙ take_within (length f) b rest h)
      ∙ take-append-drop (length f) b

abbrev pub concat : List Bytes → Bytes
concat [] = []
concat (f ∷ fs) = f ++ concat fs

-- A frame that the adapter separates whole, of a length that it waits for, and that fits in the
-- buffer beside one read.
abbrev pub IsFrame : (Bytes → Framed) → ℕ → ℕ → Bytes → Type 0
IsFrame next_frame top limit f =
    (0 < length f)
    × (next_frame f ≡ framed f (length f))
    × (length f ≤ top)
    × (length f + read_chunk ≤ limit)

-- A chunk that one read can deliver.
abbrev pub IsChunk : Bytes → Type 0
IsChunk chunk = length chunk ≤ read_chunk

-- What is left in the buffer is a proper part of the next frame, or nothing.
abbrev pub IsPending : Bytes → List Bytes → Type 0
IsPending buf [] = buf ≡ []
IsPending buf (f ∷ fs) = (length buf < length f) × (buf ≡ take (length buf) f)

outcome_cases :
    {W : Type 0} (r : Core W × Bool)
    → ((c : Core W) × (r ≡ (c, true))) ⊎ ((c : Core W) × (r ≡ (c, false)))
outcome_cases (c, true) = inl (c, refl)
outcome_cases (c, false) = inr (c, refl)

abbrev pub if_alive : {W : Type 0} → Core W × Bool → (Core W → Core W × Bool) → Core W × Bool
if_alive (c, true) k = k c
if_alive (c, false) k = (c, false)

module _ {E F W : Type 0} (fx : Effects E F W) (p : TrackerProtocol E F) where
  -- The frames dispatched in order, up to the first that ends the session.
  unfoldable pub deliver : Core W → List Bytes → Core W × Bool
  deliver c [] = (c, true)
  deliver c (f ∷ fs) = if_alive (dispatch fx p c f) (λ c'. deliver c' fs)

  -- The rounds of the loop at a whole frame, and at a part of one.
  round_whole :
      (c : Core W) (f more : Bytes)
      → 0 < length f
      → p.next_frame (f ++ more) ≡ framed f (length f)
      → round fx p c (f ++ more) ≡ take_frame fx p c (length f) (some f)
  unfolding round answer
  round_whole c f more pos h = ground arith

  round_part : (c : Core W) (buf : Bytes) → p.next_frame buf ≡ wait → round fx p c buf ≡ stop c true
  unfolding round answer
  round_part c buf h = ground arith

  -- The loop carried on by `k` while the session is alive.
  abbrev pub carry :
      Option (Core W × Bytes × Bool)
      → (Core W → Bytes → Option (Core W × Bool))
      → Option (Core W × Bool)
  carry none k = none
  carry (some (c, buf, true)) k = k c buf
  carry (some (c, buf, false)) k = some (c, false)

  process_frames-part :
      (fuel : ℕ) (c : Core W) (buf : Bytes)
      → length buf ≤ fuel
      → p.next_frame buf ≡ wait
      → process_frames fx fuel p c buf ≡ some (c, buf, true)
  unfolding process_frames
  process_frames-part fuel c [] h w = refl
  process_frames-part zero c (b ∷ bs) h w = absurd (omega arith)
  process_frames-part (suc fuel) c (b ∷ bs) h w = rw (round_part c (b ∷ bs) w, process_frames)

  process_frames-alive :
      (fuel : ℕ) (c c' : Core W) (f more : Bytes)
      → 0 < length f
      → p.next_frame (f ++ more) ≡ framed f (length f)
      → dispatch fx p c f ≡ (c', true)
      → process_frames fx (suc fuel) p c (f ++ more) ≡ process_frames fx fuel p c' more
  unfolding process_frames take_frame
  process_frames-alive fuel c c' [] more pos h d = absurd (omega arith)
  process_frames-alive fuel c c' (b ∷ bs) more pos h d =
      rw (round_whole c (b ∷ bs) more pos h, process_frames)
        (rw d (ap (process_frames fx fuel p c') (drop_seam (length bs) bs more refl)))

  process_frames-dead :
      (fuel : ℕ) (c c' : Core W) (f more : Bytes)
      → 0 < length f
      → p.next_frame (f ++ more) ≡ framed f (length f)
      → dispatch fx p c f ≡ (c', false)
      → process_frames fx (suc fuel) p c (f ++ more) ≡ some (c', f ++ more, false)
  unfolding process_frames take_frame
  process_frames-dead fuel c c' [] more pos h d = absurd (omega arith)
  process_frames-dead fuel c c' (b ∷ bs) more pos h d =
      rw (round_whole c (b ∷ bs) more pos h, process_frames) (rw d)

  module _ (top : ℕ) (laws : FramerLaws top p.next_frame) (limit : ℕ) (rest : Bytes)
      (k : Core W → Bytes → Option (Core W × Bool)) where
    -- What the later chunks do with what is left in the buffer.
    abbrev Later : Type 0
    Later =
        (c : Core W) (buf : Bytes) (fs : List Bytes)
        → buf ++ rest ≡ concat fs
        → IsPending buf fs
        → All (IsFrame p.next_frame top limit) fs
        → k c buf ≡ some (deliver c fs)

    -- The buffer ends inside the next frame.
    feed_part :
        (fuel : ℕ) (c : Core W) (f : Bytes) (fs : List Bytes) (b : Bytes)
        → b ++ rest ≡ f ++ concat fs
        → All (IsFrame p.next_frame top limit) (f ∷ fs)
        → length b ≤ fuel
        → length b < length f
        → Later
        → carry (process_frames fx fuel p c b) k ≡ some (deliver c (f ∷ fs))
    feed_part fuel c f fs b e good enough short later =
        let inside = cut_inside b rest f (concat fs) e (omega arith) in
        let w : p.next_frame b ≡ wait =
          ap p.next_frame inside ∙ laws.patient f f (length f) (length b) good.0.1 good.0.2 short in
        rw (process_frames-part fuel c b enough w) (later c b (f ∷ fs) e (short, inside) good)

    -- The buffer starts with the whole next frame: what follows is the business of `ahead`.
    feed_whole :
        (fuel : ℕ) (c : Core W) (f : Bytes) (fs : List Bytes) (more : Bytes)
        → IsFrame p.next_frame top limit f
        → ((c' : Core W) → carry (process_frames fx fuel p c' more) k ≡ some (deliver c' fs))
        → carry (process_frames fx (suc fuel) p c (f ++ more)) k ≡ some (deliver c (f ∷ fs))
    unfolding deliver
    feed_whole fuel c f fs more (pos, sep, waited, small) ahead =
        let whole = laws.stable f more f (length f) sep in
        elim (outcome_cases (dispatch fx p c f)) [
          | inl (c', d) ↦
              rw (process_frames-alive fuel c c' f more pos whole d) (rw (d, deliver) (ahead c'))
          | inr (c', d) ↦ rw (process_frames-dead fuel c c' f more pos whole d) (rw (d, deliver))
        ]

    pub feed :
        (fuel : ℕ) (c : Core W) (fs : List Bytes) (b : Bytes)
        → b ++ rest ≡ concat fs
        → All (IsFrame p.next_frame top limit) fs
        → length b ≤ fuel
        → Later
        → carry (process_frames fx fuel p c b) k ≡ some (deliver c fs)
    unfolding deliver process_frames
    feed fuel c [] [] e good enough later = later c [] [] e refl good
    feed fuel c [] (x ∷ b) e good enough later = cc
    feed zero c (f ∷ fs) b e good enough later =
        feed_part zero c f fs b e good enough (omega (arith, good.0.0)) later
    feed (suc fuel) c (f ∷ fs) b e good enough later =
        elim (Bool-cases (ltb (length b) (length f))) [
          | inl short ↦ feed_part (suc fuel) c f fs b e good enough (ground arith) later
          | inr long ↦
              let h : length f ≤ length b = ground arith in
              let more = drop (length f) b in
              let ahead = λ (c' : Core W).
                feed fuel c' fs more (cut_behind b rest f (concat fs) e h) good.1
                  (omega (arith, length-drop (length f) b, good.0.0)) later in
              subst (λ x. carry (process_frames fx (suc fuel) p c x) k ≡ some (deliver c (f ∷ fs)))
                (cut_whole b rest f (concat fs) e h) (feed_whole fuel c f fs more good.0 ahead)
        ]
