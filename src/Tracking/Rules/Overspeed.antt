-- ===== src/Tracking/Rules/Overspeed.antt =====
-- ingestor.go, `evaluateOverspeed`: one event when a vehicle gets too fast, one when it has slowed
-- down.
use farbo_rastreamento.Prelude.{
  ℕ, Bool, true, false, Option, List, [], ◌∷◌, ◌≡◌, refl, sym, subst, ◌∙◌, arith, ◌==◌,
  if◌then◌else◌, Bool-cases, inl, inr, ==_iff, ==_refl,
}
use farbo_rastreamento.Protocols.Floats.{FloatOps}
use farbo_rastreamento.Tracking.State.{States, state_of, update, updated}
use farbo_rastreamento.Tracking.Positions.{Position}
use farbo_rastreamento.Tracking.Events.{
  EventType, overspeed, overspeed_end, Note, recorded, Field, Vehicle, Surroundings, vehicle_id,
}
use farbo_rastreamento.Tracking.Rules.{
  still_over, emit_overspeed, overspeed_at, evaluate_overspeed, limit_of,
}

abbrev is_over : EventType → Bool
is_over overspeed = true
is_over overspeed_end = true
is_over _ = false

-- The events of the detector of one device, the newest first.
unfoldable pub over_events : {F : Type 0} → ℕ → List (Note F) → List EventType
over_events device [] = []
over_events device (recorded e ∷ ns) =
    let rest = over_events device ns in
    if e.device_id == device then (if is_over e.typ then e.typ ∷ rest else rest) else rest
over_events device (_ ∷ ns) = over_events device ns

-- Begin and end take turns, and the newest event agrees with the detector.
unfoldable pub Alternates : Bool → List EventType → Type 0
Alternates over [] = Unit {0}
Alternates true (overspeed ∷ es) = Alternates false es
Alternates false (overspeed_end ∷ es) = Alternates true es
Alternates _ (_ ∷ es) = ⊥

abbrev pub IsAlternating : {F : Type 0} → ℕ → Field F → Type 0
IsAlternating device w =
    Alternates (state_of device w.states).overspeed (over_events device w.trace)

overspeed-update :
    {F : Type 0} (now device d : ℕ) (over : Bool) (states : States F)
    → (state_of d (update now device (λ st. record st { overspeed = over }) states)).overspeed
      ≡ (if device == d then over else (state_of d states).overspeed)
unfolding state_of update updated
overspeed-update now device d over states = ground arith

module _ {F : Type 0} ⦃fl : FloatOps F⦄ where
  emit_overspeed-same :
      (bound : F) (vehicle : Option ℕ) (pos : Position F) (before after : Bool) (w : Field F)
      (d : ℕ)
      → (pos.device_id == d) ≡ true
      → Alternates before (over_events d w.trace)
      → Alternates after (over_events d (emit_overspeed bound vehicle pos before after w).trace)
  unfolding emit_overspeed over_events Alternates
  emit_overspeed-same bound vehicle pos true true w d e h = h
  emit_overspeed-same bound vehicle pos true false w d e h = rw e h
  emit_overspeed-same bound vehicle pos false true w d e h = rw e h
  emit_overspeed-same bound vehicle pos false false w d e h = h

  emit_overspeed-other :
      (bound : F) (vehicle : Option ℕ) (pos : Position F) (before after : Bool) (w : Field F)
      (d : ℕ)
      → (pos.device_id == d) ≡ false
      → over_events d (emit_overspeed bound vehicle pos before after w).trace
        ≡ over_events d w.trace
  unfolding emit_overspeed over_events
  emit_overspeed-other bound vehicle pos true true w d e = refl
  emit_overspeed-other bound vehicle pos true false w d e = rw e refl
  emit_overspeed-other bound vehicle pos false true w d e = rw e refl
  emit_overspeed-other bound vehicle pos false false w d e = refl

  states-emit_overspeed :
      (bound : F) (vehicle : Option ℕ) (pos : Position F) (before after : Bool) (w : Field F)
      → (emit_overspeed bound vehicle pos before after w).states ≡ w.states
  unfolding emit_overspeed
  states-emit_overspeed bound vehicle pos true true w = refl
  states-emit_overspeed bound vehicle pos true false w = refl
  states-emit_overspeed bound vehicle pos false true w = refl
  states-emit_overspeed bound vehicle pos false false w = refl

  overspeed_at-IsAlternating :
      (env : Surroundings F) (bound : F) (vehicle : Option ℕ) (pos : Position F) (w : Field F)
      (d : ℕ)
      → IsAlternating d w
      → IsAlternating d (overspeed_at env bound vehicle pos w)
  unfolding overspeed_at
  overspeed_at-IsAlternating env bound vehicle pos w d h =
      let before = (state_of pos.device_id w.states).overspeed in
      let after = still_over bound env.hysteresis pos.speed_kmh before in
      let states' = update env.now pos.device_id (λ st. record st { overspeed = after }) w.states in
      let w' = record w { states = states' } in
      elim (Bool-cases (fl.le bound (fl.of_nat 0))) [
        | inl free ↦ rw free h
        | inr bounded ↦ elim (Bool-cases (pos.device_id == d)) [
          | inl same ↦
              let e : pos.device_id ≡ d = (==_iff pos.device_id d).0 same in
              let now_over : (state_of d states').overspeed ≡ after =
                overspeed-update env.now pos.device_id d after w.states ∙ ground (arith, same) in
              let was : Alternates before (over_events d w.trace) =
                subst (λ x. Alternates (state_of x w.states).overspeed (over_events d w.trace))
                  (sym e) h in
              let told = emit_overspeed-same bound vehicle pos before after w' d same was in
              rw (bounded, states-emit_overspeed bound vehicle pos before after w')
                (subst
                  (λ o.
                    Alternates o
                      (over_events d (emit_overspeed bound vehicle pos before after w').trace))
                  (sym now_over) told)
          | inr other ↦
              let now_over : (state_of d states').overspeed ≡ (state_of d w.states).overspeed =
                overspeed-update env.now pos.device_id d after w.states ∙ ground (arith, other) in
              rw (bounded, states-emit_overspeed bound vehicle pos before after w')
                (rw (emit_overspeed-other bound vehicle pos before after w' d other)
                  (subst (λ o. Alternates o (over_events d w.trace)) (sym now_over) h))
        ]
      ]

  -- Whatever positions are judged, of whatever devices and under whatever limits, the events that
  -- the detector of a device has recorded keep taking turns: an end follows each begin, a begin
  -- each end, and the newest one agrees with the state of the detector.
  pub evaluate_overspeed-IsAlternating :
      (env : Surroundings F) (vehicle : Option (Vehicle F)) (pos : Position F) (w : Field F) (d : ℕ)
      → IsAlternating d w
      → IsAlternating d (evaluate_overspeed env vehicle pos w)
  unfolding evaluate_overspeed
  evaluate_overspeed-IsAlternating env vehicle pos w d h =
      overspeed_at-IsAlternating env (limit_of env vehicle) (vehicle_id vehicle) pos w d h

  still_over-band :
      (bound hysteresis speed : F) (over : Bool)
      → fl.le speed (fl.sub bound hysteresis) ≡ false
      → fl.lt bound speed ≡ false
      → still_over bound hysteresis speed over ≡ over
  unfolding still_over
  still_over-band bound hysteresis speed true above below = rw above refl
  still_over-band bound hysteresis speed false above below = below

  emit_overspeed-still :
      (bound : F) (vehicle : Option ℕ) (pos : Position F) (over : Bool) (w : Field F)
      → emit_overspeed bound vehicle pos over over w ≡ w
  unfolding emit_overspeed
  emit_overspeed-still bound vehicle pos true w = refl
  emit_overspeed-still bound vehicle pos false w = refl

  -- Between the limit less the hysteresis and the limit, a position changes nothing that was seen
  -- or recorded: the detector stays as it is, and there is no event.
  pub evaluate_overspeed-band :
      (env : Surroundings F) (vehicle : Option (Vehicle F)) (pos : Position F) (w : Field F)
      → fl.le pos.speed_kmh (fl.sub (limit_of env vehicle) env.hysteresis) ≡ false
      → fl.lt (limit_of env vehicle) pos.speed_kmh ≡ false
      → ((evaluate_overspeed env vehicle pos w).trace ≡ w.trace)
        × ((state_of pos.device_id (evaluate_overspeed env vehicle pos w).states).overspeed
            ≡ (state_of pos.device_id w.states).overspeed)
  unfolding evaluate_overspeed overspeed_at
  evaluate_overspeed-band env vehicle pos w above below =
      let bound = limit_of env vehicle in
      let before = (state_of pos.device_id w.states).overspeed in
      let still = still_over-band bound env.hysteresis pos.speed_kmh before above below in
      let states' =
        update env.now pos.device_id (λ st. record st { overspeed = before }) w.states in
      let w' = record w { states = states' } in
      let same : (state_of pos.device_id states').overspeed ≡ before =
        overspeed-update env.now pos.device_id pos.device_id before w.states
        ∙ ground (arith, ==_refl pos.device_id) in
      elim (Bool-cases (fl.le bound (fl.of_nat 0))) [
        | inl free ↦ rw free (refl, refl)
        | inr bounded ↦
            rw (bounded, still)
              (rw (emit_overspeed-still bound (vehicle_id vehicle) pos before w') (refl, same))
      ]
