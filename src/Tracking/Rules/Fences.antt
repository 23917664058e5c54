-- ===== src/Tracking/Rules/Fences.antt =====
-- ingestor.go, `evaluateGeofences`: which fences a position enters and leaves.
use farbo_rastreamento.Prelude.{
  ℕ, Bool, true, false, not, ◌&&◌, ◌||◌, Option, List, [], ◌∷◌, ◌≡◌, refl, ap, ◌∙◌, arith, ◌==◌,
  if◌then◌else◌, Bool-cases, inl, inr, ==_iff, ==_refl,
}
use farbo_rastreamento.Tracking.State.{States, state_of, update, updated}
use farbo_rastreamento.Tracking.Positions.{Position}
use farbo_rastreamento.Tracking.Events.{
  EventType, geofence_enter, geofence_exit, Details, fence, Note, recorded, Field, Surroundings,
  tell, contains,
}
use farbo_rastreamento.Tracking.Rules.{emit_fences, evaluate_geofences, at_position, is_false}

abbrev pub is_enter : EventType → Bool
is_enter geofence_enter = true
is_enter _ = false

abbrev pub is_exit : EventType → Bool
is_exit geofence_exit = true
is_exit _ = false

abbrev fence_of : {F : Type 0} → Details F → List ℕ → List ℕ
fence_of (fence id v) rest = id ∷ rest
fence_of _ rest = rest

-- The fences of the recorded events of one type.
unfoldable pub fence_ids : {F : Type 0} → (EventType → Bool) → List (Note F) → List ℕ
fence_ids p [] = []
fence_ids p (recorded e ∷ ns) =
    let rest = fence_ids p ns in if p e.typ then fence_of e.details rest else rest
fence_ids p (_ ∷ ns) = fence_ids p ns

contains-same :
    (x id : ℕ) (others : List ℕ) → (x == id) ≡ true → contains x others ≡ contains id others
contains-same x id others h = ap (λ y. contains y others) ((==_iff x id).0 h)

inside-kept :
    {F : Type 0} (now device : ℕ) (current : List ℕ) (states : States F)
    → (state_of device
        (update now device (λ st. record st { inside_fences = current }) states)).inside_fences
      ≡ current
unfolding state_of update updated
inside-kept now device current states = rw (==_refl device) refl

module _ {F : Type 0} where
  contains-told :
      (p : EventType → Bool) (pos : Position F) (vehicle : Option ℕ) (typ : EventType) (x id : ℕ)
      (w : Field F)
      → contains id (fence_ids p (tell (at_position pos typ (fence x vehicle)) w).trace)
        ≡ ((p typ && x == id) || contains id (fence_ids p w.trace))
  unfolding fence_ids contains
  contains-told p pos vehicle typ x id w = ground arith

  -- Told are the fences of the list that are not among the others.
  contains-emit_fences :
      (p : EventType → Bool) (pos : Position F) (vehicle : Option ℕ) (typ : EventType)
      (ids others : List ℕ) (w : Field F) (id : ℕ)
      → contains id (fence_ids p (emit_fences pos vehicle typ ids others w).trace) ≡ (
          (p typ && (contains id ids && not (contains id others)))
          || contains id (fence_ids p w.trace))
  unfolding emit_fences contains
  contains-emit_fences p pos vehicle typ [] others w id = ground arith
  contains-emit_fences p pos vehicle typ (x ∷ ids) others w id =
      let w' = if contains x others then w else tell (at_position pos typ (fence x vehicle)) w in
      contains-emit_fences p pos vehicle typ ids others w' id
      ∙ elim (Bool-cases (contains x others)) [
        | inl known ↦ rw known (ground (arith, contains-same x id others))
        | inr new ↦ rw new (
            rw (contains-told p pos vehicle typ x id w) (ground (arith, contains-same x id others)))
      ]

  states-emit_fences :
      (pos : Position F) (vehicle : Option ℕ) (typ : EventType) (ids others : List ℕ) (w : Field F)
      → (emit_fences pos vehicle typ ids others w).states ≡ w.states
  unfolding emit_fences
  states-emit_fences pos vehicle typ [] others w = refl
  states-emit_fences pos vehicle typ (x ∷ ids) others w =
      states-emit_fences pos vehicle typ ids others
        (if contains x others then w else tell (at_position pos typ (fence x vehicle)) w)
      ∙ elim (Bool-cases (contains x others)) [ inl known ↦ rw known refl | inr new ↦ rw new refl ]

  -- Judging a position with a valid fix records an entry into exactly the fences that it is in and
  -- the last judged one was not, an exit from exactly those that the last one was in and it is not,
  -- and keeps the fences that it is in for the next one.
  pub evaluate_geofences-exact :
      (env : Surroundings F) (vehicle : Option ℕ) (pos : Position F) (w : Field F) (id : ℕ)
      → is_false pos.gps_valid ≡ false
      → let current = env.inside pos.latitude pos.longitude in
        let last = (state_of pos.device_id w.states).inside_fences in
        let after = evaluate_geofences env vehicle pos w in
        (contains id (fence_ids is_enter after.trace) ≡ (
          (contains id current && not (contains id last))
          || contains id (fence_ids is_enter w.trace)))
        × (contains id (fence_ids is_exit after.trace) ≡ (
            (contains id last && not (contains id current))
            || contains id (fence_ids is_exit w.trace)))
        × ((state_of pos.device_id after.states).inside_fences ≡ current)
  unfolding evaluate_geofences
  evaluate_geofences-exact env vehicle pos w id fix =
      let current = env.inside pos.latitude pos.longitude in
      let last = (state_of pos.device_id w.states).inside_fences in
      let kept = record w {
        states =
            update env.now pos.device_id (λ st. record st { inside_fences = current }) w.states;
      } in
      let entered = emit_fences pos vehicle geofence_enter current last kept in
      rw fix (
        contains-emit_fences is_enter pos vehicle geofence_exit last current entered id
            ∙ contains-emit_fences is_enter pos vehicle geofence_enter current last kept id,
        contains-emit_fences is_exit pos vehicle geofence_exit last current entered id
            ∙ ap (λ b. (contains id last && not (contains id current)) || b)
                (contains-emit_fences is_exit pos vehicle geofence_enter current last kept id),
        ap (λ s. (state_of pos.device_id s).inside_fences)
              (states-emit_fences pos vehicle geofence_exit last current entered
                ∙ states-emit_fences pos vehicle geofence_enter current last kept)
            ∙ inside-kept env.now pos.device_id current w.states,
      )
