-- ===== src/Tracking/Rules.antt =====
-- ingestor.go: the two rules that judge a stored position, `evaluateGeofences` and
-- `evaluateOverspeed`.
pub mod Overspeed
pub mod Fences
use farbo_rastreamento.Prelude.{
  ℕ, Bool, true, false, not, ◌&&◌, ◌||◌, Option, none, some, List, [], ◌∷◌, ltb, ◌==◌,
  if◌then◌else◌,
}
use farbo_rastreamento.Protocols.Calendar.{Time}
use farbo_rastreamento.Protocols.Floats.{FloatOps}
use farbo_rastreamento.Protocols.Message.{TrackerMessage, MessageKind, heartbeat, AlarmLabel}
use farbo_rastreamento.Tracking.State.{State, States, state_of, updated, update}
use farbo_rastreamento.Tracking.Positions.{Position, gps, insert}
use farbo_rastreamento.Tracking.Events.{
  EventType, ignition_on, ignition_off, overspeed, overspeed_end, geofence_enter, geofence_exit,
  gps_lost, gps_recovered, gsm_lost, gsm_recovered, Details, plain, gsm_level, limit, fence, Event,
  Note, recorded, published_relay, published_state, published_position, Field, Vehicle,
  Surroundings, tell, vehicle_id, changed_bool, contains, or_now, record_event, record_alarm,
}

abbrev pub is_false : Option Bool → Bool
is_false (some false) = true
is_false _ = false

module _ {F : Type 0} where
  -- The events that a position causes.
  abbrev pub at_position : Position F → EventType → Details F → Note F
  at_position pos typ details = recorded (record {
    device_id = pos.device_id;
    typ = typ;
    timestamp = pos.gps_timestamp;
    place = some (pos.latitude, pos.longitude, pos.speed_kmh);
    details = details;
  })

  -- The two loops of `evaluateGeofences`: the fences of one list that are not in the other.
  unfoldable pub emit_fences :
      Position F → Option ℕ → EventType → List ℕ → List ℕ → Field F → Field F
  unfolding contains
  emit_fences pos vehicle typ [] others w = w
  emit_fences pos vehicle typ (id ∷ ids) others w =
      emit_fences pos vehicle typ ids others
        (if contains id others then w else tell (at_position pos typ (fence id vehicle)) w)

  unfoldable pub evaluate_geofences : Surroundings F → Option ℕ → Position F → Field F → Field F
  unfolding emit_fences state_of update
  evaluate_geofences env vehicle pos w =
      let current = env.inside pos.latitude pos.longitude in
      let before = state_of pos.device_id w.states in
      if is_false pos.gps_valid
      then w
      else emit_fences pos vehicle geofence_exit before.inside_fences current (
          emit_fences pos vehicle geofence_enter current before.inside_fences (record w {
            states =
                update env.now pos.device_id (λ st. record st { inside_fences = current }) w.states;
          }))

module _ {F : Type 0} ⦃fl : FloatOps F⦄ where
  -- The limit of the vehicle, if it has one of its own.
  unfoldable pub limit_of : Surroundings F → Option (Vehicle F) → F
  limit_of env none = env.default_limit
  limit_of env (some v) = elim v.speed_limit_kmh [ none ↦ env.default_limit | some l ↦ l ]

  -- The detector: on above the limit, off again only at the limit less the hysteresis.
  unfoldable pub still_over : F → F → F → Bool → Bool
  still_over bound hysteresis speed true = not (fl.le speed (fl.sub bound hysteresis))
  still_over bound hysteresis speed false = fl.lt bound speed

  -- An event when the detector has changed.
  unfoldable pub emit_overspeed : F → Option ℕ → Position F → Bool → Bool → Field F → Field F
  emit_overspeed bound vehicle pos true false w =
      tell (at_position pos overspeed_end (limit bound vehicle)) w
  emit_overspeed bound vehicle pos false true w =
      tell (at_position pos overspeed (limit bound vehicle)) w
  emit_overspeed bound vehicle pos _ _ w = w

  unfoldable pub overspeed_at : Surroundings F → F → Option ℕ → Position F → Field F → Field F
  unfolding still_over emit_overspeed state_of update
  overspeed_at env bound vehicle pos w =
      let before = state_of pos.device_id w.states in
      let after = still_over bound env.hysteresis pos.speed_kmh before.overspeed in
      if fl.le bound (fl.of_nat 0)
      then w
      else emit_overspeed bound vehicle pos before.overspeed after (record w {
        states = update env.now pos.device_id (λ st. record st { overspeed = after }) w.states;
      })

  unfoldable pub evaluate_overspeed :
      Surroundings F → Option (Vehicle F) → Position F → Field F → Field F
  unfolding limit_of overspeed_at
  evaluate_overspeed env vehicle pos w =
      overspeed_at env (limit_of env vehicle) (vehicle_id vehicle) pos w
