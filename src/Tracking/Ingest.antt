-- ===== src/Tracking/Ingest.antt =====
-- ingestor.go: what a message of a tracker changes.
pub mod Telemetry
use farbo_rastreamento.Prelude.{
  ℕ, Bool, true, false, not, ◌&&◌, ◌||◌, Option, none, some, List, [], ◌∷◌, ltb, ◌==◌,
  if◌then◌else◌,
}
use farbo_rastreamento.Protocols.Calendar.{Time}
use farbo_rastreamento.Protocols.Floats.{FloatOps}
use farbo_rastreamento.Protocols.Message.{TrackerMessage, MessageKind, heartbeat, AlarmLabel}
use farbo_rastreamento.Tracking.State.{State, States, state_of, updated, update}
use farbo_rastreamento.Tracking.Positions.{Position, gps, insert}
use farbo_rastreamento.Tracking.Events.{
  EventType, ignition_on, ignition_off, overspeed, overspeed_end, geofence_enter, geofence_exit,
  gps_lost, gps_recovered, gsm_lost, gsm_recovered, Details, plain, gsm_level, limit, fence, Event,
  Note, recorded, published_relay, published_state, published_position, Field, Vehicle,
  Surroundings, tell, vehicle_id, changed_bool, contains, or_now, record_event, record_alarm,
}
use farbo_rastreamento.Tracking.Rules.{evaluate_geofences, evaluate_overspeed}

abbrev pub keep {ℓ} : {A : Type ℓ} → Option A → Option A → Option A
keep none old = old
keep (some a) old = some a

abbrev pub is_heartbeat : MessageKind → Bool
is_heartbeat heartbeat = true
is_heartbeat _ = false

module _ {F : Type 0} where
  -- What `processTelemetry` does to the state: a field that the message does not carry stays.
  unfoldable pub apply_message : Time → TrackerMessage F → State F → State F
  apply_message now msg st = record st {
    acc = keep msg.acc st.acc;
    relay_on = keep msg.relay_on st.relay_on;
    battery_percent = keep msg.battery_percent st.battery_percent;
    battery_voltage = keep msg.battery_voltage st.battery_voltage;
    gsm_level = keep msg.gsm_level st.gsm_level;
    gps_valid = if msg.has_location then some msg.gps_valid else st.gps_valid;
    last_heartbeat_at = if is_heartbeat msg.kind then some now else st.last_heartbeat_at;
  }

  -- The parts of `emitStateEvents`, each for one field that has changed to a known value.
  unfoldable emit_acc :
      Surroundings F → ℕ → TrackerMessage F → Option Bool → Option Bool → Field F → Field F
  unfolding changed_bool record_event
  emit_acc env device msg before none w = w
  emit_acc env device msg before (some on) w =
      if changed_bool before (some on)
      then record_event env device (if on then ignition_on else ignition_off) msg.timestamp msg
          plain w
      else w

  unfoldable emit_relay : Option ℕ → ℕ → Option Bool → Option Bool → Field F → Field F
  unfolding changed_bool
  emit_relay vehicle device before none w = w
  emit_relay vehicle device before (some on) w =
      if changed_bool before (some on) then tell (published_relay vehicle device on) w else w

  unfoldable emit_gps :
      Surroundings F → ℕ → TrackerMessage F → Option Bool → Option Bool → Field F → Field F
  unfolding changed_bool record_event
  emit_gps env device msg before none w = w
  emit_gps env device msg before (some valid) w =
      if changed_bool before (some valid)
      then record_event env device (if valid then gps_recovered else gps_lost) msg.timestamp msg
          plain w
      else w

  unfoldable emit_gsm :
      Surroundings F → ℕ → TrackerMessage F → Option ℕ → Option ℕ → Field F → Field F
  unfolding record_event
  emit_gsm env device msg (some b) (some a) w =
      if ltb 0 b && a == 0
      then record_event env device gsm_lost msg.timestamp msg (gsm_level 0) w
      else if b == 0 && ltb 0 a
      then record_event env device gsm_recovered msg.timestamp msg (gsm_level a) w
      else w
  emit_gsm env device msg _ _ w = w

  unfoldable pub emit_state_events :
      Surroundings F → ℕ → Option ℕ → State F → State F → TrackerMessage F → Field F → Field F
  unfolding emit_acc emit_relay emit_gps emit_gsm
  emit_state_events env device vehicle before after msg w =
      emit_gsm env device msg before.gsm_level after.gsm_level (
        emit_gps env device msg before.gps_valid after.gps_valid (
          emit_relay vehicle device before.relay_on after.relay_on
            (emit_acc env device msg before.acc after.acc w)))

  unfoldable pub build_position : Surroundings F → ℕ → TrackerMessage F → Position F
  build_position env device msg = record {
    device_id = device;
    gps_timestamp = or_now env.now msg.timestamp;
    received_at = 0;
    latitude = msg.latitude;
    longitude = msg.longitude;
    speed_kmh = msg.speed_kmh;
    heading = some msg.heading;
    altitude = msg.altitude;
    gps_valid = some msg.gps_valid;
    satellites = msg.satellites;
    hdop = msg.hdop;
    acc = msg.acc;
    battery_voltage = msg.battery_voltage;
    battery_percent = msg.battery_percent;
    gsm_level = msg.gsm_level;
    relay_on = msg.relay_on;
    protocol = msg.protocol;
    source = gps;
    raw_payload = msg.raw_payload;
  }

module _ {F : Type 0} ⦃fl : FloatOps F⦄ where
  -- The end of `processTelemetry`, for a message with a location.
  unfoldable store_position : Surroundings F → Option (Vehicle F) → Position F → Field F → Field F
  unfolding evaluate_overspeed evaluate_geofences insert
  store_position env vehicle pos w =
      let stored = record pos { received_at = env.now } in
      let inserted = record w { positions = insert env.now pos w.positions } in
      let judged =
        evaluate_geofences env (vehicle_id vehicle) stored
          (evaluate_overspeed env vehicle stored inserted) in
      if env.insert_fails then w else tell (published_position (vehicle_id vehicle) stored) judged

  unfoldable alarm_of :
      Surroundings F → ℕ → TrackerMessage F → Option AlarmLabel → Field F → Field F
  unfolding record_alarm
  alarm_of env device msg none w = w
  alarm_of env device msg (some label) w = record_alarm env device msg label w

  -- The branches on the location.
  unfoldable place_message :
      Surroundings F → ℕ → TrackerMessage F → State F → Bool → Field F → Field F
  unfolding build_position store_position
  place_message env device msg after true w =
      store_position env (env.vehicle_for device) (build_position env device msg) w
  place_message env device msg after false w =
      tell (published_state (vehicle_id (env.vehicle_for device)) after) w

  unfoldable pub process_telemetry : Surroundings F → ℕ → TrackerMessage F → Field F → Field F
  unfolding apply_message emit_state_events alarm_of place_message state_of updated update
  process_telemetry env device msg w =
      let before = state_of device w.states in
      let after = updated env.now device (apply_message env.now msg) w.states in
      let vehicle = env.vehicle_for device in
      let moved = record w {
        states = update env.now device (apply_message env.now msg) w.states;
      } in
      let told =
        alarm_of env device msg msg.alarm_label
          (emit_state_events env device (vehicle_id vehicle) before after msg moved) in
      place_message env device msg after msg.has_location told
