-- ===== src/Tracking/Examples.antt =====
-- The theorems on the ingestion at one device with two fences.
use farbo_rastreamento.Prelude.{
  ℕ, List, ◌≡◌, refl, arith, true, false, not, ◌&&◌, ◌||◌, none, some, [], ◌∷◌,
}
use farbo_rastreamento.Protocols.Floats.{Fraction, fraction_ops}
use farbo_rastreamento.Protocols.Message.{TrackerMessage, position, heartbeat}
use farbo_rastreamento.Commands.Store.{no_reason}
use farbo_rastreamento.Commands.Service.{Device, Env}
use farbo_rastreamento.Commands.Request.{engine_cut_blocked}
use farbo_rastreamento.Tracking.State.{state_of}
use farbo_rastreamento.Tracking.Positions.{Position, gps, latest_with_location, snapshot_of}
use farbo_rastreamento.Tracking.Positions.Freshness.{engine_cut_blocked-received}
use farbo_rastreamento.Tracking.Pages.{Stored, PageQuery, above, matching}
use farbo_rastreamento.Tracking.Pages.Complete.{export_from, export_from-asked, asked}
use farbo_rastreamento.Tracking.Events.{Field, Surroundings, contains}
use farbo_rastreamento.Tracking.Rules.{evaluate_overspeed, evaluate_geofences, limit_of}
use farbo_rastreamento.Tracking.Rules.Overspeed.{
  IsAlternating, Alternates, over_events, evaluate_overspeed-IsAlternating, evaluate_overspeed-band,
}
use farbo_rastreamento.Tracking.Rules.Fences.{
  fence_ids, is_enter, is_exit, evaluate_geofences-exact,
}
use farbo_rastreamento.Protocols.Text.{codes, pos}
use farbo_rastreamento.Tracking.Replies.{failed_response}

abbrev kmh : ℕ → Fraction
kmh n = record { up = n; down = 0; by = 1 }

abbrev tracker : Device
tracker = record { id = 5; imei = []; protocol = []; password = []; overrides = λ typ. [] }

-- A position that the tracker took at time 0 and kept until 1000.
abbrev kept_position : Position Fraction
kept_position = record {
  device_id = 5;
  gps_timestamp = 0;
  received_at = 1000;
  latitude = kmh 23;
  longitude = kmh 46;
  speed_kmh = kmh 76;
  heading = none;
  altitude = none;
  gps_valid = some true;
  satellites = none;
  hdop = none;
  acc = none;
  battery_voltage = none;
  battery_percent = none;
  gsm_level = none;
  relay_on = none;
  protocol = [];
  source = gps;
  raw_payload = [];
}

abbrev slow_position : Position Fraction
slow_position = record kept_position { speed_kmh = kmh 0 }

abbrev checking : Env Fraction
checking = record {
  by_name = λ name. none;
  snapshot = λ device. some (snapshot_of device (slow_position ∷ []));
  deliver = λ imei payload. none;
  random = none;
  unix_nano = 0;
  clock = λ moment. 1060;
  is_down = λ s. false;
  max_speed = kmh 5;
  max_age = 600;
  ack_timeout = 15;
}

slow_last : latest_with_location 5 (slow_position ∷ []) ≡ some slow_position
unfolding latest_with_location
slow_last = refl

engine_cut_blocked-received_example : engine_cut_blocked checking tracker ≡ no_reason
engine_cut_blocked-received_example =
    engine_cut_blocked-received checking tracker (slow_position ∷ []) slow_position refl slow_last
      (omega arith) refl

abbrev town : Surroundings Fraction
town = record {
  now = 1000;
  vehicle_for = λ device. some (record { id = 2; speed_limit_kmh = none });
  inside = λ lat lon. 7 ∷ [];
  insert_fails = false;
  default_limit = kmh 80;
  hysteresis = kmh 5;
}

abbrev quiet : Field Fraction
quiet = record { states = λ device. none; positions = []; trace = [] }

quiet-IsAlternating : IsAlternating 5 quiet
unfolding state_of over_events Alternates
quiet-IsAlternating = tt

evaluate_overspeed-IsAlternating_example :
    IsAlternating 5
      (evaluate_overspeed town none (record kept_position { speed_kmh = kmh 90 }) quiet)
evaluate_overspeed-IsAlternating_example =
    evaluate_overspeed-IsAlternating town none (record kept_position { speed_kmh = kmh 90 }) quiet 5
      quiet-IsAlternating

-- 76 is above 80 less 5, and not above 80.
over_limit : fraction_ops.le (kmh 76) (fraction_ops.sub (limit_of town none) (kmh 5)) ≡ false
unfolding limit_of
over_limit = refl

below : fraction_ops.lt (limit_of town none) (kmh 76) ≡ false
unfolding limit_of
below = refl

evaluate_overspeed-band_example :
    ((evaluate_overspeed town none kept_position quiet).trace ≡ [])
    × ((state_of 5 (evaluate_overspeed town none kept_position quiet).states).overspeed
        ≡ (state_of 5 quiet.states).overspeed)
evaluate_overspeed-band_example =
    evaluate_overspeed-band town none kept_position quiet over_limit below

evaluate_geofences-exact_example :
    let last = (state_of 5 quiet.states).inside_fences in
    let after = evaluate_geofences town (some 2) kept_position quiet in
    (contains 7 (fence_ids is_enter after.trace) ≡ (
      (contains 7 (7 ∷ []) && not (contains 7 last))
      || contains 7 (fence_ids is_enter quiet.trace)))
    × (contains 7 (fence_ids is_exit after.trace) ≡ (
        (contains 7 last && not (contains 7 (7 ∷ [])))
        || contains 7 (fence_ids is_exit quiet.trace)))
    × ((state_of 5 after.states).inside_fences ≡ 7 ∷ [])
evaluate_geofences-exact_example = evaluate_geofences-exact town (some 2) kept_position quiet 7 refl

abbrev beat : TrackerMessage Fraction
beat = record {
  imei = [];
  timestamp = 0;
  latitude = kmh 0;
  longitude = kmh 0;
  speed_kmh = kmh 0;
  heading = kmh 0;
  altitude = none;
  gps_valid = false;
  satellites = none;
  acc = some true;
  battery_voltage = none;
  gsm_level = some 3;
  raw_payload = [];
  kind = heartbeat;
  protocol = [];
  ack = [];
  has_location = false;
  alarm_label = none;
  correlation_key = 0;
  response = [];
  relay_on = none;
  battery_percent = none;
  hdop = none;
  attributes = [];
}

abbrev fix : TrackerMessage Fraction
fix = record beat { kind = position; has_location = true; gps_valid = true; timestamp = 900 }

-- A refusal, in capitals, and a reply that is none.
refused_reply : failed_response (codes "DYD=FAIL!") ≡ true
unfolding failed_response
refused_reply = refl

good_reply : failed_response (codes "DYD=Success!") ≡ false
unfolding failed_response
good_reply = refl

-- Three rows of the device and one of another, at two rows a page.
abbrev three_rows : List (Stored Fraction)
three_rows =
    (3, kept_position)
    ∷ (4, record kept_position { device_id = 6 })
    ∷ (7, slow_position)
    ∷ (9, kept_position)
    ∷ []

abbrev two_a_page : PageQuery
two_a_page = record { device_id = 5; from = 0; to = 100; limit = pos 2; after_id = 0 }

three_asked :
    asked two_a_page three_rows ≡ (3, kept_position) ∷ (7, slow_position) ∷ (9, kept_position) ∷ []
unfolding above matching
three_asked = refl

export_from-asked_example : export_from 4 two_a_page three_rows ≡ some (asked two_a_page three_rows)
export_from-asked_example =
    export_from-asked 4 two_a_page three_rows
      (omega arith, (omega arith, (omega arith, (omega arith, tt)))) (rw three_asked (omega arith))
