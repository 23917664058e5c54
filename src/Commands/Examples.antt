-- ===== src/Commands/Examples.antt =====
-- The theorems on commands at a table with a few rows.
use farbo_rastreamento.Prelude.{
  ℕ, ◌≡◌, ◌≢◌, refl, arith, true, false, Option, none, some, List, [], ◌∷◌, ok, err,
}
use farbo_rastreamento.Protocols.Floats.{Fraction, fraction_ops}
use farbo_rastreamento.Protocols.Message.{engine_cut}
use farbo_rastreamento.Protocols.Text.{codes}
use farbo_rastreamento.Commands.Store.{
  Status, sent, acknowledged, failed, rejected, no_reason, notice, position_unknown, Row,
  mark_sent_of, get, first_row, last_row, or_else, set_final, set_sending, find_open_by_correlation,
  find_oldest_open, not_found, unavailable,
}
use farbo_rastreamento.Commands.Store.Lifecycle.{IsKept}
use farbo_rastreamento.Commands.Store.Numbers.{Descends, IsNumbered}
use farbo_rastreamento.Commands.Service.{
  Device, Request, Adapter, Env, World, disconnected, refused, store_failed,
}
use farbo_rastreamento.Commands.Request.{
  send, reject, delivered, guard, engine_cut_blocked, failure_reason,
}
use farbo_rastreamento.Commands.Request.Safety.{transmissions, IsSafe, send-cut-IsSafe}
use farbo_rastreamento.Commands.Request.Outcomes.{Passes, send-sent, send-failed}
use farbo_rastreamento.Commands.Request.Delivery.{Gives, sent_row, created_row}
use farbo_rastreamento.Commands.Request.Refusals.{reject-reason_lost, delivered-unconfirmed}
use farbo_rastreamento.Commands.Answers.{handle_ack, sweep_timeouts}
use farbo_rastreamento.Commands.Answers.Matching.{
  closed, handle_ack-other_device, handle_ack-stray_key,
}
use farbo_rastreamento.Commands.History.{Call, request, answer, sweep, serve_all, serve_all-IsKept}

abbrev tracker : Device
tracker = record {
  id = 5;
  imei = codes "353419032347480";
  protocol = codes "gt06";
  password = [];
  overrides = λ typ. [];
}

abbrev kmh : ℕ → Fraction
kmh n = record { up = n; down = 0; by = 1 }

-- An adapter that encodes every command as one text.
abbrev encoder : Adapter
encoder = record { name = codes "gt06"; encode = λ cmd. ok (codes "DYD#") }

-- The vehicle stood still a minute ago, and everything works.
abbrev calm : Env Fraction
calm = record {
  by_name = λ name. some encoder;
  snapshot = λ device. some (record { has_position = true; speed_kmh = kmh 0; timestamp = 1000 });
  deliver = λ imei payload. none;
  random = some (0 ∷ 0 ∷ 0 ∷ 9 ∷ []);
  unix_nano = 0;
  clock = λ moment. 1060;
  is_down = λ s. false;
  max_speed = kmh 5;
  max_age = 600;
  ack_timeout = 15;
}

abbrev offline : Env Fraction
offline = record calm { deliver = λ imei payload. some disconnected }

-- The update to SENT fails.
abbrev unconfirmed : Env Fraction
unconfirmed = record calm { is_down = λ s. elim s [ mark_sent_of ↦ true | _ ↦ false ] }

abbrev cut_request : Request
cut_request = record {
  device = tracker;
  vehicle = some 2;
  typ = some engine_cut;
  params = λ key. [];
  raw_override = [];
  user = some 1;
  ip = codes "10.0.0.1";
}

abbrev row_of : ℕ → ℕ → Status → Option ℕ → Row
row_of id device status limit = record {
  id = id;
  device = device;
  command = engine_cut;
  payload = codes "DYD#";
  status = status;
  correlation_key = 9;
  requested_by = some 1;
  requested_at = 900;
  sent_at = none;
  acknowledged_at = none;
  timeout_at = limit;
  response = [];
  error = no_reason;
}

-- Command 2 is in flight, 1 belongs to another device, 0 is done.
abbrev busy : World
busy = record {
  table = record {
    rows = row_of 2 5 sent (some 1000) ∷ row_of 1 6 sent none ∷ row_of 0 5 acknowledged none ∷ [];
    next_id = 3;
  };
  trace = [];
}

abbrev idle : World
idle = record { table = record { rows = []; next_id = 0 }; trace = [] }

busy-IsNumbered : IsNumbered busy.table
unfolding Descends
busy-IsNumbered = (omega arith, (omega arith, (omega arith, tt)))

get_done : get 0 busy.table ≡ some (row_of 0 5 acknowledged none)
unfolding get first_row
get_done = refl

get_other : get 1 busy.table ≡ some (row_of 1 6 sent none)
unfolding get first_row
get_other = refl

abbrev calls : List (Call Fraction)
calls = request calm cut_request ∷ answer calm 5 (some 2) 9 (codes "OK") true ∷ sweep calm ∷ []

serve_all-IsKept_example : IsKept 0 (row_of 0 5 acknowledged none) (serve_all calls busy).table
serve_all-IsKept_example =
    serve_all-IsKept calls busy 0 (row_of 0 5 acknowledged none) busy-IsNumbered get_done

cut_allowed : guard calm tracker engine_cut ≡ no_reason
unfolding guard engine_cut_blocked
cut_allowed = refl

passes : Passes calm cut_request engine_cut (codes "DYD#")
passes = record {
  adapter = encoder;
  working = λ s. refl;
  known = refl;
  allowed = cut_allowed;
  speaks = refl;
  encoded = refl;
}

send-sent_example :
    Gives
      (sent_row calm
        (set_sending (created_row calm cut_request engine_cut (codes "DYD#") busy.table)))
      ((codes "353419032347480", codes "DYD#") ∷ transmissions [])
      (send calm cut_request busy)
send-sent_example = send-sent calm cut_request engine_cut (codes "DYD#") busy passes refl

offline_allowed : guard offline tracker engine_cut ≡ no_reason
unfolding guard engine_cut_blocked
offline_allowed = refl

offline-Passes : Passes offline cut_request engine_cut (codes "DYD#")
offline-Passes = record {
  adapter = encoder;
  working = λ s. refl;
  known = refl;
  allowed = offline_allowed;
  speaks = refl;
  encoded = refl;
}

send-failed_example :
    Gives
      (set_final failed
        (failure_reason disconnected)
        (set_sending (created_row offline cut_request engine_cut (codes "DYD#") busy.table)))
      (transmissions [])
      (send offline cut_request busy)
send-failed_example =
    send-failed offline cut_request engine_cut (codes "DYD#") disconnected busy offline-Passes refl

-- The request does transmit: its trace has one transmission more than the empty one.
cut_transmits : transmissions (send calm cut_request busy).1.trace ≢ transmissions busy.trace
unfolding Gives transmissions
cut_transmits e =
    let out = send-sent calm cut_request engine_cut (codes "DYD#") busy passes refl in cc (e, out.2)

send-cut-IsSafe_example : IsSafe calm 5
send-cut-IsSafe_example = send-cut-IsSafe calm cut_request busy refl cut_transmits

reject-reason_lost_example :
    ((reject calm cut_request engine_cut (notice position_unknown) idle).0
      ≡ err (refused (notice position_unknown)))
    × ((r : Row) × (get 0
            (reject calm cut_request engine_cut (notice position_unknown) idle).1.table
          ≡ some r)
        × (r.status ≡ rejected)
        × (r.error ≡ no_reason))
reject-reason_lost_example =
    reject-reason_lost calm cut_request engine_cut (notice position_unknown) idle (λ s. refl)

delivered-unconfirmed_example :
    let after = delivered unconfirmed cut_request (codes "DYD#") (row_of 1 6 sent none) none busy in
    (after.0 ≡ err (store_failed unavailable))
    × (transmissions after.1.trace
        ≡ (codes "353419032347480", codes "DYD#") ∷ transmissions busy.trace)
    × (get 1 (sweep_timeouts calm after.1).table ≡ some (row_of 1 6 sent none))
delivered-unconfirmed_example =
    delivered-unconfirmed unconfirmed calm cut_request (codes "DYD#") (row_of 1 6 sent none) busy
      refl refl get_other

handle_ack-other_device_example :
    get 1 (handle_ack calm 5 (some 2) 9 (codes "OK") true busy).table ≡ some (row_of 1 6 sent none)
handle_ack-other_device_example =
    handle_ack-other_device calm 5 (some 2) 9 (codes "OK") true busy 1 (row_of 1 6 sent none)
      busy-IsNumbered get_other (λ e. absurd (omega (arith, e)))

stray : find_open_by_correlation false 5 8 busy.table ≡ err not_found
unfolding find_open_by_correlation first_row
stray = refl

oldest : find_oldest_open false 5 busy.table ≡ ok (row_of 2 5 sent (some 1000))
unfolding find_oldest_open last_row or_else
oldest = refl

handle_ack-stray_key_example :
    (get 2 (handle_ack calm 5 (some 2) 8 (codes "OK") true busy).table
      ≡ some (closed 1060 true (codes "OK") (row_of 2 5 sent (some 1000))))
    × ((row_of 2 5 sent (some 1000)).correlation_key ≢ 8)
handle_ack-stray_key_example =
    handle_ack-stray_key calm 5 (some 2) 8 (codes "OK") true busy (row_of 2 5 sent (some 1000))
      (λ s. refl) busy-IsNumbered (λ e. absurd (omega (arith, e))) stray oldest
