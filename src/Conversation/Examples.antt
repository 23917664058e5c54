-- ===== src/Conversation/Examples.antt =====
-- The conversation at a request to cut an engine.
use farbo_rastreamento.Prelude.{
  ℕ, ◌≡◌, refl, ap, arith, true, false, not, none, some, [], ◌∷◌, Result, ok, err,
}
use farbo_rastreamento.Prelude.Words.{Bytes}
use farbo_rastreamento.Protocols.Calendar.{CivilTime}
use farbo_rastreamento.Protocols.Floats.{Fraction, fraction_ops}
use farbo_rastreamento.Protocols.Message.{TrackerMessage, engine_cut}
use farbo_rastreamento.Protocols.Text.{codes, trim_space}
use farbo_rastreamento.Gt06.Frame.{build_frame}
use farbo_rastreamento.Gt06.Decode.{msg_command, decode_reply_text}
use farbo_rastreamento.Gt06.Parse.{parse}
use farbo_rastreamento.Gt06.Encode.{
  EncodeError, encode_command, command_text, encode_text, safe_custom, typed_text, flagged_text,
  next_serial,
}
use farbo_rastreamento.Gt06.Simulate.{decode_server_command, build_command_reply}
use farbo_rastreamento.Commands.Store.{no_reason, get, set_sending, set_timeout}
use farbo_rastreamento.Commands.Store.Numbers.{Descends, IsNumbered}
use farbo_rastreamento.Commands.Service.{
  Device, Request, Adapter, Env, World, new_correlation_key, raw_for,
}
use farbo_rastreamento.Commands.Request.{send, guard, engine_cut_blocked}
use farbo_rastreamento.Commands.Request.Outcomes.{Passes}
use farbo_rastreamento.Commands.Request.Delivery.{created_row, sent_row, command_of}
use farbo_rastreamento.Commands.Answers.{sweep_timeouts}
use farbo_rastreamento.Tracking.Replies.{failed_response, handle_reply}
use farbo_rastreamento.Commands.Answers.Matching.{closed}
use farbo_rastreamento.Conversation.{send-handle_reply, send-sweep_timeouts}

abbrev tracker : Device
tracker = record {
  id = 5;
  imei = codes "353419032347480";
  protocol = codes "gt06";
  password = [];
  overrides = λ typ. [];
}

abbrev as_text : Result EncodeError Bytes → Result Bytes Bytes
as_text (ok payload) = ok payload
as_text (err e) = err []

abbrev gt06 : Adapter
gt06 = record { name = codes "gt06"; encode = λ cmd. as_text (encode_command 0 cmd) }

abbrev kmh : ℕ → Fraction
kmh n = record { up = n; down = 0; by = 1 }

abbrev calm : Env Fraction
calm = record {
  by_name = λ name. some gt06;
  snapshot = λ device. some (record { has_position = true; speed_kmh = kmh 0; timestamp = 1000 });
  deliver = λ imei payload. none;
  random = some (0 ∷ 0 ∷ 0 ∷ 9 ∷ []);
  unix_nano = 0;
  clock = λ moment. 1060;
  is_down = λ s. false;
  max_speed = kmh 5;
  max_age = 600;
  ack_timeout = 15;
}

abbrev cut_request : Request
cut_request = record {
  device = tracker;
  vehicle = some 2;
  typ = some engine_cut;
  params = λ key. [];
  raw_override = [];
  user = some 1;
  ip = codes "10.0.0.1";
}

abbrev idle : World
idle = record { table = record { rows = []; next_id = 0 }; trace = [] }

abbrev noon : CivilTime
noon = record { year = 2025; month = 6; day = 1; hour = 12; minute = 0; second = 0 }

abbrev packet : Bytes
packet = build_frame msg_command (flagged_text 9 (codes "DYD#")) (next_serial 0)

packet_encoded : encode_command 0 (command_of calm cut_request engine_cut) ≡ ok packet
unfolding encode_command command_text encode_text safe_custom typed_text trim_space
    new_correlation_key raw_for
packet_encoded = refl

cut_allowed : guard calm tracker engine_cut ≡ no_reason
unfolding guard engine_cut_blocked
cut_allowed = refl

calm-Passes : Passes calm cut_request engine_cut packet
calm-Passes = record {
  adapter = gt06;
  working = λ s. refl;
  known = refl;
  allowed = cut_allowed;
  speaks = refl;
  encoded = ap as_text packet_encoded;
}

idle-IsNumbered : IsNumbered idle.table
unfolding Descends
idle-IsNumbered = tt

key_drawn : new_correlation_key calm.random 0 ≡ 9
unfolding new_correlation_key
key_drawn = refl

send-handle_reply_example :
    let key = new_correlation_key calm.random 0 in
    let row =
      sent_row calm (set_sending (created_row calm cut_request engine_cut packet idle.table)) in
    (text : Bytes) × (msg : TrackerMessage Fraction) × (decode_server_command packet
      ≡ ok (key, text))
    × (parse false noon (build_command_reply key (codes "DYD=Success!") 3) ≡ ok (msg ∷ []))
    × (get row.id (handle_reply calm 5 (some 2) msg (send calm cut_request idle).1).table
        ≡ some (
            closed 1060
              (not (failed_response (decode_reply_text (codes "DYD=Success!"))))
              (decode_reply_text (codes "DYD=Success!"))
              row))
send-handle_reply_example =
    send-handle_reply calm calm cut_request engine_cut 0 packet idle false noon
      (codes "DYD=Success!") 3 (some 2) calm-Passes packet_encoded refl (λ s. refl) idle-IsNumbered
      (λ e. absurd (omega (arith, key_drawn, e))) (omega (arith, key_drawn)) (omega arith)
      (omega arith)

abbrev tomorrow : Env Fraction
tomorrow = record calm { clock = λ moment. 2000 }

send-sweep_timeouts_example :
    let row =
      sent_row calm (set_sending (created_row calm cut_request engine_cut packet idle.table)) in
    get row.id (sweep_timeouts tomorrow (send calm cut_request idle).1).table
    ≡ some (set_timeout row)
send-sweep_timeouts_example =
    send-sweep_timeouts calm tomorrow cut_request engine_cut packet idle calm-Passes refl refl
      (omega arith)
