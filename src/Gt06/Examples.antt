-- ===== src/Gt06/Examples.antt =====
-- The theorems on the GT06 adapter at concrete frames.
use farbo_rastreamento.Prelude.{◌≡◌, refl, arith, true, false, [], ◌∷◌, ok}
use farbo_rastreamento.Prelude.Words.{Bytes}
use farbo_rastreamento.Protocols.Calendar.{CivilTime}
use farbo_rastreamento.Protocols.Floats.{Fraction, fraction_ops}
use farbo_rastreamento.Protocols.Imei.{validate_imei}
use farbo_rastreamento.Protocols.Text.{codes, all_bytes, is_digit, trim_space}
use farbo_rastreamento.Protocols.Message.{Command, engine_cut, TrackerMessage, command_ack, login}
use farbo_rastreamento.Gt06.Frame.{build_frame, decode_frame}
use farbo_rastreamento.Gt06.Frame.RoundTrip.{decode_frame-build_frame}
use farbo_rastreamento.Gt06.Decode.{msg_command, msg_login, decode_reply_text}
use farbo_rastreamento.Gt06.Parse.{parse}
use farbo_rastreamento.Gt06.Encode.{
  encode_command, command_text, safe_custom, flagged_text, next_serial, typed_text, encode_text,
}
use farbo_rastreamento.Gt06.Simulate.{build_command_reply, build_login_frame, decode_server_command}
use farbo_rastreamento.Gt06.Simulate.RoundTrip.{
  encode_command-decode_server_command, parse-build_command_reply,
}
use farbo_rastreamento.Gt06.Simulate.Login.{parse-build_login_frame}

abbrev content : Bytes
content = 0x46 ∷ 0x04 ∷ 0x04 ∷ 0x00 ∷ 0x02 ∷ []

decode_frame-build_frame_example :
    decode_frame (build_frame 0x13 content 7)
    ≡ ok (record { typ = 0x13; content = content; serial = 7 })
decode_frame-build_frame_example = decode_frame-build_frame 0x13 content 7 (omega arith)

abbrev cut_command : Command
cut_command = record {
  typ = engine_cut;
  unique_id = codes "353419032347480";
  correlation_key = 7;
  password = codes "123456";
  params = λ key. [];
  raw = [];
}

abbrev cut_frame : Bytes
cut_frame = build_frame msg_command (flagged_text 7 (codes "DYD,123456#")) (next_serial 0)

encode_command_cut : encode_command 0 cut_command ≡ ok cut_frame
unfolding encode_command command_text encode_text safe_custom typed_text trim_space
encode_command_cut = refl

encode_command-decode_server_command_example :
    (text : Bytes) × (command_text cut_command ≡ ok text)
    × (safe_custom text ≡ true)
    × (decode_server_command cut_frame ≡ ok (7, text))
encode_command-decode_server_command_example =
    encode_command-decode_server_command 0 cut_command (omega arith) encode_command_cut

abbrev noon : CivilTime
noon = record { year = 2025; month = 6; day = 1; hour = 12; minute = 0; second = 0 }

parse-build_command_reply_example :
    (msg : TrackerMessage Fraction) × (parse false noon
        (build_command_reply 7 (codes "DYD=Success!") 3)
      ≡ ok (msg ∷ []))
    × (msg.kind ≡ command_ack)
    × (msg.correlation_key ≡ 7)
    × (msg.response ≡ decode_reply_text (codes "DYD=Success!"))
    × (msg.has_location ≡ false)
parse-build_command_reply_example =
    parse-build_command_reply false noon 7 (codes "DYD=Success!") 3 (omega arith) (omega arith)
      (omega arith)

abbrev some_imei : Bytes
some_imei = codes "353419032347480"

digits_only : all_bytes is_digit some_imei ≡ true
unfolding all_bytes
digits_only = refl

valid_imei : validate_imei some_imei ≡ ok tt
unfolding validate_imei trim_space
valid_imei = refl

parse-build_login_frame_example :
    (frame : Bytes) × (msg : TrackerMessage Fraction) × (build_login_frame some_imei 9 ≡ ok frame)
    × (parse true noon frame ≡ ok (msg ∷ []))
    × (msg.kind ≡ login)
    × (msg.imei ≡ some_imei)
    × (msg.ack ≡ build_frame msg_login [] 9)
parse-build_login_frame_example =
    parse-build_login_frame true noon some_imei 9 refl digits_only valid_imei (omega arith)
