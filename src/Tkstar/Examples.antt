-- ===== src/Tkstar/Examples.antt =====
-- The dialects at concrete sentences.
use farbo_rastreamento.Prelude.{◌≡◌, refl, some, [], ◌∷◌, ok, err, Result, ◌++◌}
use farbo_rastreamento.Prelude.Words.{Bytes}
use farbo_rastreamento.Prelude.Maps.{text_eq}
use farbo_rastreamento.Protocols.Calendar.{date}
use farbo_rastreamento.Protocols.Floats.{Fraction, fraction_ops}
use farbo_rastreamento.Protocols.Framing.{FramerLaws, framed, skipped, wait}
use farbo_rastreamento.Protocols.Text.{codes, atoi}
use farbo_rastreamento.Protocols.Message.{
  TrackerMessage, empty_message, Command, engine_cut, set_interval,
}
use farbo_rastreamento.Tkstar.Frame.{next_frame}
use farbo_rastreamento.Tkstar.Frame.Contract.{next_frame-FramerLaws_text}
use farbo_rastreamento.Tkstar.V1.{v1, V1Error, parse, parse_v1_timestamp}
use farbo_rastreamento.Tkstar.Encode.{unconfirmed, default_commands, encode_command}

two_sentences : next_frame b';' (codes "ab;cd;") ≡ framed (codes "ab;") 3
unfolding next_frame
two_sentences = refl

line_break : next_frame b';' (0x0D ∷ 0x0A ∷ codes "ab;") ≡ skipped 2
unfolding next_frame
line_break = refl

half_sentence : next_frame b';' (codes "ab") ≡ wait
unfolding next_frame
half_sentence = refl

next_frame-FramerLaws_text_example : FramerLaws 1024 (next_frame b';')
next_frame-FramerLaws_text_example = next_frame-FramerLaws_text b';' 1024

abbrev cut : Command
cut = record {
  typ = engine_cut;
  unique_id = [];
  password = [];
  params = λ name. [];
  raw = [];
  correlation_key = 0;
}

interval_refused :
    encode_command default_commands (record cut { typ = set_interval })
    ≡ err (unconfirmed set_interval)
unfolding encode_command
interval_refused = refl

override_ended :
    encode_command default_commands (record cut { raw = codes "DY" }) ≡ ok (codes "DY#")
unfolding encode_command text_eq
override_ended = refl

abbrev line : Bytes
line =
    codes "imei:869247061234567,help me,2509171345,,F,134530.000,A,"
    ++ codes "2332.5000,S,04638.0000,W,10,0;"

abbrev message_of : Result V1Error (TrackerMessage Fraction) → TrackerMessage Fraction
message_of (ok msg) = msg
message_of (err e) = empty_message

abbrev call_for_help : TrackerMessage Fraction
call_for_help = message_of (parse v1 0 line)

day_of_tracker :
    parse_v1_timestamp (codes "2509171345") (codes "134530.000")
    ≡ some (date (record { year = 2025; month = 9; day = 17; hour = 13; minute = 45; second = 30 }))
unfolding parse_v1_timestamp atoi
day_of_tracker = refl
