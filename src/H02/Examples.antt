-- ===== src/H02/Examples.antt =====
-- The theorems on the H02 adapter at a captured binary frame and at sentences.
use farbo_rastreamento.Prelude.{
  ◌≡◌, refl, true, false, some, List, [], ◌∷◌, ◌++◌, ok, err, Result, length, drop,
}
use farbo_rastreamento.Prelude.Words.{Bytes}
use farbo_rastreamento.Protocols.Calendar.{CivilTime, date}
use farbo_rastreamento.Protocols.Imei.{validate_imei}
use farbo_rastreamento.Prelude.Maps.{text_eq}
use farbo_rastreamento.Protocols.Coordinates.{dd_mm_to_decimal}
use farbo_rastreamento.Protocols.Floats.{Fraction, fraction_ops, parse_fraction, valid_coordinates}
use farbo_rastreamento.Protocols.Framing.{framed}
use farbo_rastreamento.Protocols.Text.{codes, split, trim_suffix, trim_space, to_upper, atoi}
use farbo_rastreamento.Protocols.Message.{
  TrackerMessage, empty_message, position, Command, engine_cut,
}
use farbo_rastreamento.H02.Frame.{next_frame}
use farbo_rastreamento.H02.Binary.{normalize_id, decode_binary}
use farbo_rastreamento.H02.Text.{decode_text}
use farbo_rastreamento.H02.Encode.{encode_typed, sentence_of, clock_text}
use farbo_rastreamento.H02.Encode.Sentence.{encode_typed-fields}

-- The start of a capture of a TK905, up to the status word.
abbrev capture : Bytes
capture =
    0x24 ∷ 0x59 ∷ 0x05 ∷ 0x10 ∷ 0x18 ∷ 0x93 ∷ 0x03 ∷ 0x14 ∷ 0x37 ∷ 0x10 ∷ 0x11 ∷ 0x21 ∷ 0x37 ∷ 0x57
    ∷ 0x32 ∷ 0x50 ∷ 0x02 ∷ 0x14 ∷ 0x50 ∷ 0x37 ∷ 0x07 ∷ 0x6A ∷ 0x00 ∷ 0x03 ∷ 0x44 ∷ 0xFF ∷ 0x7F
    ∷ 0xFB ∷ 0xFF ∷ []

abbrev read_or_empty : {E : Type 0} → Result E (TrackerMessage Fraction) → TrackerMessage Fraction
read_or_empty (ok msg) = msg
read_or_empty (err e) = empty_message

abbrev captured : TrackerMessage Fraction
captured = read_or_empty (decode_binary capture)

capture_imei : captured.imei ≡ codes "5905101893"
unfolding decode_binary validate_imei trim_space normalize_id valid_coordinates
capture_imei = refl

-- A frame that is cut one byte too late is refused.
cut_late : read_or_empty (decode_binary (drop 1 capture ++ 0x00 ∷ [])) ≡ empty_message
unfolding decode_binary empty_message validate_imei trim_space normalize_id
cut_late = refl

abbrev text_position : Bytes
text_position =
    codes "*HQ,869247061234567,V1,134530,A,2332.5000,S,04638.0000,W,000.00,000,170926,FFFFFBFF#"

abbrev placed : TrackerMessage Fraction
placed = read_or_empty (decode_text 0 text_position)

position_read :
    (placed.kind ≡ position)
    × (placed.gps_valid ≡ true)
    × (placed.acc ≡ some false)
    × (placed.timestamp
        ≡ date (record { year = 2026; month = 9; day = 17; hour = 13; minute = 45; second = 30 }))
unfolding decode_text date validate_imei trim_space split trim_suffix text_eq to_upper
    dd_mm_to_decimal parse_fraction valid_coordinates atoi
position_read = (refl, refl, refl, refl)

beat_read :
    (read_or_empty (decode_text 0 (codes "*HQ,869247061234567,HTBT,87#"))).battery_percent ≡ some 87
unfolding decode_text validate_imei trim_space split trim_suffix text_eq to_upper dd_mm_to_decimal
    parse_fraction valid_coordinates atoi
beat_read = refl

reply_read :
    (read_or_empty (decode_text 0 (codes "*HQ,869247061234567,V4,S20,134530#"))).response
    ≡ codes "S20,134530"
unfolding decode_text validate_imei trim_space split trim_suffix text_eq to_upper dd_mm_to_decimal
    parse_fraction valid_coordinates atoi
reply_read = refl

abbrev noon : CivilTime
noon = record { year = 2026; month = 9; day = 17; hour = 13; minute = 45; second = 30 }

abbrev cut_command : Command
cut_command = record {
  typ = engine_cut;
  unique_id = codes " 869247061234567";
  correlation_key = 0;
  password = [];
  params = λ key. [];
  raw = [];
}

abbrev cut_text : Bytes
cut_text = codes "*HQ,869247061234567,S20,134530,1,1#"

cut_encoded : encode_typed noon cut_command ≡ ok cut_text
unfolding encode_typed validate_imei trim_space
cut_encoded = refl

encode_typed-fields_example :
    (typ : Bytes) × (params : List Bytes) × (sentence_of engine_cut (λ key. []) ≡ ok (typ, params))
    × (split b',' (trim_suffix b'#' cut_text)
        ≡ codes "*HQ" ∷ trim_space (codes " 869247061234567") ∷ typ ∷ clock_text noon ∷ params)
    × (next_frame 0 cut_text ≡ framed cut_text (length cut_text))
encode_typed-fields_example = encode_typed-fields 0 noon cut_command cut_text cut_encoded
