-- ===== src/H02/Text.antt =====
-- text.go: the sentences of the text form, read by the position of their fields. Texts are ASCII.
use farbo_rastreamento.Prelude.{
  ℕ, ◌+◌, ◌-◌, ◌*◌, ◌^◌, Bool, true, false, not, ◌&&◌, ◌||◌, Option, none, some, List, [], ◌∷◌,
  ◌++◌, map, ltb, leb, ◌==◌, if◌then◌else◌, length, get_or, take, drop, Result, ok, err, ◌>>=◌,
  ◌>>◌, fail_if,
}
use farbo_rastreamento.Prelude.Words.{Bytes}
use farbo_rastreamento.Prelude.Maps.{text_eq}
use farbo_rastreamento.Protocols.Floats.{FloatOps, valid_coordinates, knots_to_kmh}
use farbo_rastreamento.Protocols.Calendar.{Time, CivilTime, is_leap, date}
use farbo_rastreamento.Protocols.Stamps.{two_digits, full_year, is_civil, ◌>>=?◌}
use farbo_rastreamento.Protocols.Coordinates.{CoordinateError, dd_mm_to_decimal}
use farbo_rastreamento.Protocols.Text.{
  codes, trim_space, trim_suffix, split, join, to_upper, is_empty, is_digit, pos, ℤ, atoi,
}
use farbo_rastreamento.Protocols.Imei.{ImeiError, validate_imei}
use farbo_rastreamento.Protocols.Message.{
  TrackerMessage, empty_message, other, heartbeat, command_ack, position, Attribute, text_form,
  header, message_type, unrecognized, short_packet, speed_raw, timestamp_fallback,
  status_word_unparsed,
}
use farbo_rastreamento.H02.Binary.{name, apply_status}

abbrev pub field_id : ℕ
field_id = 1

abbrev field_kind : ℕ
field_kind = 2

abbrev field_time : ℕ
field_time = 3

abbrev field_valid : ℕ
field_valid = 4

abbrev field_lat : ℕ
field_lat = 5

abbrev field_lat_hem : ℕ
field_lat_hem = 6

abbrev field_lon : ℕ
field_lon = 7

abbrev field_lon_hem : ℕ
field_lon_hem = 8

abbrev field_speed : ℕ
field_speed = 9

abbrev field_course : ℕ
field_course = 10

abbrev field_date : ℕ
field_date = 11

abbrev field_status : ℕ
field_status = 12

abbrev min_fields : ℕ
min_fields = 12

-- `field`: nothing out of range.
unfoldable pub field : List Bytes → ℕ → Bytes
field parts i = trim_space (get_or parts i [])

unfoldable pub parse_int_field : List Bytes → ℕ → Option ℤ
unfolding field
parse_int_field parts i = if is_empty (field parts i) then none else atoi (field parts i)

unfoldable pub parse_float_field : {F : Type 0} → ⦃fl : FloatOps F⦄ → List Bytes → ℕ → Option F
unfolding field
parse_float_field ⦃fl⦄ parts i = if is_empty (field parts i) then none else fl.parse (field parts i)

-- The twelve characters of "020106150405": day, month, year, hour, minute and second.
unfoldable pub parse_stamp : Bytes → Option Time
unfolding is_leap date
parse_stamp (d ∷ d' ∷ m ∷ m' ∷ y ∷ y' ∷ h ∷ h' ∷ n ∷ n' ∷ s ∷ s' ∷ []) = two_digits d d' >>=? λ day.
    two_digits m m' >>=? λ month. atoi (y ∷ y' ∷ []) >>=? λ year. two_digits h h' >>=? λ hour.
    two_digits n n' >>=? λ minute. two_digits s s' >>=? λ second.
    let t : CivilTime = record {
      year = full_year year;
      month = month;
      day = day;
      hour = hour;
      minute = minute;
      second = second;
    } in
    if is_civil t then some (date t) else none
parse_stamp _ = none

unfoldable pub parse_text_timestamp : Bytes → Bytes → Option Time
unfolding parse_stamp
parse_text_timestamp day clock =
    if ltb (length day) 6 || ltb (length clock) 6
    then none
    else parse_stamp (take 6 day ++ take 6 clock)

abbrev hex_value : ℕ → Option ℕ
hex_value c =
    if is_digit c
    then some (c - b'0')
    else if leb b'a' c && leb c b'f'
    then some (c - b'a' + 10)
    else if leb b'A' c && leb c b'F'
    then some (c - b'A' + 10)
    else none

-- `strconv.ParseUint(s, 16, 32)` of a text that is not empty.
parse_hex : ℕ → Bytes → Option ℕ
parse_hex acc [] = if ltb acc (2 ^ 32) then some acc else none
parse_hex acc (c ∷ cs) = elim (hex_value c) [ none ↦ none | some v ↦ parse_hex (acc * 16 + v) cs ]

pub data TextError : Type 0 where
  bad_text_id : ImeiError → TextError
  bad_latitude : CoordinateError → TextError
  bad_longitude : CoordinateError → TextError
  text_out_of_range : TextError

abbrev wrap {ℓ κ} : {E : Type ℓ} {A : Type κ} → (E → TextError) → Result E A → Result TextError A
wrap f (ok a) = ok a
wrap f (err e) = err (f e)

-- `strings.HasPrefix(kind, "V")`.
abbrev starts_v : Bytes → Bool
starts_v [] = false
starts_v (c ∷ cs) = c == b'V'

-- The text of a reply.
unfoldable pub response_text : List Bytes → Bytes
unfolding field join
response_text parts =
    let joined = join b',' (drop 3 parts) in if is_empty joined then field parts 3 else joined

module _ {F : Type 0} ⦃fl : FloatOps F⦄ where
  abbrev note : Attribute F → TrackerMessage F → TrackerMessage F
  note a msg = record msg { attributes = a ∷ msg.attributes }

  -- The optional fields of a position.
  unfoldable with_speed : Option F → TrackerMessage F → TrackerMessage F
  with_speed none msg = msg
  with_speed (some knots) msg =
      note (speed_raw knots) (record msg { speed_kmh = knots_to_kmh knots })

  unfoldable with_course : Option F → TrackerMessage F → TrackerMessage F
  with_course none msg = msg
  with_course (some course) msg = record msg { heading = course }

  unfoldable with_timestamp : Option Time → TrackerMessage F → TrackerMessage F
  with_timestamp none msg = note timestamp_fallback msg
  with_timestamp (some t) msg = record msg { timestamp = t }

  unfoldable with_status : Bytes → TrackerMessage F → TrackerMessage F
  unfolding parse_hex apply_status
  with_status [] msg = msg
  with_status (c ∷ cs) msg = elim (parse_hex 0 (c ∷ cs)) [
    | none ↦ note (status_word_unparsed (c ∷ cs)) msg
    | some status ↦ apply_status msg status
  ]

  unfoldable pub decode_text_position :
      List Bytes → TrackerMessage F → Result TextError (TrackerMessage F)
  unfolding field parse_float_field parse_text_timestamp with_speed with_course with_timestamp
      with_status
  decode_text_position parts msg =
      if ltb (length parts) min_fields then ok (note short_packet msg) else (do
        latitude ←
            wrap bad_latitude (dd_mm_to_decimal (field parts field_lat) (field parts field_lat_hem))
        longitude ←
            wrap bad_longitude
              (dd_mm_to_decimal (field parts field_lon) (field parts field_lon_hem))
        fail_if (not (valid_coordinates latitude longitude)) text_out_of_range
        ok (
            with_status (field parts field_status) (
              with_timestamp
                (parse_text_timestamp (field parts field_date) (field parts field_time))
                (with_course (parse_float_field parts field_course) (
                  with_speed (parse_float_field parts field_speed) (record msg {
                    gps_valid = text_eq (map to_upper (field parts field_valid)) (codes "A");
                    latitude = latitude;
                    longitude = longitude;
                    has_location = true;
                    kind = position;
                  }))))))

  -- The battery of a heartbeat, if it is a percentage.
  unfoldable with_battery : Option ℤ → TrackerMessage F → TrackerMessage F
  with_battery (some (pos n)) msg =
      if leb n 100 then record msg { battery_percent = some n } else msg
  with_battery _ msg = msg

  -- The switch on the type of the sentence.
  unfoldable pub decode_sentence :
      List Bytes → Bytes → TrackerMessage F → Result TextError (TrackerMessage F)
  unfolding with_battery parse_int_field response_text decode_text_position
  decode_sentence parts kind msg =
      if text_eq kind (codes "HTBT")
      then ok (with_battery (parse_int_field parts 3) (record msg { kind = heartbeat }))
      else if text_eq kind (codes "V4")
      then ok (record msg { kind = command_ack; response = response_text parts })
      else if starts_v kind
      then decode_text_position parts msg
      else ok (note unrecognized msg)

  -- `now` is the clock of the server, the time of a sentence that has none.
  unfoldable pub decode_text : Time → Bytes → Result TextError (TrackerMessage F)
  unfolding decode_sentence field
  decode_text now frame = do
    let raw = trim_space frame
    let parts = split b',' (trim_suffix b'#' raw)
    let id = field parts field_id
    wrap bad_text_id (validate_imei id)
    let kind = map to_upper (field parts field_kind)
    decode_sentence parts kind (record (empty_message {F = F}) {
      protocol = name;
      kind = other;
      raw_payload = raw;
      timestamp = now;
      attributes = message_type kind ∷ header (field parts 0) ∷ text_form ∷ [];
      imei = id;
    })
