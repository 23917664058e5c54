-- ===== src/Tkstar/V1.antt =====
-- protocol_v1.go: the dialects V1 and V1.8, whose sentences end in ";".
pub mod Place
pub mod Safety
use farbo_rastreamento.Prelude.{
  ℕ, ◌+◌, Bool, true, false, not, ◌&&◌, ◌||◌, Option, none, some, List, [], ◌∷◌, ◌++◌, map, ltb,
  leb, ◌==◌, if◌then◌else◌, length, take, Result, ok, err, ◌>>=◌, ◌>>◌, fail_if,
}
use farbo_rastreamento.Prelude.Words.{Bytes}
use farbo_rastreamento.Prelude.Maps.{text_eq}
use farbo_rastreamento.Protocols.Floats.{FloatOps, valid_coordinates, knots_to_kmh}
use farbo_rastreamento.Protocols.Calendar.{Time, CivilTime, date}
use farbo_rastreamento.Protocols.Stamps.{two_digits, full_year, is_civil, ◌>>=?◌}
use farbo_rastreamento.Protocols.Coordinates.{CoordinateError, dd_mm_to_decimal}
use farbo_rastreamento.Protocols.Text.{
  codes, trim_space, trim_suffix, has_prefix, split, to_upper, to_lower, is_empty, ℤ, pos, negsuc,
  atoi,
}
use farbo_rastreamento.Protocols.Imei.{ImeiError, validate_imei}
use farbo_rastreamento.Protocols.Message.{
  TrackerMessage, empty_message, MessageKind, login, heartbeat, position, status, alarm, other,
  AlarmLabel, sos, low_battery, vibration, overspeed, Attribute, message_type, unrecognized,
  short_packet, timestamp_fallback, lbs_positioning, unmapped_type,
}
use farbo_rastreamento.Tkstar.Frame.{index_of, is_separator}
use farbo_rastreamento.Tkstar.Fields.{
  field, parse_float_field, parse_int_field, extract_imei, is_all_digits,
}

-- The variant: its name, and whether it appends altitude and battery.
pub record Variant : Type 0 where
  pub name : Bytes
  pub extended : Bool

abbrev pub v1 : Variant
v1 = record { name = codes "tkstar_v1"; extended = false }

abbrev pub v1_extended : Variant
v1_extended = record { name = codes "tkstar_v1_8"; extended = true }

-- The fields of a position.
abbrev field_imei : ℕ
field_imei = 0

abbrev field_type : ℕ
field_type = 1

abbrev field_local_time : ℕ
field_local_time = 2

abbrev field_fix : ℕ
field_fix = 4

abbrev field_utc_time : ℕ
field_utc_time = 5

abbrev field_valid : ℕ
field_valid = 6

abbrev field_lat : ℕ
field_lat = 7

abbrev field_lat_hemi : ℕ
field_lat_hemi = 8

abbrev field_lon : ℕ
field_lon = 9

abbrev field_lon_hemi : ℕ
field_lon_hemi = 10

abbrev field_speed_kn : ℕ
field_speed_kn = 11

abbrev field_course : ℕ
field_course = 12

abbrev field_altitude : ℕ
field_altitude = 13

abbrev field_battery : ℕ
field_battery = 14

abbrev min_fields : ℕ
min_fields = 12

-- `strings.TrimLeft(s, "\r\n ")`.
trim_separators : Bytes → Bytes
trim_separators [] = []
trim_separators (c ∷ cs) = if is_separator c then trim_separators cs else c ∷ cs

abbrev is_imei : Bytes → Bool
is_imei s = elim (validate_imei s) [ ok _ ↦ true | err _ ↦ false ]

-- A heartbeat is an identifier and the end mark, or digits of which more may come.
detect_plain : Bytes → Option ℕ → Bool
unfolding is_all_digits
detect_plain s none = leb (length s) 20 && is_all_digits s
detect_plain s (some i) =
    if ltb 9 i then is_imei (take i s) else leb (length s) 20 && is_all_digits s

unfoldable pub detect : Bytes → Bool
unfolding trim_separators detect_plain index_of has_prefix
detect bytes =
    let s = trim_separators bytes in
    if is_empty s
    then false
    else if has_prefix (codes "##,imei:") s || has_prefix (codes "imei:") s
    then true
    else detect_plain s (index_of b';' 0 s)

-- The ten characters of "0601021504": year, month, day, hour and minute.
abbrev parse_local : Bytes → Option CivilTime
parse_local (y ∷ y' ∷ m ∷ m' ∷ d ∷ d' ∷ h ∷ h' ∷ n ∷ n' ∷ []) = atoi (y ∷ y' ∷ []) >>=? λ year.
    two_digits m m' >>=? λ month. two_digits d d' >>=? λ day. two_digits h h' >>=? λ hour.
    two_digits n n' >>=? λ minute.
    let t : CivilTime = record {
      year = full_year year;
      month = month;
      day = day;
      hour = hour;
      minute = minute;
      second = 0;
    } in
    if is_civil t then some t else none
parse_local _ = none

-- The six characters of "150405", put into a date.
abbrev with_clock : CivilTime → Bytes → Option CivilTime
with_clock t (h ∷ h' ∷ n ∷ n' ∷ s ∷ s' ∷ []) = two_digits h h' >>=? λ hour.
    two_digits n n' >>=? λ minute. two_digits s s' >>=? λ second.
    if ltb hour 24 && (ltb minute 60 && ltb second 60)
    then some (record t { hour = hour; minute = minute; second = second })
    else none
with_clock t _ = none

-- `parseV1Timestamp`: the day of the tracker's clock with the time of UTC.
unfoldable pub parse_v1_timestamp : Bytes → Bytes → Option Time
unfolding date
parse_v1_timestamp local utc =
    if ltb (length local) 10
    then none
    else parse_local (take 10 local) >>=? λ day.
        if ltb (length utc) 6
        then some (date day)
        else with_clock day (take 6 utc) >>=? λ t. some (date t)

pub data V1Error : Type 0 where
  no_imei_field : V1Error
  bad_imei : ImeiError → V1Error
  bad_latitude : CoordinateError → V1Error
  bad_longitude : CoordinateError → V1Error
  out_of_range : V1Error

abbrev wrap {ℓ κ} : {E : Type ℓ} {A : Type κ} → (E → V1Error) → Result E A → Result V1Error A
wrap f (ok a) = ok a
wrap f (err e) = err (f e)

abbrev pub position_if_other : MessageKind → MessageKind
position_if_other other = position
position_if_other kind = kind

module _ {F : Type 0} ⦃fl : FloatOps F⦄ where
  abbrev note : Attribute F → TrackerMessage F → TrackerMessage F
  note a msg = record msg { attributes = a ∷ msg.attributes }

  abbrev alarmed : AlarmLabel → TrackerMessage F → TrackerMessage F
  alarmed label msg = record msg { alarm_label = some label; kind = alarm }

  -- `applyV1Type`.
  unfoldable pub apply_v1_type : Bytes → TrackerMessage F → TrackerMessage F
  unfolding text_eq
  apply_v1_type kind msg =
      if text_eq kind (codes "tracker")
      then msg
      else if text_eq kind (codes "acc on")
      then record msg { acc = some true }
      else if text_eq kind (codes "acc off")
      then record msg { acc = some false }
      else if text_eq kind (codes "help me")
      then alarmed sos msg
      else if text_eq kind (codes "low battery")
      then alarmed low_battery msg
      else if text_eq kind (codes "move") || text_eq kind (codes "stockade")
      then alarmed vibration msg
      else if text_eq kind (codes "speed")
      then alarmed overspeed msg
      else if is_empty kind
      then msg
      else note (unmapped_type kind) msg

  -- The optional fields.
  unfoldable pub with_speed : Option F → TrackerMessage F → TrackerMessage F
  with_speed none msg = msg
  with_speed (some knots) msg = record msg { speed_kmh = knots_to_kmh knots }

  unfoldable pub with_course : Option F → TrackerMessage F → TrackerMessage F
  with_course none msg = msg
  with_course (some course) msg = record msg { heading = course }

  unfoldable pub with_timestamp : Option Time → TrackerMessage F → TrackerMessage F
  with_timestamp none msg = note timestamp_fallback msg
  with_timestamp (some t) msg = record msg { timestamp = t }

  unfoldable pub with_altitude : Option F → TrackerMessage F → TrackerMessage F
  with_altitude none msg = msg
  with_altitude (some altitude) msg = record msg { altitude = some altitude }

  unfoldable pub with_battery : Option ℤ → TrackerMessage F → TrackerMessage F
  with_battery (some (pos n)) msg =
      if leb n 100 then record msg { battery_percent = some n } else msg
  with_battery _ msg = msg

  unfoldable pub with_motion : List Bytes → TrackerMessage F → TrackerMessage F
  unfolding field parse_float_field parse_v1_timestamp with_speed with_course with_timestamp
  with_motion parts msg =
      with_timestamp
        (parse_v1_timestamp (field parts field_local_time) (field parts field_utc_time))
        (with_course (parse_float_field parts field_course)
          (with_speed (parse_float_field parts field_speed_kn) msg))

  -- The fields that V1.8 appends.
  unfoldable pub with_extension : List Bytes → TrackerMessage F → TrackerMessage F
  unfolding parse_float_field parse_int_field with_altitude with_battery
  with_extension parts msg =
      with_battery (parse_int_field parts field_battery)
        (with_altitude (parse_float_field parts field_altitude) msg)

  unfoldable pub with_fields : Variant → List Bytes → TrackerMessage F → TrackerMessage F
  unfolding with_motion with_extension
  with_fields variant parts msg =
      let timed = with_motion parts msg in
      if variant.extended then with_extension parts timed else timed

  -- A sentence with coordinates.
  unfoldable pub parse_located :
      Variant → List Bytes → TrackerMessage F → Result V1Error (TrackerMessage F)
  unfolding field with_fields
  parse_located variant parts msg = do
    latitude ←
        wrap bad_latitude (dd_mm_to_decimal (field parts field_lat) (field parts field_lat_hemi))
    longitude ←
        wrap bad_longitude (dd_mm_to_decimal (field parts field_lon) (field parts field_lon_hemi))
    fail_if (not (valid_coordinates latitude longitude)) out_of_range
    ok (
        with_fields variant parts (record msg {
          latitude = latitude;
          longitude = longitude;
          has_location = true;
          kind = position_if_other msg.kind;
        }))

  -- `F` is a fix by GPS, anything else a position by antennas, which is not read.
  unfoldable pub parse_fix :
      Variant → List Bytes → TrackerMessage F → Result V1Error (TrackerMessage F)
  unfolding parse_located field
  parse_fix variant parts msg =
      let fixed = text_eq (map to_upper (field parts field_fix)) (codes "F") in
      let valid = text_eq (map to_upper (field parts field_valid)) (codes "A") in
      let judged = record msg { gps_valid = fixed && valid } in
      if fixed
      then parse_located variant parts judged
      else ok (note lbs_positioning (record judged { kind = status }))

  unfoldable pub parse_data : Variant → Bytes → TrackerMessage F → Result V1Error (TrackerMessage F)
  unfolding parse_fix apply_v1_type field extract_imei
  parse_data variant line msg = do
    let parts = split b',' line
    imei ← wrap bad_imei (extract_imei (field parts field_imei))
    let kind = map to_lower (field parts field_type)
    let typed = apply_v1_type kind (note (message_type kind) (record msg { imei = imei }))
    if ltb (length parts) min_fields
        then ok (note short_packet typed)
        else parse_fix variant parts typed

  -- The second field of a login.
  unfoldable pub parse_login : List Bytes → TrackerMessage F → Result V1Error (TrackerMessage F)
  unfolding extract_imei
  parse_login (header ∷ id ∷ rest) msg = do
    imei ← wrap bad_imei (extract_imei id)
    ok (record msg { kind = login; imei = imei; ack = codes "LOAD" })
  parse_login _ msg = err no_imei_field

  unfoldable pub parse_heartbeat : Bytes → TrackerMessage F → Result V1Error (TrackerMessage F)
  unfolding extract_imei
  parse_heartbeat line msg = do
    imei ← wrap bad_imei (extract_imei line)
    ok (record msg { kind = heartbeat; imei = imei; ack = codes "ON" })

  unfoldable pub blank : Variant → Time → Bytes → TrackerMessage F
  blank variant now raw = record empty_message {
    protocol = variant.name;
    raw_payload = raw;
    kind = other;
    timestamp = now;
  }

  -- The switch of `Parse`, which always gives one message; `now` is the clock of the server.
  unfoldable pub parse : Variant → Time → Bytes → Result V1Error (TrackerMessage F)
  unfolding parse_data parse_login parse_heartbeat blank is_all_digits has_prefix
  parse variant now frame =
      let raw = trim_space frame in
      let line = trim_suffix b';' raw in
      if has_prefix (codes "##,") line
      then parse_login (split b',' line) (blank variant now raw)
      else if is_all_digits line
      then parse_heartbeat line (blank variant now raw)
      else if has_prefix (codes "imei:") line
      then parse_data variant line (blank variant now raw)
      else ok (note unrecognized (blank variant now raw))
