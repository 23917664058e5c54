-- ===== src/H02/Binary.antt =====
-- binary.go: `decodeBinary` and the fields of a binary frame.
pub mod Safety
use farbo_rastreamento.Prelude.{
  ℕ, ◌+◌, ◌-◌, ◌*◌, ◌/◌, ◌%◌, Bool, true, false, not, ◌&&◌, ◌||◌, Option, none, some, List, [], ◌∷◌,
  ltb, leb, ◌==◌, if◌then◌else◌, length, take, drop, Result, ok, err, ◌>>=◌, ◌>>◌, fail_if,
}
use farbo_rastreamento.Prelude.Words.{Bytes, bit_set}
use farbo_rastreamento.Protocols.Floats.{FloatOps, valid_coordinates, knots_to_kmh}
use farbo_rastreamento.Protocols.Calendar.{Time}
use farbo_rastreamento.Protocols.Text.{codes, hex, hex_digit, hexdump}
use farbo_rastreamento.Protocols.Imei.{ImeiError, validate_imei}
use farbo_rastreamento.Protocols.Message.{
  TrackerMessage, empty_message, position, alarm, binary_form, frame_bytes, status_word, speed_raw,
  trailing, Attribute, AlarmLabel, vibration, sos, overspeed, power_loss,
}
use farbo_rastreamento.H02.Frame.{min_binary_payload}
use farbo_rastreamento.H02.Cursor.{
  BinaryError, short_frame, short_id, bad_id, coordinates_out_of_range, course_out_of_range,
  Reading, read_byte, read_bcd, read_uint32, read_latitude, read_longitude, read_binary_time,
}

abbrev pub name : Bytes
name = codes "h02"

unfoldable pub decode_battery : ℕ → Option ℕ
decode_battery value =
    if value == 0
    then none
    else if leb value 3
    then some ((value - 1) * 10)
    else if leb value 6
    then some ((value - 1) * 20)
    else if leb value 100
    then some value
    else if leb 0xF1 value && leb value 0xF6
    then some (value - 0xF0)
    else none

-- The bits of the status word; a bit that is clear is an alarm.
abbrev pub bit_vibration : ℕ
bit_vibration = 0

abbrev pub bit_sos : ℕ
bit_sos = 1

abbrev pub bit_overspeed : ℕ
bit_overspeed = 2

abbrev pub bit_ignition : ℕ
bit_ignition = 10

abbrev pub bit_sos_alt : ℕ
bit_sos_alt = 18

abbrev pub bit_power_cut : ℕ
bit_power_cut = 19

-- The switch of `applyStatus`.
unfoldable pub status_alarm : ℕ → Option AlarmLabel
status_alarm status =
    if not (bit_set status bit_vibration)
    then some vibration
    else if not (bit_set status bit_sos) || not (bit_set status bit_sos_alt)
    then some sos
    else if not (bit_set status bit_overspeed)
    then some overspeed
    else if not (bit_set status bit_power_cut)
    then some power_loss
    else none

-- The messages that it is applied to have no alarm before.
unfoldable pub apply_status : {F : Type 0} → TrackerMessage F → ℕ → TrackerMessage F
unfolding status_alarm
apply_status msg status = record msg {
  attributes = status_word status ∷ msg.attributes;
  alarm_label = status_alarm status;
  acc = some (bit_set status bit_ignition);
  kind = elim (status_alarm status) [ none ↦ msg.kind | some _ ↦ alarm ];
}

unfoldable pub id_size : Bytes → ℕ
id_size frame = if length frame == 42 then 8 else 5

-- `normalizeID`: the hexadecimal digits are those of the decimal number.
unfoldable pub normalize_id : Bytes → Bytes
unfolding hex
normalize_id raw = hex hex_digit raw

abbrev wrap_id {ℓ} : {A : Type ℓ} → Result ImeiError A → Result BinaryError A
wrap_id (ok a) = ok a
wrap_id (err e) = err (bad_id e)

-- What the bytes behind the status word give, if there are any.
abbrev with_trailing : {F : Type 0} → Bytes → TrackerMessage F → TrackerMessage F
with_trailing [] msg = msg
with_trailing (b ∷ bs) msg = record msg {
  attributes = trailing (hexdump (b ∷ bs)) ∷ msg.attributes;
}

module _ {F : Type 0} ⦃fl : FloatOps F⦄ where
  -- The sign of a coordinate, positive where its flag is set.
  unfoldable pub signed_by : Bool → F → F
  signed_by positive x = if positive then x else fl.neg x

  unfoldable pub start_binary : Bytes → TrackerMessage F
  start_binary frame = record (empty_message {F = F}) {
    protocol = name;
    kind = position;
    raw_payload = hexdump frame;
    attributes = frame_bytes (length frame) ∷ binary_form ∷ [];
  }

  -- The course and the status word, and what is left over.
  unfoldable pub decode_motion : TrackerMessage F → Bytes → Result BinaryError (TrackerMessage F)
  unfolding read_bcd read_byte read_uint32 apply_status
  decode_motion msg bs = do
    (speed, bs1) ← read_bcd 3 bs
    (course_high, bs2) ← read_byte bs1
    (course_low, bs3) ← read_bcd 2 bs2
    let course =
        fl.add (fl.mul (fl.of_nat (course_high % 16)) (fl.of_nat 100)) (fl.of_nat course_low)
    fail_if (fl.lt (fl.of_nat 360) course) course_out_of_range
    (status, bs4) ← read_uint32 bs3
    ok (
        with_trailing bs4 (
          apply_status
            (record msg {
              speed_kmh = knots_to_kmh (fl.of_nat speed);
              attributes = speed_raw (fl.of_nat speed) ∷ msg.attributes;
              heading = course;
            })
            status))

  -- The fields of a place; the flags have a bit for a valid fix, and one for each hemisphere.
  unfoldable pub located_at : TrackerMessage F → Time → F → ℕ → F → ℕ → TrackerMessage F
  unfolding signed_by
  located_at msg timestamp latitude battery longitude flags = record msg {
    timestamp = timestamp;
    battery_percent = decode_battery battery;
    gps_valid = bit_set flags 1;
    latitude = signed_by (bit_set flags 2) latitude;
    longitude = signed_by (bit_set flags 3) longitude;
    has_location = true;
  }

  -- The check of the coordinates, and what follows them.
  unfoldable pub decode_located : TrackerMessage F → Bytes → Result BinaryError (TrackerMessage F)
  unfolding decode_motion
  decode_located msg bs = do
    fail_if (not (valid_coordinates msg.latitude msg.longitude)) coordinates_out_of_range
    decode_motion msg bs

  -- The time, the battery and the place.
  unfoldable pub decode_place : TrackerMessage F → Bytes → Result BinaryError (TrackerMessage F)
  unfolding read_byte read_latitude read_longitude read_binary_time decode_located located_at
  decode_place msg bs = do
    (timestamp, bs1) ← read_binary_time bs
    (latitude, bs2) ← read_latitude bs1
    (battery, bs3) ← read_byte bs2
    (longitude, bs4) ← read_longitude bs3
    (flags, bs5) ← read_byte bs4
    decode_located (located_at msg timestamp latitude battery longitude flags) bs5

  unfoldable pub decode_binary : Bytes → Result BinaryError (TrackerMessage F)
  unfolding start_binary decode_place read_byte id_size
  decode_binary frame = do
    fail_if (ltb (length frame) min_binary_payload) (short_frame (length frame))
    (marker, bs) ← read_byte frame
    fail_if (ltb (length bs) (id_size frame)) short_id
    let id = normalize_id (take (id_size frame) bs)
    wrap_id (validate_imei id)
    decode_place (record (start_binary frame) { imei = id }) (drop (id_size frame) bs)
