-- ===== src/Gt06/Decode.antt =====
-- decode.go: the fields of a packet's content.
use farbo_rastreamento.Prelude.{
  ℕ, ◌+◌, ◌*◌, ◌/◌, ◌%◌, Bool, true, not, ◌&&◌, ◌||◌, Option, none, some, [], ◌∷◌, ltb, ◌==◌,
  if◌then◌else◌, length, get_or, take, drop, slice, Result, ok, ◌>>◌, fail_if,
}
use farbo_rastreamento.Prelude.Words.{Bytes, u16_at, u32_at, bit_set}
use farbo_rastreamento.Protocols.Floats.{FloatOps, valid_coordinates}
use farbo_rastreamento.Protocols.Calendar.{date}
use farbo_rastreamento.Protocols.Text.{hex, hex_digit, trim_space}
use farbo_rastreamento.Protocols.Message.{
  TrackerMessage, charging, armed, AlarmLabel, sos, power_loss, vibration, geofence_enter,
  geofence_exit, overspeed, displacement, gps_lost, gps_recovered, low_battery, ignition_on,
  ignition_off, raw_alarm,
}

abbrev pub msg_login : ℕ
msg_login = 0x01

abbrev pub msg_gps : ℕ
msg_gps = 0x12

abbrev pub msg_heartbeat : ℕ
msg_heartbeat = 0x13

abbrev pub msg_string_info : ℕ
msg_string_info = 0x15

abbrev pub msg_alarm_gps : ℕ
msg_alarm_gps = 0x16

abbrev pub msg_gps_lbs2 : ℕ
msg_gps_lbs2 = 0x22

abbrev pub msg_alarm2 : ℕ
msg_alarm2 = 0x26

abbrev pub msg_alarm3 : ℕ
msg_alarm3 = 0x27

abbrev pub msg_gps_lbs_status : ℕ
msg_gps_lbs_status = 0x2D

abbrev pub msg_command : ℕ
msg_command = 0x80

abbrev pub msg_time_request : ℕ
msg_time_request = 0x8A

abbrev pub msg_gps_extended : ℕ
msg_gps_extended = 0xA0

abbrev pub gps_block_size : ℕ
gps_block_size = 18

unfoldable pub is_alarm : ℕ → Bool
is_alarm typ = typ == msg_alarm_gps || typ == msg_alarm2 || typ == msg_alarm3

unfoldable pub has_gps : ℕ → Bool
has_gps typ =
    typ == msg_gps
    || typ == msg_gps_lbs2
    || typ == msg_gps_lbs_status
    || typ == msg_gps_extended
    || typ == msg_alarm_gps
    || typ == msg_alarm2
    || typ == msg_alarm3

-- The sixteen digits of the first eight bytes, less the first.
unfoldable pub decode_imei : Bytes → Bytes
unfolding hex
decode_imei b = if ltb (length b) 8 then [] else drop 1 (hex hex_digit (take 8 b))

pub data GpsError : Type 0 where
  short_block : ℕ → GpsError
  bad_date : ℕ → ℕ → ℕ → GpsError
  bad_coordinates : GpsError

-- The byte at an index that the length check covers.
abbrev at : Bytes → ℕ → ℕ
at b i = get_or b i 0

module _ {F : Type 0} ⦃fl : FloatOps F⦄ where
  -- Latitude and longitude in units of 1/1800000 degree, with the sign from a bit of the flags.
  pub decode_degrees : ℕ → Bool → F
  decode_degrees units negative =
      let degrees = fl.div (fl.of_nat units) (fl.of_nat 1800000) in
      if negative then fl.neg degrees else degrees

  unfoldable pub decode_gps : TrackerMessage F → Bytes → Result GpsError (TrackerMessage F)
  unfolding decode_degrees
  decode_gps msg b = do
    fail_if (ltb (length b) gps_block_size) (short_block (length b))
    fail_if (ltb (at b 1) 1 || ltb 12 (at b 1) || ltb (at b 2) 1 || ltb 31 (at b 2))
        (bad_date (at b 0) (at b 1) (at b 2))
    let flags = u16_at (slice 16 18 b)
    let lat = decode_degrees (u32_at (slice 7 11 b)) (not (bit_set flags 10))
    let lon = decode_degrees (u32_at (slice 11 15 b)) (bit_set flags 11)
    fail_if (not (valid_coordinates lat lon)) bad_coordinates
    ok (record msg {
      timestamp = date (record {
        year = 2000 + at b 0;
        month = at b 1;
        day = at b 2;
        hour = at b 3;
        minute = at b 4;
        second = at b 5;
      });
      satellites = some (at b 6 % 16);
      speed_kmh = fl.of_nat (at b 15);
      heading = fl.of_nat (flags % 1024);
      gps_valid = bit_set flags 12;
      latitude = lat;
      longitude = lon;
      has_location = true;
    })

unfoldable pub lbs_block_size : Bytes → ℕ
lbs_block_size b = if ltb (length b) 2 then 0 else if bit_set (u16_at (take 2 b)) 15 then 9 else 8

-- The alarm in bits 5 to 3 of the terminal information; other codes keep the label.
info_alarm : ℕ → Option AlarmLabel → Option AlarmLabel
info_alarm code old =
    if code == 1
    then some vibration
    else if code == 2
    then some power_loss
    else if code == 3
    then some low_battery
    else if code == 4
    then some sos
    else old

unfoldable pub apply_terminal_info : {F : Type 0} → TrackerMessage F → ℕ → TrackerMessage F
unfolding info_alarm
apply_terminal_info msg info = record msg {
  relay_on = some (bit_set info 7);
  acc = some (bit_set info 1);
  attributes = armed (bit_set info 0) ∷ charging (bit_set info 2) ∷ msg.attributes;
  alarm_label = info_alarm (info / 8 % 8) msg.alarm_label;
}

-- `level` is a copy of the byte, cut to 6.
unfoldable pub battery_level_percent : ℕ → ℕ
battery_level_percent level = (if ltb 6 level then 6 else level) * 100 / 6

unfoldable pub alarm_label_of : ℕ → Option AlarmLabel
alarm_label_of code =
    if code == 0x00
    then none
    else if code == 0x01
    then some sos
    else if code == 0x02
    then some power_loss
    else if code == 0x03
    then some vibration
    else if code == 0x04
    then some geofence_enter
    else if code == 0x05
    then some geofence_exit
    else if code == 0x06
    then some overspeed
    else if code == 0x09
    then some displacement
    else if code == 0x0A
    then some gps_lost
    else if code == 0x0B
    then some gps_recovered
    else if code == 0x0E || code == 0x0F
    then some low_battery
    else if code == 0xFE
    then some ignition_on
    else if code == 0xFF
    then some ignition_off
    else some (raw_alarm code)

-- Every second byte from index 1 on.
low_bytes : Bytes → Bytes
low_bytes (_ ∷ b ∷ bs) = b ∷ low_bytes bs
low_bytes _ = []

-- Replies in UTF-16, and in ASCII.
unfoldable pub decode_reply_text : Bytes → Bytes
unfolding low_bytes
decode_reply_text b =
    if not (ltb (length b) 2) && at b 0 == 0 && not (at b 1 == 0)
    then trim_space (low_bytes b)
    else trim_space b
