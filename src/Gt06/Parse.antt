-- ===== src/Gt06/Parse.antt =====
-- gt06.go: `Parse` and the decoders of each packet type.
use farbo_rastreamento.Prelude.{
  ℕ, ◌+◌, ◌-◌, Bool, true, false, ◌&&◌, ◌||◌, none, some, List, [], ◌∷◌, ltb, leb, ◌==◌,
  if◌then◌else◌, length, get_or, drop, slice, Result, ok, err, ◌>>=◌, ◌>>◌, fail_if,
}
use farbo_rastreamento.Prelude.Words.{Bytes, u32_at, to_byte}
use farbo_rastreamento.Protocols.Floats.{FloatOps}
use farbo_rastreamento.Protocols.Calendar.{CivilTime}
use farbo_rastreamento.Protocols.Text.{codes, hexdump}
use farbo_rastreamento.Protocols.Imei.{ImeiError, validate_imei}
use farbo_rastreamento.Protocols.Message.{
  TrackerMessage, empty_message, login, position, heartbeat, alarm, command_ack, other, packet_type,
  unhandled,
}
use farbo_rastreamento.Gt06.Frame.{
  Packet, FrameError, decode_frame, build_frame, start_short, start_long,
}
use farbo_rastreamento.Gt06.Decode.{
  msg_login, msg_heartbeat, msg_string_info, msg_time_request, gps_block_size, is_alarm, has_gps,
  decode_imei, GpsError, decode_gps, lbs_block_size, apply_terminal_info, battery_level_percent,
  alarm_label_of, decode_reply_text,
}

abbrev pub name : Bytes
name = codes "gt06"

unfoldable pub detect : Bytes → Bool
detect bs =
    if ltb (length bs) 2
    then false
    else (get_or bs 0 0 == start_short && get_or bs 1 0 == start_short)
      || (get_or bs 0 0 == start_long && get_or bs 1 0 == start_long)

pub data ParseError : Type 0 where
  frame_error : FrameError → ParseError
  imei_error : ImeiError → ParseError
  gps_error : GpsError → ParseError
  short_heartbeat : ℕ → ParseError
  short_reply : ℕ → ParseError

abbrev wrap {ℓ κ μ} : {E : Type ℓ} {E' : Type κ} {A : Type μ} → (E → E') → Result E A → Result E' A
wrap f (ok a) = ok a
wrap f (err e) = err (f e)

-- `buildTimeReply`, at the time `now`.
unfoldable pub build_time_reply : CivilTime → ℕ → Bytes
build_time_reply now serial =
    build_frame msg_time_request
      (to_byte (now.year - 2000)
        ∷ to_byte now.month
        ∷ to_byte now.day
        ∷ to_byte now.hour
        ∷ to_byte now.minute
        ∷ to_byte now.second
        ∷ [])
      serial

-- Terminal information, battery and GSM level, three bytes in a row.
unfoldable pub apply_status : {F : Type 0} → TrackerMessage F → Bytes → TrackerMessage F
apply_status msg b =
    let told = apply_terminal_info msg (get_or b 0 0) in
    record told {
      battery_percent = some (battery_level_percent (get_or b 1 0));
      gsm_level = some (get_or b 2 0);
    }

abbrev alarm_kind : {F : Type 0} → TrackerMessage F → TrackerMessage F
alarm_kind msg = elim msg.alarm_label [ none ↦ msg | some _ ↦ record msg { kind = alarm } ]

unfoldable pub decode_heartbeat :
    {F : Type 0} → TrackerMessage F → Packet → Result ParseError (TrackerMessage F)
unfolding apply_status
decode_heartbeat msg pkt = do
  fail_if (ltb (length pkt.content) 3) (short_heartbeat (length pkt.content))
  ok (alarm_kind (apply_status msg pkt.content))

-- The alarm byte behind the status, in the alarm packets.
unfoldable pub apply_alarm : {F : Type 0} → TrackerMessage F → ℕ → Bytes → TrackerMessage F
apply_alarm msg typ rest =
    if is_alarm typ && leb 1 (length rest)
    then elim (alarm_label_of (get_or rest 0 0)) [
      | none ↦ msg
      | some label ↦ record msg { alarm_label = some label; kind = alarm }
    ]
    else msg

-- What follows the GPS block: the block of the cell, if it is whole, then the status, then the
-- alarm.
unfoldable pub skip_lbs : Bytes → Bytes
skip_lbs rest =
    let n = lbs_block_size rest in if ltb 0 n && leb n (length rest) then drop n rest else rest

unfoldable pub after_gps : {F : Type 0} → TrackerMessage F → ℕ → Bytes → TrackerMessage F
unfolding apply_status apply_alarm
after_gps msg typ rest =
    if leb 3 (length rest)
    then apply_alarm (apply_status msg rest) typ (drop 3 rest)
    else apply_alarm msg typ rest

unfoldable pub decode_location :
    {F : Type 0}
    → ⦃fl : FloatOps F⦄ → TrackerMessage F
    → Packet
    → Result ParseError (TrackerMessage F)
unfolding after_gps skip_lbs
decode_location msg pkt = do
  located ← wrap gps_error (decode_gps msg pkt.content)
  ok (
      after_gps (record located { kind = position }) pkt.typ
        (skip_lbs (drop gps_block_size pkt.content)))

-- The length that a 0x15 or 0x80 packet states, or all that is there if it cannot be right.
unfoldable pub text_length : Bytes → ℕ
text_length content =
    let n = get_or content 0 0 in
    if ltb n 4 || ltb (length content) (1 + n) then length content - 1 else n

unfoldable pub decode_command_reply :
    {F : Type 0} → TrackerMessage F → Packet → Result ParseError (TrackerMessage F)
unfolding text_length
decode_command_reply msg pkt = do
  fail_if (ltb (length pkt.content) 5) (short_reply (length pkt.content))
  ok (record msg {
    correlation_key = u32_at (slice 1 5 pkt.content);
    response = decode_reply_text (slice 5 (1 + text_length pkt.content) pkt.content);
  })

module _ {F : Type 0} ⦃fl : FloatOps F⦄ where
  unfoldable pub start_message : Bytes → Packet → TrackerMessage F
  start_message frame pkt = record (empty_message {F = F}) {
    protocol = name;
    raw_payload = hexdump frame;
    attributes = packet_type pkt.typ ∷ [];
    kind = other;
  }

  -- The switch of `Parse`, on a decoded packet.
  unfoldable pub parse_packet :
      Bool → CivilTime → TrackerMessage F → Packet → Result ParseError (TrackerMessage F)
  parse_packet ack_gps now msg pkt =
      if pkt.typ == msg_login
      then (do
        let imei = decode_imei pkt.content
        wrap imei_error (validate_imei imei)
        ok (record msg { kind = login; imei = imei; ack = build_frame msg_login [] pkt.serial }))
      else if pkt.typ == msg_heartbeat
      then (do
        beat ← decode_heartbeat (record msg { kind = heartbeat }) pkt
        ok (record beat { ack = build_frame msg_heartbeat [] pkt.serial }))
      else if pkt.typ == msg_string_info
      then decode_command_reply (record msg { kind = command_ack }) pkt
      else if pkt.typ == msg_time_request
      then ok (record msg { kind = other; ack = build_time_reply now pkt.serial })
      else if has_gps pkt.typ
      then (do
        located ← decode_location msg pkt
        ok (
            if is_alarm pkt.typ || ack_gps
            then record located { ack = build_frame pkt.typ [] pkt.serial }
            else located))
      else ok (
          let told = record msg { kind = other; attributes = unhandled true ∷ msg.attributes } in
          if ack_gps then record told { ack = build_frame pkt.typ [] pkt.serial } else told)

  unfoldable pub parse : Bool → CivilTime → Bytes → Result ParseError (List (TrackerMessage F))
  parse ack_gps now frame = do
    pkt ← wrap frame_error (decode_frame frame)
    msg ← parse_packet ack_gps now (start_message frame pkt) pkt
    ok (msg ∷ [])
