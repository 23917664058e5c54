-- ===== src/Gt06/Simulate/Login.antt =====
-- simulate.go and decode.go: the IMEI of the login packet, from the tracker to the server.
use farbo_rastreamento.Prelude.{
  ℕ, ◌+◌, ◌-◌, ◌*◌, ◌%◌, ◌^◌, ◌<◌, ◌≡◌, Bool, true, [], ◌∷◌, arith, length, take_all, ok, refl,
}
use farbo_rastreamento.Prelude.Words.{Bytes}
use farbo_rastreamento.Protocols.Floats.{FloatOps}
use farbo_rastreamento.Protocols.Calendar.{CivilTime}
use farbo_rastreamento.Protocols.Imei.{validate_imei}
use farbo_rastreamento.Protocols.Text.{is_digit, all_bytes, hex, hex_digit}
use farbo_rastreamento.Protocols.Message.{TrackerMessage, empty_message, login}
use farbo_rastreamento.Gt06.Frame.{Packet, build_frame}
use farbo_rastreamento.Gt06.Frame.RoundTrip.{decode_frame-build_frame}
use farbo_rastreamento.Gt06.Decode.{decode_imei, msg_login}
use farbo_rastreamento.Gt06.Parse.{parse, parse_packet, start_message}
use farbo_rastreamento.Gt06.Simulate.{pack_digits, padded, zeros, build_login_frame}

-- Digits are packed two to a byte, and `%x` prints them again.
pack_digits-hex :
    (s : Bytes)
    → all_bytes is_digit s ≡ true
    → length s % 2 ≡ 0
    → (c : Bytes) × (pack_digits s ≡ ok c) × (hex hex_digit c ≡ s) × (length c * 2 ≡ length s)
unfolding all_bytes pack_digits hex
pack_digits-hex [] h e = ([], refl, refl, refl)
pack_digits-hex (a ∷ []) h e = absurd (omega arith)
pack_digits-hex (a ∷ b ∷ s) h e =
    let (c, packed, printed, size) = pack_digits-hex s (ground arith) (omega arith) in
    (((a - b'0') * 16 + (b - b'0')) ∷ c, ground arith, ground arith, omega arith)

padded_fifteen : (imei : Bytes) → length imei ≡ 15 → padded imei ≡ b'0' ∷ imei
unfolding padded zeros
padded_fifteen imei size = rw size

decode_imei-digits :
    (imei c : Bytes) → hex hex_digit c ≡ b'0' ∷ imei → length c ≡ 8 → decode_imei c ≡ imei
unfolding decode_imei
decode_imei-digits imei c printed whole = rw (whole) (rw (take_all 8 c (omega arith)) (rw printed))

-- The login content that the tracker packs is read back by the server.
login_content :
    (imei : Bytes)
    → length imei ≡ 15
    → all_bytes is_digit imei ≡ true
    → (c : Bytes) × (pack_digits (padded imei) ≡ ok c) × (decode_imei c ≡ imei)
unfolding all_bytes
login_content imei size digits =
    let (c, packed, printed, whole) = pack_digits-hex (b'0' ∷ imei) digits (omega arith) in
    (c, rw (padded_fifteen imei size) packed, decode_imei-digits imei c printed (omega arith))

build_login_frame-packed :
    (imei c : Bytes) (serial : ℕ)
    → length imei ≡ 15
    → pack_digits (padded imei) ≡ ok c
    → build_login_frame imei serial ≡ ok (build_frame msg_login c serial)
unfolding build_login_frame
build_login_frame-packed imei c serial size packed = ground arith

module _ {F : Type 0} ⦃fl : FloatOps F⦄ where
  -- A tracker that logs in with a valid IMEI of 15 digits is read by the server as that IMEI, and
  -- is answered by a login frame under the same serial number.
  pub parse-build_login_frame :
      (ack_gps : Bool) (now : CivilTime) (imei : Bytes) (serial : ℕ)
      → length imei ≡ 15
      → all_bytes is_digit imei ≡ true
      → validate_imei imei ≡ ok tt
      → serial < 2 ^ 16
      → (frame : Bytes) × (msg : TrackerMessage F) × (build_login_frame imei serial ≡ ok frame)
        × (parse ack_gps now frame ≡ ok (msg ∷ []))
        × (msg.kind ≡ login)
        × (msg.imei ≡ imei)
        × (msg.ack ≡ build_frame msg_login [] serial)
  unfolding parse parse_packet start_message empty_message
  parse-build_login_frame ack_gps now imei serial size digits valid hs =
      let (c, packed, read) = login_content imei size digits in
      let frame = build_frame msg_login c serial in
      let pkt : Packet = record { typ = msg_login; content = c; serial = serial } in
      (
        frame,
        record (start_message {F = F} frame pkt) {
          kind = login;
          imei = imei;
          ack = build_frame msg_login [] serial;
        },
        build_login_frame-packed imei c serial size packed,
        rw (decode_frame-build_frame msg_login c serial hs) (rw read (rw valid)),
        refl,
        refl,
        refl,
      )
