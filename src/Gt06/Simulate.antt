-- ===== src/Gt06/Simulate.antt =====
-- simulate.go: the frames as the tracker builds them.
pub mod RoundTrip
pub mod Login
use farbo_rastreamento.Prelude.{
  ℕ, zero, suc, ◌+◌, ◌-◌, ◌*◌, ◌%◌, Bool, true, false, not, ◌&&◌, ◌||◌, List, [], ◌∷◌, ◌++◌, ltb,
  ◌==◌, if◌then◌else◌, length, get_or, slice, Result, ok, err, ◌>>=◌, ◌>>◌, fail_if,
}
use farbo_rastreamento.Prelude.Words.{Bytes, u32_at, u16_bytes, u32_bytes}
use farbo_rastreamento.Protocols.Calendar.{CivilTime}
use farbo_rastreamento.Protocols.Text.{is_digit}
use farbo_rastreamento.Gt06.Frame.{Packet, FrameError, build_frame, decode_frame}
use farbo_rastreamento.Gt06.Decode.{
  msg_login, msg_heartbeat, msg_gps_lbs_status, msg_alarm_gps, msg_string_info, msg_command,
}
use farbo_rastreamento.Gt06.Parse.{text_length}
use farbo_rastreamento.Gt06.Encode.{flagged_text}

pub record DeviceStatus : Type 0 where
  pub acc : Bool
  pub relay_on : Bool
  pub charging : Bool
  pub battery_level : ℕ
  pub gsm_level : ℕ

abbrev flag_value : Bool → ℕ → ℕ
flag_value b value = if b then value else 0

-- The bits are distinct, so `|=` adds.
unfoldable pub terminal_info_byte : DeviceStatus → ℕ
terminal_info_byte s =
    0x40 + flag_value s.relay_on 0x80 + flag_value s.charging 0x04 + flag_value s.acc 0x02 + 0x01

pub data LoginError : Type 0 where
  imei_too_long imei_not_numeric : LoginError

-- `digit`.
digit : ℕ → Result LoginError ℕ
digit c = if is_digit c then ok (c - b'0') else err imei_not_numeric

-- Two characters to a byte.
unfoldable pub pack_digits : Bytes → Result LoginError Bytes
unfolding digit
pack_digits (a ∷ b ∷ s) = do
  high ← digit a
  low ← digit b
  rest ← pack_digits s
  ok ((high * 16 + low) ∷ rest)
pack_digits _ = ok []

zeros : ℕ → Bytes
zeros zero = []
zeros (suc n) = b'0' ∷ zeros n

-- `fmt.Sprintf("%016s", imei)`.
unfoldable pub padded : Bytes → Bytes
unfolding zeros
padded imei = zeros (16 - length imei) ++ imei

unfoldable pub build_login_frame : Bytes → ℕ → Result LoginError Bytes
build_login_frame imei serial = do
  fail_if (ltb 16 (length imei)) imei_too_long
  content ← pack_digits (padded imei)
  ok (build_frame msg_login content serial)

abbrev clamp_level : ℕ → ℕ → ℕ
clamp_level value maximum = if ltb maximum value then maximum else value

-- The status bytes that several packets share.
abbrev status_bytes : DeviceStatus → Bytes
status_bytes s =
    terminal_info_byte s ∷ clamp_level s.battery_level 6 ∷ clamp_level s.gsm_level 4 ∷ []

unfoldable pub build_heartbeat_frame : DeviceStatus → ℕ → Bytes
unfolding terminal_info_byte
build_heartbeat_frame s serial =
    build_frame msg_heartbeat (status_bytes s ++ (0x00 ∷ 0x01 ∷ [])) serial

-- `encodeLBSBlock`: MCC 724, MNC 6, and a fixed cell.
abbrev pub encode_lbs_block : Bytes
encode_lbs_block = u16_bytes 724 ++ (6 ∷ (u16_bytes 0x1234 ++ (0x00 ∷ 0xAB ∷ 0xCD ∷ [])))

unfoldable pub build_command_reply : ℕ → Bytes → ℕ → Bytes
build_command_reply server_flag text serial =
    build_frame msg_string_info (flagged_text server_flag text) serial

pub data ServerCommandError : Type 0 where
  bad_frame : FrameError → ServerCommandError
  not_command : ℕ → ServerCommandError
  short_command : ServerCommandError

abbrev wrap_frame {ℓ} : {A : Type ℓ} → Result FrameError A → Result ServerCommandError A
wrap_frame (ok a) = ok a
wrap_frame (err e) = err (bad_frame e)

-- The server flag and the text of a 0x80 packet.
unfoldable pub decode_server_command : Bytes → Result ServerCommandError (ℕ × Bytes)
unfolding text_length
decode_server_command frame = do
  pkt ← wrap_frame (decode_frame frame)
  fail_if (not (pkt.typ == msg_command)) (not_command pkt.typ)
  fail_if (ltb (length pkt.content) 5) short_command
  ok (u32_at (slice 1 5 pkt.content), slice 5 (1 + text_length pkt.content) pkt.content)
