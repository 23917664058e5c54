-- ===== src/Gt06/Encode.antt =====
-- commands.go: canonical commands as 0x80 packets.
use farbo_rastreamento.Prelude.{
  ℕ, ◌+◌, ◌%◌, ◌^◌, Bool, not, ◌&&◌, ◌||◌, none, some, [], ◌∷◌, ◌++◌, ltb, leb, ◌==◌, if◌then◌else◌,
  length, Result, ok, err, ◌>>=◌, ◌>>◌, fail_if,
}
use farbo_rastreamento.Prelude.Words.{Bytes, to_byte, u32_bytes}
use farbo_rastreamento.Protocols.Text.{
  codes, is_digit, is_letter, is_printable, matches, trim_space, is_empty, pos, negsuc, atoi,
  decimal,
}
use farbo_rastreamento.Protocols.Message.{
  CommandType, engine_cut, engine_resume, request_position, request_status, set_interval,
  set_heartbeat, set_server, reboot, custom, Command,
}
use farbo_rastreamento.Gt06.Frame.{build_frame}
use farbo_rastreamento.Gt06.Decode.{msg_command}

pub data EncodeError : Type 0 where
  bad_password bad_character too_long bad_number out_of_range bad_host raw_required : EncodeError
  unsupported : EncodeError

abbrev pub max_command_text : ℕ
max_command_text = 200

-- `safeHost` and `safeCustom`, and the pattern of the password.
abbrev is_host_byte : ℕ → Bool
is_host_byte c = is_letter c || is_digit c || c == b'.' || c == b'-'

safe_host : Bytes → Bool
safe_host = matches is_host_byte 1 64

unfoldable pub safe_custom : Bytes → Bool
unfolding matches
safe_custom = matches is_printable 1 200

abbrev is_word_byte : ℕ → Bool
is_word_byte c = is_letter c || is_digit c

safe_password : Bytes → Bool
safe_password = matches is_word_byte 1 16

positive_int : Bytes → ℕ → ℕ → Result EncodeError ℕ
positive_int raw lo hi = elim (atoi (trim_space raw)) [
  | none ↦ err bad_number
  | some (pos n) ↦ if leb lo n && leb n hi then ok n else err out_of_range
  | some (negsuc n) ↦ err out_of_range
]

-- "CMD#", or "CMD,password#".
with_password : Bytes → Bytes → Bytes
with_password pwd base =
    if is_empty pwd then base ++ codes "#" else base ++ (codes "," ++ (pwd ++ codes "#"))

-- The switch on the command type, behind the check of the password.
unfoldable pub typed_text : CommandType → Bytes → (Bytes → Bytes) → Result EncodeError Bytes
unfolding with_password positive_int safe_host
typed_text engine_cut pwd params = ok (with_password pwd (codes "DYD"))
typed_text engine_resume pwd params = ok (with_password pwd (codes "HFYD"))
typed_text request_position pwd params = ok (with_password pwd (codes "WHERE"))
typed_text request_status pwd params = ok (with_password pwd (codes "STATUS"))
typed_text reboot pwd params = ok (with_password pwd (codes "RESET"))
typed_text set_interval pwd params = do
  seconds ← positive_int (params (codes "seconds")) 5 18000
  ok (
      if is_empty pwd
      then codes "TIMER," ++ (decimal seconds ++ codes "#")
      else codes "TIMER," ++ (pwd ++ (codes "," ++ (decimal seconds ++ codes "#"))))
typed_text set_heartbeat pwd params = do
  minutes ← positive_int (params (codes "minutes")) 1 360
  ok (codes "HBT," ++ (decimal minutes ++ codes "#"))
typed_text set_server pwd params = do
  let host = trim_space (params (codes "host"))
  fail_if (not (safe_host host)) bad_host
  port ← positive_int (params (codes "port")) 1 65535
  ok (codes "SERVER,1," ++ (host ++ (codes "," ++ (decimal port ++ codes ",0#"))))
typed_text custom pwd params = err raw_required

unfoldable pub command_text : Command → Result EncodeError Bytes
unfolding typed_text safe_password
command_text cmd =
    let raw = trim_space cmd.raw in
    let pwd = trim_space cmd.password in
    if not (is_empty raw)
    then ok raw
    else if not (is_empty pwd) && not (safe_password pwd)
    then err bad_password
    else typed_text cmd.typ pwd cmd.params

-- What a 0x80 or 0x15 packet holds: the size, the server flag, the text and the language.
abbrev pub flagged_text : ℕ → Bytes → Bytes
flagged_text flag text =
    to_byte (length text + 4) ∷ (u32_bytes flag ++ (text ++ (0x00 ∷ 0x02 ∷ [])))

-- `nextSerial`, on the value of the counter.
abbrev pub next_serial : ℕ → ℕ
next_serial counter = (counter + 1) % 2 ^ 32 % 2 ^ 16

-- The second half of `EncodeCommand`: the checks of the text, and the packet that carries it.
-- `counter` is the process-wide counter of frames before the call.
unfoldable pub encode_text : ℕ → ℕ → Bytes → Result EncodeError Bytes
encode_text counter key text = do
  fail_if (not (safe_custom text)) bad_character
  fail_if (ltb max_command_text (length text)) too_long
  ok (build_frame msg_command (flagged_text key text) (next_serial counter))

unfoldable pub encode_command : ℕ → Command → Result EncodeError Bytes
encode_command counter cmd = do
  text ← command_text cmd
  encode_text counter cmd.correlation_key text
