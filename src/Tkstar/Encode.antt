-- ===== src/Tkstar/Encode.antt =====
-- commands.go: canonical commands as texts of the default vocabulary, which leaves out what has not
-- been confirmed. The vocabulary has no function for the interval, the heartbeat and the server.
pub mod Safety
use farbo_rastreamento.Prelude.{
  ℕ, Bool, true, false, not, ◌&&◌, ◌||◌, List, [], ◌∷◌, ◌++◌, ◌==◌, if◌then◌else◌, Result, ok, err,
  ◌>>=◌, ◌>>◌, fail_if,
}
use farbo_rastreamento.Prelude.Words.{Bytes}
use farbo_rastreamento.Prelude.Maps.{text_eq}
use farbo_rastreamento.Protocols.Text.{
  codes, is_digit, is_letter, is_printable, matches, trim_space, is_empty,
}
use farbo_rastreamento.Protocols.Message.{
  CommandType, engine_cut, engine_resume, request_position, request_status, reboot, set_interval,
  set_heartbeat, set_server, custom, Command,
}

pub data EncodeError : Type 0 where
  bad_text bad_password missing_raw : EncodeError
  unconfirmed : CommandType → EncodeError

-- `commandSet`, less its functions, and `defaultCommands`.
pub record CommandSet : Type 0 where
  pub engine_cut : Bytes
  pub engine_resume : Bytes
  pub request_position : Bytes
  pub request_status : Bytes
  pub reboot : Bytes
  pub terminator : Bytes

abbrev pub default_commands : CommandSet
default_commands = record {
  engine_cut = codes "RELAY,1#";
  engine_resume = codes "RELAY,0#";
  request_position = codes "WHERE#";
  request_status = codes "STATUS#";
  reboot = [];
  terminator = codes "#";
}

unfoldable pub safe_command_text : Bytes → Bool
unfolding matches
safe_command_text = matches is_printable 1 200

unfoldable pub safe_password : Bytes → Bool
unfolding matches
safe_password = matches (λ c. is_letter c || is_digit c) 1 16

unfoldable pub required : Bytes → CommandType → Result EncodeError Bytes
unfolding trim_space
required text typ = if is_empty (trim_space text) then err (unconfirmed typ) else ok text

-- The switch.
unfoldable pub text_of : CommandSet → CommandType → Result EncodeError Bytes
unfolding required
text_of set engine_cut = required set.engine_cut engine_cut
text_of set engine_resume = required set.engine_resume engine_resume
text_of set request_position = required set.request_position request_position
text_of set request_status = required set.request_status request_status
text_of set reboot = required set.reboot reboot
text_of set custom = err missing_raw
text_of set typ = err (unconfirmed typ)

unfoldable pub command_text : CommandSet → Command → Result EncodeError Bytes
unfolding text_of safe_password trim_space
command_text set cmd =
    let raw = trim_space cmd.raw in
    let pwd = trim_space cmd.password in
    if not (is_empty raw)
    then ok raw
    else if not (is_empty pwd) && not (safe_password pwd)
    then err bad_password
    else text_of set cmd.typ

-- `strings.HasSuffix`.
unfoldable pub has_suffix : Bytes → Bytes → Bool
has_suffix suffix [] = is_empty suffix
has_suffix suffix (c ∷ cs) = let rest = has_suffix suffix cs in text_eq (c ∷ cs) suffix || rest

unfoldable pub terminated : CommandSet → Bytes → Bytes
unfolding has_suffix
terminated set text =
    if not (is_empty set.terminator) && not (has_suffix set.terminator text)
    then text ++ set.terminator
    else text

unfoldable pub encode_command : CommandSet → Command → Result EncodeError Bytes
unfolding command_text terminated safe_command_text
encode_command set cmd = do
  text ← command_text set cmd
  fail_if (not (safe_command_text (terminated set text))) bad_text
  ok (terminated set text)
