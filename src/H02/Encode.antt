-- ===== src/H02/Encode.antt =====
-- commands.go: canonical commands as sentences of the text form.
pub mod Sentence
use farbo_rastreamento.Prelude.{
  ℕ, ◌+◌, ◌%◌, ◌/◌, Bool, not, ◌&&◌, ◌||◌, List, [], ◌∷◌, ◌++◌, leb, if◌then◌else◌, Option, none,
  some, Result, ok, err, ◌>>=◌, ◌>>◌, fail_if,
}
use farbo_rastreamento.Prelude.Words.{Bytes}
use farbo_rastreamento.Protocols.Calendar.{CivilTime}
use farbo_rastreamento.Protocols.Text.{
  codes, is_digit, is_letter, is_printable, matches, trim_space, is_empty, pos, negsuc, atoi,
  decimal,
}
use farbo_rastreamento.Protocols.Imei.{ImeiError, validate_imei}
use farbo_rastreamento.Protocols.Message.{
  CommandType, engine_cut, engine_resume, set_interval, custom, Command,
}

pub data EncodeError : Type 0 where
  bad_text missing_raw bad_password bad_number out_of_range unsupported : EncodeError
  needs_id : ImeiError → EncodeError

safe_password : Bytes → Bool
safe_password = matches (λ c. is_letter c || is_digit c) 1 16

unfoldable pub safe_command_text : Bytes → Bool
unfolding matches
safe_command_text = matches is_printable 1 200

unfoldable pub bounded_int : Bytes → ℕ → ℕ → Result EncodeError ℕ
bounded_int raw lo hi = elim (atoi (trim_space raw)) [
  | none ↦ err bad_number
  | some (pos n) ↦ if leb lo n && leb n hi then ok n else err out_of_range
  | some (negsuc n) ↦ err out_of_range
]

-- Two digits of a number below 100.
abbrev pub two : ℕ → Bytes
two n = (b'0' + n / 10 % 10) ∷ (b'0' + n % 10) ∷ []

-- `Format("150405")`.
unfoldable pub clock_text : CivilTime → Bytes
clock_text t = two t.hour ++ (two t.minute ++ two t.second)

-- The parameters, each behind a comma, and the end.
unfoldable pub with_params : List Bytes → Bytes
with_params [] = codes "#"
with_params (p ∷ ps) = codes "," ++ (p ++ with_params ps)

unfoldable pub format_command : CivilTime → Bytes → Bytes → List Bytes → Bytes
unfolding clock_text with_params
format_command now id typ params =
    codes "*HQ,"
    ++ (id ++ (codes "," ++ (typ ++ (codes "," ++ (clock_text now ++ with_params params)))))

-- The switch: the type of the sentence and its parameters.
unfoldable pub sentence_of : CommandType → (Bytes → Bytes) → Result EncodeError (Bytes × List Bytes)
unfolding bounded_int
sentence_of engine_cut params = ok (codes "S20", codes "1" ∷ codes "1" ∷ [])
sentence_of engine_resume params = ok (codes "S20", codes "1" ∷ codes "0" ∷ [])
sentence_of set_interval params = do
  seconds ← bounded_int (params (codes "seconds")) 5 18000
  ok (codes "S71", codes "22" ∷ decimal seconds ∷ [])
sentence_of custom params = err missing_raw
sentence_of _ params = err unsupported

abbrev wrap_id {ℓ} : {A : Type ℓ} → Result ImeiError A → Result EncodeError A
wrap_id (ok a) = ok a
wrap_id (err e) = err (needs_id e)

-- A command without a raw text; `now` is the clock.
unfoldable pub encode_typed : CivilTime → Command → Result EncodeError Bytes
unfolding safe_password sentence_of format_command safe_command_text
encode_typed now cmd = do
  let id = trim_space cmd.unique_id
  wrap_id (validate_imei id)
  let pwd = trim_space cmd.password
  fail_if (not (is_empty pwd) && not (safe_password pwd)) bad_password
  (typ, params) ← sentence_of cmd.typ cmd.params
  let text = format_command now id typ params
  fail_if (not (safe_command_text text)) bad_text
  ok text

unfoldable pub encode_command : CivilTime → Command → Result EncodeError Bytes
unfolding encode_typed safe_command_text
encode_command now cmd =
    let raw = trim_space cmd.raw in
    if not (is_empty raw)
    then (if not (safe_command_text raw) then err bad_text else ok raw)
    else encode_typed now cmd
