-- ===== src/Protocols/Imei.antt =====
-- tracker.go, `ValidateIMEI`.
pub mod Digits
use farbo_rastreamento.Prelude.{
  ℕ, Bool, true, false, not, ◌||◌, ltb, ◌==◌, if◌then◌else◌, [], ◌∷◌, length, Result, err, ◌>>◌,
  fail_if,
}
use farbo_rastreamento.Prelude.Words.{Bytes}
use farbo_rastreamento.Protocols.Text.{is_digit, trim_space}

pub data ImeiError : Type 0 where
  wrong_size : ℕ → ImeiError
  not_numeric : ImeiError
  all_zero : ImeiError

-- The loop over the characters.
check_digits : Bool → Bytes → Result ImeiError (Unit {0})
check_digits zeros [] = fail_if zeros all_zero
check_digits zeros (c ∷ cs) =
    if is_digit c
    then check_digits (if not (c == b'0') then false else zeros) cs
    else err not_numeric

unfoldable pub validate_imei : Bytes → Result ImeiError (Unit {0})
unfolding check_digits
validate_imei imei = do
  let trimmed = trim_space imei
  fail_if (ltb (length trimmed) 10 || ltb 20 (length trimmed)) (wrong_size (length trimmed))
  check_digits true trimmed
