-- ===== src/Protocols/Imei/Digits.antt =====
-- A valid identifier is a text of digits.
use farbo_rastreamento.Prelude.{
  ◌≡◌, Bool, true, false, not, ◌||◌, [], ◌∷◌, arith, ltb, ◌==◌, if◌then◌else◌, length, Result, ok,
  err, fail_if-eq-ok,
}
use farbo_rastreamento.Prelude.Words.{Bytes}
use farbo_rastreamento.Protocols.Text.{is_digit, trim_space}
use farbo_rastreamento.Protocols.Text.Digits.{IsDigits}
use farbo_rastreamento.Protocols.Imei.{
  ImeiError, wrong_size, not_numeric, check_digits, validate_imei,
}

digits_step :
    (b : Bool) (r : Result ImeiError (Unit {0}))
    → (if b then r else err not_numeric) ≡ ok tt
    → (b ≡ true) × (r ≡ ok tt)
digits_step true r h = (ground arith, h)
digits_step false r h = cc

check_digits-IsDigits : (zeros : Bool) (s : Bytes) → check_digits zeros s ≡ ok tt → IsDigits s
unfolding check_digits
check_digits-IsDigits zeros [] h = tt
check_digits-IsDigits zeros (c ∷ s) h =
    let (digit, rest) = digits_step (is_digit c) _ h in
    (digit, check_digits-IsDigits (if not (c == b'0') then false else zeros) s rest)

pub validate_imei-IsDigits : (id : Bytes) → validate_imei id ≡ ok tt → IsDigits (trim_space id)
unfolding validate_imei
validate_imei-IsDigits id h =
    let size = length (trim_space id) in
    let (_, checked) =
      fail_if-eq-ok (ltb size 10 || ltb 20 size) (wrong_size size)
        (check_digits true (trim_space id)) h in
    check_digits-IsDigits true (trim_space id) checked
