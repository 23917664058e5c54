-- ===== src/Tkstar/Fields.antt =====
-- parser.go: the fields of a sentence. Texts are ASCII.
use farbo_rastreamento.Prelude.{
  ℕ, Bool, false, Option, none, List, [], ◌∷◌, if◌then◌else◌, get_or, Result, ok, ◌>>◌,
}
use farbo_rastreamento.Prelude.Words.{Bytes}
use farbo_rastreamento.Protocols.Floats.{FloatOps}
use farbo_rastreamento.Protocols.Text.{
  codes, trim_space, trim_prefix, is_empty, is_digit, all_bytes, ℤ, atoi,
}
use farbo_rastreamento.Protocols.Imei.{ImeiError, validate_imei}

unfoldable pub field : List Bytes → ℕ → Bytes
field parts i = trim_space (get_or parts i [])

unfoldable pub parse_float_field : {F : Type 0} → ⦃fl : FloatOps F⦄ → List Bytes → ℕ → Option F
unfolding field
parse_float_field ⦃fl⦄ parts i = if is_empty (field parts i) then none else fl.parse (field parts i)

unfoldable pub parse_int_field : List Bytes → ℕ → Option ℤ
unfolding field
parse_int_field parts i = if is_empty (field parts i) then none else atoi (field parts i)

abbrev pub without_label : Bytes → Bytes
without_label raw = trim_prefix (codes "IMEI:") (trim_prefix (codes "imei:") (trim_space raw))

unfoldable pub extract_imei : Bytes → Result ImeiError Bytes
extract_imei raw = do validate_imei (without_label raw); ok (without_label raw)

-- `isAllDigits`.
unfoldable pub is_all_digits : Bytes → Bool
unfolding all_bytes
is_all_digits [] = false
is_all_digits (c ∷ cs) = all_bytes is_digit (c ∷ cs)
