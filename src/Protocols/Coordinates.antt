-- ===== src/Protocols/Coordinates.antt =====
-- coordinates.go: `DDMMToDecimal`.
use farbo_rastreamento.Prelude.{
  ℕ, ◌+◌, ◌-◌, ◌||◌, Option, none, some, [], ◌∷◌, map, ltb, ◌==◌, if◌then◌else◌, take, drop, Result,
  ok, err, ◌>>=◌, ◌>>◌, fail_if,
}
use farbo_rastreamento.Prelude.Words.{Bytes}
use farbo_rastreamento.Protocols.Floats.{FloatOps}
use farbo_rastreamento.Protocols.Text.{trim_space, is_empty, to_upper}

pub data CoordinateError : Type 0 where
  empty_coordinate malformed bad_degrees bad_minutes minutes_out_of_range : CoordinateError
  bad_hemisphere : CoordinateError

-- The index of the point, or else the length.
unfoldable dot_index : Bytes → ℕ
dot_index [] = 0
dot_index (c ∷ cs) = if c == b'.' then 0 else dot_index cs + 1

abbrev pub value_or {ℓ κ} : {E : Type ℓ} {A : Type κ} → E → Option A → Result E A
value_or e none = err e
value_or e (some a) = ok a

module _ {F : Type 0} ⦃fl : FloatOps F⦄ where
  -- The sign of a hemisphere; nothing counts as positive.
  unfoldable by_hemisphere : Bytes → F → Result CoordinateError F
  by_hemisphere [] x = ok x
  by_hemisphere (c ∷ []) x =
      if c == b'S' || c == b'W'
      then ok (fl.neg x)
      else if c == b'N' || c == b'E'
      then ok x
      else err bad_hemisphere
  by_hemisphere (c ∷ d ∷ s) x = err bad_hemisphere

  unfoldable pub dd_mm_to_decimal : Bytes → Bytes → Result CoordinateError F
  unfolding dot_index by_hemisphere
  dd_mm_to_decimal value hemisphere = do
    let trimmed = trim_space value
    fail_if (is_empty trimmed) empty_coordinate
    let dot = dot_index trimmed
    fail_if (ltb dot 3) malformed
    degrees ← value_or bad_degrees (fl.parse (take (dot - 2) trimmed))
    minutes ← value_or bad_minutes (fl.parse (drop (dot - 2) trimmed))
    fail_if (fl.le (fl.of_nat 60) minutes) minutes_out_of_range
    by_hemisphere (map to_upper (trim_space hemisphere))
        (fl.add degrees (fl.div minutes (fl.of_nat 60)))
