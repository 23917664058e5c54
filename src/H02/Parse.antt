-- ===== src/H02/Parse.antt =====
-- h02.go: `Parse`.
use farbo_rastreamento.Prelude.{ℕ, List, [], ◌∷◌, ◌==◌, if◌then◌else◌, Result, ok, err}
use farbo_rastreamento.Prelude.Words.{Bytes}
use farbo_rastreamento.Protocols.Floats.{FloatOps}
use farbo_rastreamento.Protocols.Calendar.{Time}
use farbo_rastreamento.Protocols.Message.{TrackerMessage}
use farbo_rastreamento.H02.Frame.{marker_binary, marker_text}
use farbo_rastreamento.H02.Cursor.{BinaryError}
use farbo_rastreamento.H02.Binary.{decode_binary}
use farbo_rastreamento.H02.Text.{TextError, decode_text}

pub data ParseError : Type 0 where
  empty_frame : ParseError
  unknown_marker : ℕ → ParseError
  binary_error : BinaryError → ParseError
  text_error : TextError → ParseError

abbrev alone {ℓ κ} :
    {E : Type ℓ} {A : Type κ} → (E → ParseError) → Result E A → Result ParseError (List A)
alone f (ok a) = ok (a ∷ [])
alone f (err e) = err (f e)

module _ {F : Type 0} ⦃fl : FloatOps F⦄ where
  unfoldable pub parse : Time → Bytes → Result ParseError (List (TrackerMessage F))
  parse now [] = err empty_frame
  parse now (b ∷ bs) =
      if b == marker_binary
      then alone binary_error (decode_binary (b ∷ bs))
      else if b == marker_text
      then alone text_error (decode_text now (b ∷ bs))
      else err (unknown_marker b)
