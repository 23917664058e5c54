-- ===== src/H02/Frame.antt =====
-- h02.go: how `NextFrame` separates the two forms, and `Detect`.
pub mod Contract
use farbo_rastreamento.Prelude.{
  ℕ, zero, suc, ◌+◌, Bool, true, false, ◌||◌, Option, none, some, List, [], ◌∷◌, ltb, ◌==◌,
  if◌then◌else◌, length, get_or, take, Result, ok, err,
}
use farbo_rastreamento.Prelude.Words.{Bytes}
use farbo_rastreamento.Protocols.Framing.{
  Framed, wait, junk, framed, no_start, discarded, no_terminator, absurd_length, over_limit,
}
use farbo_rastreamento.Protocols.Text.{codes, trim_space, trim_suffix, split}
use farbo_rastreamento.Protocols.Imei.{validate_imei}

abbrev pub marker_binary : ℕ
marker_binary = b'$'

abbrev pub marker_text : ℕ
marker_text = b'*'

abbrev pub max_frame : ℕ
max_frame = 1024

abbrev pub min_binary_payload : ℕ
min_binary_payload = 29

abbrev pub is_marker : ℕ → Bool
is_marker b = b == marker_binary || b == marker_text

-- The index of the first byte of a kind, from an index on: `indexOfMarker` and `indexOfByte`.
unfoldable pub index_where : (ℕ → Bool) → ℕ → Bytes → Option ℕ
index_where test i [] = none
index_where test i (b ∷ bs) = if test b then some i else index_where test (i + 1) bs

unfoldable pub index_of_marker : Bytes → Option ℕ
unfolding index_where
index_of_marker = index_where is_marker 0

unfoldable pub index_of_byte : ℕ → Bytes → Option ℕ
unfolding index_where
index_of_byte target = index_where (λ b. b == target) 0

-- No marker: what has come is thrown away, both above the limit and below it.
unfoldable pub without_marker : Bytes → Framed
without_marker buf =
    if ltb max_frame (length buf)
    then junk (length buf) (no_start (length buf))
    else if length buf == 0
    then wait
    else junk (length buf) (no_start (length buf))

unfoldable pub text_frame : Bytes → Option ℕ → Framed
text_frame buf none = if ltb max_frame (length buf) then junk (length buf) no_terminator else wait
text_frame buf (some end) = framed (take (end + 1) buf) (end + 1)

-- A binary frame has neither a length nor an end: its size is configured, or else the whole buffer
-- is taken for one frame.
unfoldable pub binary_frame : ℕ → Bytes → Framed
binary_frame size buf =
    if ltb 0 size
    then (if ltb max_frame size
        then junk (length buf) absurd_length
        else if ltb (length buf) size
        then wait
        else framed (take size buf) size)
    else if ltb (length buf) min_binary_payload
    then wait
    else if ltb max_frame (length buf)
    then junk (length buf) over_limit
    else framed buf (length buf)

unfoldable pub from_marker : ℕ → Bytes → Option ℕ → Framed
from_marker size buf none = without_marker buf
from_marker size buf (some (suc k)) = junk (suc k) (discarded (suc k))
from_marker size buf (some zero) =
    if get_or buf 0 0 == marker_text
    then text_frame buf (index_of_byte b'#' buf)
    else binary_frame size buf

-- `size` is `BinaryFrameLength`, and 0 stands for the heuristic.
unfoldable pub next_frame : ℕ → Bytes → Framed
unfolding index_of_marker without_marker text_frame binary_frame from_marker index_of_byte
next_frame size buf = from_marker size buf (index_of_marker buf)

abbrev is_ok {ℓ κ} : {E : Type ℓ} {A : Type κ} → Result E A → Bool
is_ok (ok _) = true
is_ok (err _) = false

-- A text is claimed on a plausible identifier in its second field, or while it may be incomplete.
plausible_text : ℕ → List Bytes → Bool
plausible_text size (header ∷ id ∷ _) = is_ok (validate_imei (trim_space id))
plausible_text size _ = ltb size 32

unfoldable pub detect : Bytes → Bool
unfolding plausible_text
detect [] = false
detect (b ∷ bs) =
    if b == marker_binary
    then true
    else if b == marker_text
    then plausible_text (length (b ∷ bs)) (split b',' (trim_suffix b'#' (b ∷ bs)))
    else false
