-- ===== src/Tkstar/V4.antt =====
-- protocol_v4.go: a dialect that is only captured, never read.
use farbo_rastreamento.Prelude.{Bool, not, ◌&&◌, [], ◌∷◌, if◌then◌else◌, length, Result, err}
use farbo_rastreamento.Prelude.Words.{Bytes}
use farbo_rastreamento.Protocols.Floats.{FloatOps}
use farbo_rastreamento.Protocols.Calendar.{Time}
use farbo_rastreamento.Protocols.Framing.{Framed, wait, framed}
use farbo_rastreamento.Protocols.Text.{codes, hexdump, is_empty, is_printable}
use farbo_rastreamento.Protocols.Message.{TrackerMessage, empty_message, other, captured, Command}

unfoldable pub detect : Bool → Bytes → Bool
detect enabled bytes = enabled && not (is_empty bytes)

unfoldable pub next_frame : Bytes → Framed
next_frame [] = wait
next_frame (b ∷ bs) = framed (b ∷ bs) (length (b ∷ bs))

unfoldable pub printable_ascii : Bytes → Bytes
printable_ascii [] = []
printable_ascii (c ∷ cs) = (if is_printable c then c else b'.') ∷ printable_ascii cs

unfoldable pub parse : {F : Type 0} → ⦃fl : FloatOps F⦄ → Time → Bytes → TrackerMessage F
unfolding printable_ascii
parse now frame = record empty_message {
  protocol = codes "tkstar_v4";
  kind = other;
  timestamp = now;
  raw_payload = hexdump frame;
  attributes = captured (printable_ascii frame) (length frame) ∷ [];
}

pub data V4Error : Type 0 where
  unsupported : V4Error

unfoldable pub encode_command : Command → Result V4Error Bytes
encode_command cmd = err unsupported
