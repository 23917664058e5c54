-- ===== src/Commands/Service/Values.antt =====
-- service.go: the keys that are drawn, and the readable form of a payload.
use farbo_rastreamento.Prelude.{ℕ, ◌<◌, ◌^◌, ◌/◌, ◌%◌, ◌≡◌, refl, arith, true, some, [], ◌∷◌, All}
use farbo_rastreamento.Prelude.Words.{Bytes, IsByte}
use farbo_rastreamento.Protocols.Text.{all_bytes, is_printable, hex_digit_upper}
use farbo_rastreamento.Commands.Service.{new_correlation_key, printable}

-- From four random bytes a key of 32 bits is drawn that is not zero, whatever the clock says.
pub new_correlation_key-bounds :
    (a b c d nano : ℕ)
    → IsByte a
    → IsByte b
    → IsByte c
    → IsByte d
    → (0 < new_correlation_key (some (a ∷ b ∷ c ∷ d ∷ [])) nano)
      × (new_correlation_key (some (a ∷ b ∷ c ∷ d ∷ [])) nano < 2 ^ 32)
unfolding new_correlation_key
new_correlation_key-bounds a b c d nano ha hb hc hd = (ground arith, ground arith)

hex_digit-printable : (n : ℕ) → n < 16 → is_printable (hex_digit_upper n) ≡ true
hex_digit-printable n h = ground arith

-- The text that the audit keeps of a payload of bytes has printable characters only.
pub all_bytes-printable :
    (bs : Bytes) → All IsByte bs → all_bytes is_printable (printable bs) ≡ true
unfolding all_bytes printable
all_bytes-printable [] h = refl
all_bytes-printable (b ∷ bs) h = ground (
  arith,
  all_bytes-printable bs h.1,
  hex_digit-printable (b / 16),
  hex_digit-printable (b % 16),
  h.0,
)
