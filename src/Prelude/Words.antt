-- ===== src/Prelude/Words.antt =====
-- Bytes and big-endian machine words: encoding/binary's `BigEndian`.
use Prim.Native.Nat.{ℕ, ◌+◌, ◌*◌, ◌/◌, ◌%◌, ◌^◌, ◌<◌}
use mathlib.Core.Path.{◌≡◌}
use mathlib.Core.Bool.{Bool, not}
use mathlib.Core.List.{List, [], ◌∷◌}
use native.Mathlib.Omega.{arith}
use farbo_rastreamento.Prelude.Tests.{◌==◌}

abbrev pub Bytes : Type 0
Bytes = List ℕ

abbrev pub IsByte : ℕ → Type 0
IsByte b = b < 256

-- `byte(n)`.
abbrev pub to_byte : ℕ → ℕ
to_byte n = n % 256

-- `AppendUint16` and `AppendUint32`: the bytes that they append.
abbrev pub u16_bytes : ℕ → Bytes
u16_bytes n = to_byte (n / 256) ∷ to_byte n ∷ []

abbrev pub u32_bytes : ℕ → Bytes
u32_bytes n = to_byte (n / 2 ^ 24) ∷ to_byte (n / 2 ^ 16) ∷ to_byte (n / 2 ^ 8) ∷ to_byte n ∷ []

-- `Uint16` and `Uint32`, on the first bytes of a slice that is long enough.
abbrev pub u16_at : Bytes → ℕ
u16_at (a ∷ b ∷ _) = a * 256 + b
u16_at _ = 0

abbrev pub u32_at : Bytes → ℕ
u32_at (a ∷ b ∷ c ∷ d ∷ _) = a * 2 ^ 24 + b * 2 ^ 16 + c * 2 ^ 8 + d
u32_at _ = 0

-- `n & (1 << k) != 0`.
abbrev pub bit_set : ℕ → ℕ → Bool
bit_set n k = not (n / 2 ^ k % 2 == 0)

pub u16_round_trip : (n : ℕ) → n < 2 ^ 16 → to_byte (n / 256) * 256 + to_byte n ≡ n
u16_round_trip n h = omega arith

pub u32_round_trip :
    (n : ℕ)
    → n < 2 ^ 32
    → to_byte (n / 2 ^ 24) * 2 ^ 24
        + to_byte (n / 2 ^ 16) * 2 ^ 16
        + to_byte (n / 2 ^ 8) * 2 ^ 8
        + to_byte n
      ≡ n
u32_round_trip n h = omega arith
