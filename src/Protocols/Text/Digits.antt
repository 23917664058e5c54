-- ===== src/Protocols/Text/Digits.antt =====
-- Texts of decimal digits.
use farbo_rastreamento.Prelude.{
  ℕ, zero, suc, ◌+◌, ◌/◌, ◌%◌, ◌≤◌, ◌≡◌, true, false, [], ◌∷◌, arith, ltb, Bool-cases, inl, inr,
}
use farbo_rastreamento.Prelude.Words.{Bytes}
use farbo_rastreamento.Protocols.Text.{is_digit, decimal, decimal_onto}
use farbo_rastreamento.Protocols.Text.Fields.{Lacks}

abbrev pub IsDigits : Bytes → Type 0
IsDigits [] = Unit
IsDigits (c ∷ s) = (is_digit c ≡ true) × IsDigits s

-- What is no digit does not occur in them.
pub IsDigits-Lacks : (sep : ℕ) (s : Bytes) → is_digit sep ≡ false → IsDigits s → Lacks sep s
IsDigits-Lacks sep [] mark h = tt
IsDigits-Lacks sep (c ∷ s) mark h = (ground arith, IsDigits-Lacks sep s mark h.1)

decimal_onto-IsDigits :
    (fuel n : ℕ) (out : Bytes) → n ≤ fuel → IsDigits out → IsDigits (decimal_onto fuel n out)
unfolding decimal_onto
decimal_onto-IsDigits zero n out h k = (ground arith, k)
decimal_onto-IsDigits (suc fuel) n out h k = elim (Bool-cases (ltb n 10)) [
  | inl last ↦ rw last (ground arith, k)
  | inr more ↦
      rw more (
        decimal_onto-IsDigits fuel (n / 10) ((b'0' + n % 10) ∷ out) (omega arith) (ground arith, k))
]

pub decimal-IsDigits : (n : ℕ) → IsDigits (decimal n)
unfolding decimal
decimal-IsDigits n = decimal_onto-IsDigits n n [] (omega arith) tt
