-- ===== src/Protocols/Stamps.antt =====
-- What `time.Parse` reads of the two digits of a layout, and the dates that it accepts.
use farbo_rastreamento.Prelude.{
  ℕ, ◌+◌, ◌-◌, ◌*◌, Bool, ◌&&◌, Option, none, some, [], ◌∷◌, ltb, leb, ◌==◌, if◌then◌else◌, get_or,
}
use farbo_rastreamento.Protocols.Calendar.{CivilTime, is_leap}
use farbo_rastreamento.Protocols.Text.{ℤ, pos, negsuc, is_digit}

-- The value of two digits.
abbrev pub two_digits : ℕ → ℕ → Option ℕ
two_digits a b = if is_digit a && is_digit b then some ((a - b'0') * 10 + (b - b'0')) else none

-- `time.Parse` reads the year by a conversion that takes a sign, and puts it into 1969 to 2068.
abbrev pub full_year : ℤ → ℕ
full_year (pos n) = if leb 69 n then 1900 + n else 2000 + n
full_year (negsuc n) = 1999 - n

abbrev days_in : ℕ → ℕ → ℕ
days_in year month =
    if month == 2 && is_leap year
    then 29
    else get_or (31 ∷ 28 ∷ 31 ∷ 30 ∷ 31 ∷ 30 ∷ 31 ∷ 31 ∷ 30 ∷ 31 ∷ 30 ∷ 31 ∷ []) (month - 1) 0

infixl 5 ◌>>=?◌
abbrev pub ◌>>=?◌ {ℓ κ} : {A : Type ℓ} {B : Type κ} → Option A → (A → Option B) → Option B
o >>=? next = elim o [ none ↦ none | some a ↦ next a ]

abbrev pub is_civil : CivilTime → Bool
is_civil t =
    leb 1 t.month
    && leb t.month 12
    && leb 1 t.day
    && leb t.day (days_in t.year t.month)
    && ltb t.hour 24
    && ltb t.minute 60
    && ltb t.second 60
