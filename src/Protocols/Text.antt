-- ===== src/Protocols/Text.antt =====
-- The calls of Go's `strings`, `strconv` and `fmt` on texts, which are lists of bytes here.
-- `trim_space` knows the white space of ASCII, so it is `strings.TrimSpace` on ASCII texts.
pub mod Fields
pub mod Trim
pub mod Digits
use Prim.Native.Char.{code}
use Prim.Native.String.{String}
use mathlib.Core.List.{reverse}
use farbo_rastreamento.Prelude.{
  ℕ, zero, suc, ◌+◌, ◌-◌, ◌*◌, ◌/◌, ◌%◌, ◌^◌, Bool, true, false, ◌&&◌, ◌||◌, Option, none, some, [],
  ◌∷◌, ◌++◌, List, ltb, leb, ◌==◌, if◌then◌else◌, length, drop,
}
use farbo_rastreamento.Prelude.Words.{Bytes}

-- A literal of ASCII characters.
abbrev pub codes : String → Bytes
codes (String.◌∷◌ first rest) = code first ∷ codes rest
codes String.[] = []

abbrev pub is_digit : ℕ → Bool
is_digit c = leb b'0' c && leb c b'9'

abbrev pub is_letter : ℕ → Bool
is_letter c = (leb b'a' c && leb c b'z') || (leb b'A' c && leb c b'Z')

-- `[\x20-\x7E]`.
abbrev pub is_printable : ℕ → Bool
is_printable c = leb 0x20 c && leb c 0x7E

unfoldable pub all_bytes : (ℕ → Bool) → Bytes → Bool
all_bytes p [] = true
all_bytes p (c ∷ cs) = p c && all_bytes p cs

-- A text of `lo` to `hi` characters of one class: `^[…]{lo,hi}$`.
unfoldable pub matches : (ℕ → Bool) → ℕ → ℕ → Bytes → Bool
unfolding all_bytes
matches p lo hi s = leb lo (length s) && leb (length s) hi && all_bytes p s

is_space : ℕ → Bool
is_space c = c == b' ' || (leb 9 c && leb c 13)

trim_left : Bytes → Bytes
unfolding is_space
trim_left [] = []
trim_left (c ∷ cs) = if is_space c then trim_left cs else c ∷ cs

unfoldable pub trim_space : Bytes → Bytes
unfolding trim_left
trim_space s = reverse (trim_left (reverse (trim_left s)))

abbrev pub is_empty : Bytes → Bool
is_empty [] = true
is_empty (_ ∷ _) = false

-- A digit of `%x`, and of `%X`.
abbrev pub hex_digit : ℕ → ℕ
hex_digit n = if ltb n 10 then b'0' + n else b'a' + (n - 10)

abbrev pub hex_digit_upper : ℕ → ℕ
hex_digit_upper n = if ltb n 10 then b'0' + n else b'A' + (n - 10)

-- The two hexadecimal digits of each byte.
unfoldable pub hex : (ℕ → ℕ) → Bytes → Bytes
hex digit [] = []
hex digit (b ∷ bs) = digit (b / 16) ∷ digit (b % 16) ∷ hex digit bs

-- `strings.ToUpper(hex.EncodeToString(b))`.
unfoldable pub hexdump : Bytes → Bytes
unfolding hex
hexdump = hex hex_digit_upper

-- `strconv.Itoa` of a number that is not negative; `n` rounds are more than it has digits.
decimal_onto : ℕ → ℕ → Bytes → Bytes
decimal_onto zero n out = (b'0' + n) ∷ out
decimal_onto (suc fuel) n out =
    let rest = decimal_onto fuel (n / 10) ((b'0' + n % 10) ∷ out) in
    if ltb n 10 then (b'0' + n) ∷ out else rest

unfoldable pub decimal : ℕ → Bytes
unfolding decimal_onto
decimal n = decimal_onto n n []

-- An int: a number, or one below zero, where `negsuc n` is −(n + 1).
pub data ℤ : Type 0 where
  pos negsuc : ℕ → ℤ

-- A sign and an amount.
abbrev signed : Bool → ℕ → ℤ
signed false n = pos n
signed true zero = pos zero
signed true (suc n) = negsuc n

digits_from : ℕ → Bytes → Option ℕ
digits_from acc [] = some acc
digits_from acc (c ∷ cs) = if is_digit c then digits_from (acc * 10 + (c - b'0')) cs else none

-- The digits behind the sign; there is one at least, and the value fits an int64.
unsigned : Bool → Bytes → Option ℤ
unfolding digits_from
unsigned neg [] = none
unsigned neg (c ∷ cs) = elim (digits_from 0 (c ∷ cs)) [
  | none ↦ none
  | some n ↦ if ltb n (2 ^ 63) || (neg && n == 2 ^ 63) then some (signed neg n) else none
]

-- `strconv.Atoi`.
unfoldable pub atoi : Bytes → Option ℤ
unfolding unsigned
atoi [] = none
atoi (c ∷ cs) =
    if c == b'-'
    then unsigned true cs
    else if c == b'+'
    then unsigned false cs
    else unsigned false (c ∷ cs)

-- `strings.ToUpper`, on ASCII texts.
unfoldable pub to_upper : ℕ → ℕ
to_upper c = if leb b'a' c && leb c b'z' then c - 32 else c

-- `strings.ToLower`, on ASCII texts.
unfoldable pub to_lower : ℕ → ℕ
to_lower c = if leb b'A' c && leb c b'Z' then c + 32 else c

-- `strings.HasPrefix` and `strings.TrimPrefix`.
unfoldable pub has_prefix : Bytes → Bytes → Bool
has_prefix [] s = true
has_prefix (p ∷ ps) [] = false
has_prefix (p ∷ ps) (c ∷ s) = p == c && has_prefix ps s

unfoldable pub trim_prefix : Bytes → Bytes → Bytes
unfolding has_prefix
trim_prefix prefix s = if has_prefix prefix s then drop (length prefix) s else s

-- `strings.TrimSuffix` with a suffix of one character.
unfoldable pub trim_suffix : ℕ → Bytes → Bytes
trim_suffix end [] = []
trim_suffix end (c ∷ []) = if c == end then [] else c ∷ []
trim_suffix end (c ∷ d ∷ s) = c ∷ trim_suffix end (d ∷ s)

unfoldable to_first : ℕ → List Bytes → List Bytes
to_first c [] = (c ∷ []) ∷ []
to_first c (p ∷ ps) = (c ∷ p) ∷ ps

-- `strings.Split` and `strings.Join` with a separator of one character.
unfoldable pub split : ℕ → Bytes → List Bytes
unfolding to_first
split sep [] = [] ∷ []
split sep (c ∷ s) = let rest = split sep s in if c == sep then [] ∷ rest else to_first c rest

unfoldable pub join : ℕ → List Bytes → Bytes
join sep [] = []
join sep (p ∷ []) = p
join sep (p ∷ q ∷ ps) = p ++ (sep ∷ join sep (q ∷ ps))
