-- ===== src/Protocols/Text/Trim.antt =====
-- `strings.TrimSpace` leaves nothing for a second call.
use mathlib.Core.List.{reverse, reverse-cons, reverse-append, reverse-reverse}
use farbo_rastreamento.Prelude.{ℕ, ◌≡◌, refl, ap, ◌∙◌, false, [], ◌∷◌, ◌++◌, Bool-cases, inl, inr}
use farbo_rastreamento.Prelude.Words.{Bytes}
use farbo_rastreamento.Protocols.Text.{is_space, trim_left, trim_space}

-- A text that is empty or starts with something else than white space.
data Starts : Bytes → Type 0 where
  nothing : Starts []
  solid : (c : ℕ) (s : Bytes) → is_space c ≡ false → Starts (c ∷ s)

trim_left-Starts : (s : Bytes) → Starts (trim_left s)
unfolding trim_left
trim_left-Starts [] = nothing
trim_left-Starts (c ∷ s) = elim (Bool-cases (is_space c)) [
  | inl white ↦ rw white (trim_left-Starts s)
  | inr black ↦ rw black (solid c s black)
]

trim_left-solid : {s : Bytes} → Starts s → trim_left s ≡ s
unfolding trim_left
trim_left-solid nothing = refl
trim_left-solid (solid c s black) = rw black

trim_left-append :
    (s : Bytes) (c : ℕ) → is_space c ≡ false → trim_left (s ++ c ∷ []) ≡ trim_left s ++ c ∷ []
unfolding trim_left
trim_left-append [] c black = rw black
trim_left-append (d ∷ s) c black = elim (Bool-cases (is_space d)) [
  | inl white ↦ rw white (trim_left-append s c black)
  | inr stays ↦ rw stays
]

-- Trimming at the end keeps a solid start.
trim_right : Bytes → Bytes
trim_right s = reverse (trim_left (reverse s))

trim_right-Starts : {s : Bytes} → Starts s → Starts (trim_right s)
unfolding trim_right trim_left
trim_right-Starts nothing = nothing
trim_right-Starts (solid c s black) = rw (reverse-cons c s) (
    rw (trim_left-append (reverse s) c black) (
      rw (reverse-append (trim_left (reverse s)) (c ∷ []))
        (solid c (reverse (trim_left (reverse s))) black)))

trim_right-twice : (s : Bytes) → trim_right (trim_right s) ≡ trim_right s
unfolding trim_right
trim_right-twice s =
    rw (reverse-reverse (trim_left (reverse s)))
      (ap reverse (trim_left-solid (trim_left-Starts (reverse s))))

pub trim_space-twice : (s : Bytes) → trim_space (trim_space s) ≡ trim_space s
unfolding trim_space trim_right
trim_space-twice s =
    ap trim_right (trim_left-solid (trim_right-Starts (trim_left-Starts s)))
    ∙ trim_right-twice (trim_left s)
