-- ===== src/H02/Frame/Contract.antt =====
-- h02.go: `NextFrame` keeps the contract of `Framer` when the size of binary frames is configured.
use farbo_rastreamento.Prelude.{
  ℕ, zero, suc, ◌+◌, ◌≤◌, ◌<◌, ◌≡◌, refl, sym, ap, ◌∙◌, Bool, true, false, Option, none, some, [],
  ◌∷◌, arith, ltb, ◌==◌, if◌then◌else◌, length, take, take_all, Bool-cases, inl, inr,
}
use farbo_rastreamento.Prelude.Words.{Bytes}
use farbo_rastreamento.Protocols.Framing.{
  Framed, framed, wait, no_start, discarded, no_terminator, absurd_length, over_limit, Honours,
  waits, frames, throws,
}
use farbo_rastreamento.H02.Frame.{
  marker_text, max_frame, min_binary_payload, is_marker, index_where, index_of_marker,
  index_of_byte, without_marker, text_frame, binary_frame, from_marker, next_frame,
}

index_where_bounds :
    (test : ℕ → Bool) (i k : ℕ) (buf : Bytes)
    → index_where test i buf ≡ some k
    → (i ≤ k) × (k < i + length buf)
unfolding index_where
index_where_bounds test i k [] h = cc
index_where_bounds test i k (b ∷ bs) h = ground (arith, index_where_bounds test (i + 1) k bs)

without_marker-Honours : (buf : Bytes) → Honours buf (without_marker buf)
unfolding without_marker
without_marker-Honours [] = waits refl
without_marker-Honours (b ∷ bs) = elim (Bool-cases (ltb max_frame (suc (length bs)))) [
  | inl over ↦
      throws (suc (length bs)) (no_start (suc (length bs))) (omega arith) (omega arith) (rw over)
  | inr under ↦
      throws (suc (length bs)) (no_start (suc (length bs))) (omega arith) (omega arith)
        (ground arith)
]

text_frame-Honours :
    (buf : Bytes) (o : Option ℕ) → index_of_byte b'#' buf ≡ o → Honours buf (text_frame buf o)
unfolding text_frame index_of_byte
text_frame-Honours buf none e = elim (Bool-cases (ltb max_frame (length buf))) [
  | inl over ↦ throws (length buf) no_terminator (ground arith) (omega arith) (rw over)
  | inr under ↦ waits (rw under)
]
text_frame-Honours buf (some end) e =
    frames (end + 1) (omega arith) (omega (arith, index_where_bounds _ 0 end buf e)) refl

binary_frame-Honours :
    (size : ℕ) (buf : Bytes) → 0 < length buf → Honours buf (binary_frame size buf)
unfolding binary_frame
binary_frame-Honours zero buf h = elim (Bool-cases (ltb (length buf) min_binary_payload)) [
  | inl few ↦ waits (rw few)
  | inr enough ↦ elim (Bool-cases (ltb max_frame (length buf))) [
    | inl over ↦ throws (length buf) over_limit h (omega arith) (rw (enough, over))
    | inr under ↦
        frames (length buf) h (omega arith) (
          rw (enough, under) (ap (λ f. framed f (length buf)) (sym (take_all _ buf (omega arith)))))
  ]
]
binary_frame-Honours (suc n) buf h = elim (Bool-cases (ltb max_frame (suc n))) [
  | inl over ↦ throws (length buf) absurd_length h (omega arith) (ground arith)
  | inr under ↦ elim (Bool-cases (ltb (length buf) (suc n))) [
    | inl few ↦ waits (ground arith)
    | inr enough ↦ frames (suc n) (omega arith) (ground arith) (ground arith)
  ]
]

from_marker-Honours :
    (size : ℕ) (buf : Bytes) (o : Option ℕ)
    → index_of_marker buf ≡ o
    → Honours buf (from_marker size buf o)
unfolding from_marker index_of_marker index_where
from_marker-Honours size buf none e = without_marker-Honours buf
from_marker-Honours size buf (some (suc k)) e =
    throws (suc k) (discarded (suc k)) (omega arith)
      (omega (arith, index_where_bounds _ 0 (suc k) buf e)) refl
from_marker-Honours size [] (some zero) e = cc
from_marker-Honours size (b ∷ bs) (some zero) e = elim (Bool-cases (b == marker_text)) [
  | inl text ↦ rw text (text_frame-Honours (b ∷ bs) _ refl)
  | inr binary ↦ rw binary (binary_frame-Honours size (b ∷ bs) (omega arith))
]

-- Whatever its configuration, `NextFrame` asks for more, gives the start of the buffer, or throws
-- bytes away.
pub next_frame-Honours_any : (size : ℕ) (buf : Bytes) → Honours buf (next_frame size buf)
unfolding next_frame
next_frame-Honours_any size buf = from_marker-Honours size buf _ refl

-- The answer once a marker stands at the start.
abbrev by_form : ℕ → Bytes → Framed
by_form size [] = wait
by_form size (b ∷ bs) =
    if b == marker_text
    then text_frame (b ∷ bs) (index_of_byte b'#' (b ∷ bs))
    else binary_frame size (b ∷ bs)

next_frame-by_form :
    (size b : ℕ) (bs : Bytes)
    → is_marker b ≡ true
    → next_frame size (b ∷ bs) ≡ by_form size (b ∷ bs)
unfolding next_frame index_of_marker index_where from_marker
next_frame-by_form size b bs h = ground arith

-- The shape of a separated frame, whatever its form.
data Shape (size : ℕ) (buf f : Bytes) (n : ℕ) : Type 0 where
  textual :
      (b end : ℕ) (bs : Bytes)
      → buf ≡ b ∷ bs
      → is_marker b ≡ true
      → (b == marker_text) ≡ true
      → index_of_byte b'#' buf ≡ some end
      → n ≡ end + 1
      → f ≡ take n buf
      → Shape size buf f n
  binary :
      (b : ℕ) (bs : Bytes)
      → buf ≡ b ∷ bs
      → is_marker b ≡ true
      → (b == marker_text) ≡ false
      → n ≡ size
      → size ≤ max_frame
      → size ≤ length buf
      → f ≡ take n buf
      → Shape size buf f n

-- From a marker on, `NextFrame` answers by the form.
pub by_text :
    (size b : ℕ) (bs : Bytes) (o : Option ℕ)
    → is_marker b ≡ true
    → (b == marker_text) ≡ true
    → index_of_byte b'#' (b ∷ bs) ≡ o
    → next_frame size (b ∷ bs) ≡ text_frame (b ∷ bs) o
by_text size b bs o marked text e =
    next_frame-by_form size b bs marked ∙ rw text (ap (text_frame (b ∷ bs)) e)
