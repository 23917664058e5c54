-- ===== src/Gt06/Frame/Honours.antt =====
-- frame.go: the answers of `NextFrame`, and that each honours the contract of `Framer`.
use farbo_rastreamento.Prelude.{
  ℕ, ◌+◌, ◌-◌, ◌≤◌, ◌<◌, ◌≡◌, refl, sym, subst, [], ◌∷◌, Option, some, none, zero, suc, arith,
  length, get_or, ◌&&◌, true, false, Bool, not, ◌||◌, ltb, ltb→lt, ◌==◌, Bool-cases, inl, inr,
}
use farbo_rastreamento.Prelude.Words.{Bytes}
use farbo_rastreamento.Protocols.Framing.{
  wait, junk, Framed, no_start, bad_length, bad_stop, discarded, Honours, waits, frames, throws,
}
use farbo_rastreamento.Gt06.Frame.{
  is_start, next_frame, index_of_start, index_from, split_at, at_start, without_start, kept,
  close_frame, frame_length, header_size, max_frame_length, stop_cr, stop_lf,
}

index_from_bounds :
    (i j : ℕ) (buf : Bytes) → index_from i buf ≡ some j → (i ≤ j) × (j + 2 ≤ i + length buf)
unfolding index_from
index_from_bounds i j [] h = cc
index_from_bounds i j (a ∷ []) h = cc
index_from_bounds i j (a ∷ b ∷ bs) h = ground (arith, index_from_bounds (suc i) j (b ∷ bs))

-- The search finds index 0 exactly where the buffer starts with a delimiter.
pub index_from_first :
    (i : ℕ) (buf : Bytes)
    → index_from i buf ≡ some i
    → (is_start (get_or buf 0 0) && (get_or buf 1 0 == get_or buf 0 0)) ≡ true
unfolding index_from
index_from_first i [] h = cc
index_from_first i (a ∷ []) h = cc
index_from_first i (a ∷ b ∷ bs) h = ground (arith, index_from_bounds (suc i) i (b ∷ bs))

pub index_from_hit :
    (i : ℕ) (buf : Bytes)
    → 2 ≤ length buf
    → (is_start (get_or buf 0 0) && (get_or buf 1 0 == get_or buf 0 0)) ≡ true
    → index_from i buf ≡ some i
unfolding index_from
index_from_hit i [] l h = absurd (omega arith)
index_from_hit i (a ∷ []) l h = absurd (omega arith)
index_from_hit i (a ∷ b ∷ bs) l h = ground arith

kept-le : (buf : Bytes) → kept buf ≤ length buf
unfolding kept
kept-le buf = ground arith

without_start-Honours : (buf : Bytes) → Honours buf (without_start buf)
unfolding without_start
without_start-Honours buf =
    let below = kept-le buf in
    elim (Bool-cases (length buf == kept buf)) [
      | inl all ↦ waits (rw all)
      | inr more ↦
          throws (length buf - kept buf) (no_start (length buf - kept buf)) (ground arith)
            (omega arith) (rw more)
    ]

-- Past the header and the length checks the frame is complete, and its end is inspected.
close_frame-Honours :
    (buf : Bytes) (total : ℕ) → 2 ≤ total → total ≤ length buf → Honours buf (close_frame buf total)
unfolding close_frame
close_frame-Honours buf total low high =
    let cr = get_or buf (total - 2) 0 in
    let lf = get_or buf (total - 1) 0 in
    elim (Bool-cases (not (cr == stop_cr) || not (lf == stop_lf))) [
      | inl wrong ↦ throws 2 (bad_stop cr lf) (omega arith) (omega arith) (rw wrong)
      | inr right ↦ frames total (omega arith) high (rw right)
    ]

-- The length of the frame at the start of a buffer, delimiters and stop bytes included.
abbrev pub total_size : Bytes → ℕ
total_size buf = header_size (get_or buf 0 0) + frame_length buf + 2

abbrev pub bad_size : Bytes → Bool
bad_size buf = ltb (frame_length buf) 5 || ltb max_frame_length (frame_length buf)

-- The four ways through `NextFrame` once a delimiter is at the start.
pub data AtStart (buf : Bytes) (r : Framed) : Type 0 where
  short : length buf < header_size (get_or buf 0 0) → r ≡ wait → AtStart buf r
  refused :
      header_size (get_or buf 0 0) ≤ length buf
      → bad_size buf ≡ true
      → r ≡ junk 2 (bad_length (frame_length buf))
      → AtStart buf r
  partial :
      header_size (get_or buf 0 0) ≤ length buf
      → bad_size buf ≡ false
      → length buf < total_size buf
      → r ≡ wait
      → AtStart buf r
  whole :
      bad_size buf ≡ false
      → total_size buf ≤ length buf
      → r ≡ close_frame buf (total_size buf)
      → AtStart buf r

pub at_start_cases : (buf : Bytes) → AtStart buf (at_start buf)
unfolding at_start
at_start_cases buf = elim (Bool-cases (ltb (length buf) (header_size (get_or buf 0 0)))) [
  | inl few ↦ short (ltb→lt _ _ few) (rw few)
  | inr header ↦ elim (Bool-cases (bad_size buf)) [
    | inl bad ↦ refused (ground arith) bad (rw (header, bad))
    | inr good ↦ elim (Bool-cases (ltb (length buf) (total_size buf))) [
      | inl few ↦ partial (ground arith) good (ltb→lt _ _ few) (rw (header, good, few))
      | inr enough ↦ whole good (ground arith) (rw (header, good, enough))
    ]
  ]
]

at_start-Honours : (buf : Bytes) → 2 ≤ length buf → Honours buf (at_start buf)
at_start-Honours buf two = elim (at_start_cases buf) [
  | short _ e ↦ waits e
  | refused _ _ e ↦ throws 2 (bad_length (frame_length buf)) (omega arith) two e
  | partial _ _ _ e ↦ waits e
  | whole _ enough e ↦
      subst (Honours buf) (sym e) (close_frame-Honours buf (total_size buf) (omega arith) enough)
]

pub next_frame-Honours : (buf : Bytes) → Honours buf (next_frame buf)
unfolding next_frame index_of_start
next_frame-Honours buf = go (index_from 0 buf) refl
  where
    go : (o : Option ℕ) → index_from 0 buf ≡ o → Honours buf (split_at buf o)
    go none e = without_start-Honours buf
    go (some zero) e = at_start-Honours buf (omega (arith, index_from_bounds 0 0 buf e))
    go (some (suc k)) e =
        throws (suc k) (discarded (suc k)) (omega arith)
          (omega (arith, index_from_bounds 0 (suc k) buf e)) refl
