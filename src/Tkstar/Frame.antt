-- ===== src/Tkstar/Frame.antt =====
-- parser.go: `textFramer`, which separates the sentences of a dialect at their end mark.
pub mod Contract
use farbo_rastreamento.Prelude.{
  ℕ, zero, suc, ◌+◌, Bool, true, false, ◌||◌, Option, none, some, [], ◌∷◌, ltb, ◌==◌, if◌then◌else◌,
  length, take,
}
use farbo_rastreamento.Prelude.Words.{Bytes}
use farbo_rastreamento.Protocols.Framing.{
  Framed, wait, junk, skipped, framed, no_terminator, over_limit,
}

abbrev pub max_text_frame : ℕ
max_text_frame = 1024

abbrev pub is_separator : ℕ → Bool
is_separator c = c == 13 || (c == 10 || c == b' ')

-- The line breaks and spaces before a sentence.
unfoldable pub separators : Bytes → ℕ
separators [] = 0
separators (c ∷ cs) = let rest = separators cs in if is_separator c then suc rest else 0

unfoldable pub index_of : ℕ → ℕ → Bytes → Option ℕ
index_of mark i [] = none
index_of mark i (c ∷ cs) = let rest = index_of mark (i + 1) cs in if c == mark then some i else rest

unfoldable pub sentence : Bytes → Option ℕ → Framed
sentence buf none =
    if ltb max_text_frame (length buf) then junk (length buf) no_terminator else wait
sentence buf (some i) =
    if ltb max_text_frame (i + 1)
    then junk (i + 1) over_limit
    else framed (take (i + 1) buf) (i + 1)

unfoldable pub behind_separators : ℕ → Bytes → ℕ → Framed
unfolding sentence index_of
behind_separators mark buf zero = sentence buf (index_of mark 0 buf)
behind_separators mark buf (suc n) = skipped (suc n)

-- `nextFrame`.
unfoldable pub next_frame : ℕ → Bytes → Framed
unfolding behind_separators separators
next_frame mark buf = behind_separators mark buf (separators buf)
