-- ===== src/Protocols/Text/Fields.antt =====
-- `strings.Split` reads back what `strings.Join` has put together.
use farbo_rastreamento.Prelude.{ℕ, ◌≡◌, refl, ap, ◌∙◌, false, List, [], ◌∷◌, ◌++◌, arith, ◌==◌, All}
use farbo_rastreamento.Prelude.Words.{Bytes}
use farbo_rastreamento.Protocols.Text.{split, join, to_first, trim_suffix}

-- A character does not occur in a text.
abbrev pub Lacks : ℕ → Bytes → Type 0
Lacks sep [] = Unit
Lacks sep (c ∷ s) = ((c == sep) ≡ false) × Lacks sep s

pub Lacks-append : (sep : ℕ) (s t : Bytes) → Lacks sep s → Lacks sep t → Lacks sep (s ++ t)
Lacks-append sep [] t h k = k
Lacks-append sep (c ∷ s) t h k = (h.0, Lacks-append sep s t h.1 k)

pub Lacks-join :
    (sep end : ℕ) (ps : List Bytes)
    → ((sep == end) ≡ false)
    → All (Lacks end) ps
    → Lacks end (join sep ps)
unfolding join
Lacks-join sep end [] h k = tt
Lacks-join sep end (p ∷ []) h k = k.0
Lacks-join sep end (p ∷ q ∷ ps) h k =
    Lacks-append end p (sep ∷ join sep (q ∷ ps)) k.0 (h, Lacks-join sep end (q ∷ ps) h k.1)

split_last : (sep : ℕ) (p : Bytes) → Lacks sep p → split sep p ≡ p ∷ []
unfolding split to_first
split_last sep [] h = refl
split_last sep (c ∷ p) h = ground (arith, split_last sep p)

split_first : (sep : ℕ) (p s : Bytes) → Lacks sep p → split sep (p ++ sep ∷ s) ≡ p ∷ split sep s
unfolding split to_first
split_first sep [] s h = ground arith
split_first sep (c ∷ p) s h = ground (arith, split_first sep p s)

pub split-join :
    (sep : ℕ) (p : Bytes) (ps : List Bytes)
    → All (Lacks sep) (p ∷ ps)
    → split sep (join sep (p ∷ ps)) ≡ p ∷ ps
unfolding join
split-join sep p [] h = split_last sep p h.0
split-join sep p (q ∷ ps) h =
    split_first sep p (join sep (q ∷ ps)) h.0 ∙ ap (◌∷◌ p) (split-join sep q ps h.1)

pub trim_suffix-append : (end : ℕ) (s : Bytes) → trim_suffix end (s ++ end ∷ []) ≡ s
unfolding trim_suffix
trim_suffix-append end [] = ground arith
trim_suffix-append end (c ∷ []) = ground arith
trim_suffix-append end (c ∷ d ∷ s) = ap (◌∷◌ c) (trim_suffix-append end (d ∷ s))
