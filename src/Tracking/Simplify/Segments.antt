-- ===== src/Tracking/Simplify/Segments.antt =====
-- `simplifySegment`: it comes to its end, and what it drops is covered.
use mathlib.Core.Option
use farbo_rastreamento.Prelude.{
  true-ne_false, ℕ, zero, suc, ◌+◌, ◌-◌, ◌≤◌, ◌<◌, Bool, true, false, some, ◌≡◌, refl, ap, ◌∙◌, sym,
  inl, inr, arith, Bool-cases, leb,
}
use farbo_rastreamento.Protocols.Floats.{FloatOps}
use farbo_rastreamento.Tracking.Simplify.{farthest, keep_at, simplify_segment}
use farbo_rastreamento.Tracking.Simplify.Farthest.{IsOrder, farthest-IsFarthest}
use farbo_rastreamento.Tracking.Simplify.Cover.{IsThinned, IsThinned-stop, IsThinned-join}

keep_at-below : (k j : ℕ) (keep : ℕ → Bool) → j < k → keep_at k keep j ≡ keep j
keep_at-below k j keep h = ground arith

keep_at-above : (k j : ℕ) (keep : ℕ → Bool) → k < j → keep_at k keep j ≡ keep j
keep_at-above k j keep h = ground arith

keep_at-here : (k : ℕ) (keep : ℕ → Bool) → keep_at k keep k ≡ true
keep_at-here k keep = ground arith

module _ {F : Type 0} ⦃fl : FloatOps F⦄ (order : IsOrder F) (distance : ℕ → ℕ → ℕ → F)
    (tolerance : F) where
  abbrev found_in : ℕ → ℕ → F × ℕ
  found_in lo hi = farthest distance lo hi (hi - (lo + 1)) (lo + 1) (fl.of_nat 0, lo)

  segment-short :
      (fuel lo hi : ℕ) (keep : ℕ → Bool)
      → leb hi (lo + 1) ≡ true
      → simplify_segment distance tolerance (suc fuel) lo hi keep ≡ some keep
  unfolding simplify_segment
  segment-short fuel lo hi keep h = rw (simplify_segment, h) refl

  segment-near :
      (fuel lo hi : ℕ) (keep : ℕ → Bool)
      → leb hi (lo + 1) ≡ false
      → fl.le (found_in lo hi).0 tolerance ≡ true
      → simplify_segment distance tolerance (suc fuel) lo hi keep ≡ some keep
  unfolding simplify_segment
  segment-near fuel lo hi keep h h' = rw (simplify_segment, h, h') refl

  segment-split :
      (fuel lo hi : ℕ) (keep : ℕ → Bool)
      → leb hi (lo + 1) ≡ false
      → fl.le (found_in lo hi).0 tolerance ≡ false
      → simplify_segment distance tolerance (suc fuel) lo hi keep
        ≡ Option.bind
            (simplify_segment distance tolerance fuel lo
              (found_in lo hi).1
              (keep_at (found_in lo hi).1 keep))
            (λ left. simplify_segment distance tolerance fuel (found_in lo hi).1 hi left)
  unfolding simplify_segment Option.bind
  segment-split fuel lo hi keep h h' = rw (simplify_segment, h, h') refl

  -- Where the segment is split there is a point to split it at.
  found_in-inside :
      (lo hi : ℕ)
      → leb hi (lo + 1) ≡ false
      → fl.le (fl.of_nat 0) tolerance ≡ true
      → fl.le (found_in lo hi).0 tolerance ≡ false
      → (lo < (found_in lo hi).1) × ((found_in lo hi).1 < hi)
  found_in-inside lo hi long pos beyond =
      elim ((farthest-IsFarthest order distance lo hi (hi - (lo + 1)) (lo + 1)
        (fl.of_nat 0, lo)).index) [
          | inl same ↦
              absurd (true-ne_false (sym pos ∙ ap (λ b. fl.le b.0 tolerance) (sym same) ∙ beyond))
          | inr (p, q) ↦ let room : lo + 1 < hi = ground arith in (omega arith, omega arith)
        ]

  -- With as much fuel as the segment is long the recursion comes to its end.
  pub simplify_segment-IsThinned :
      (fuel lo hi : ℕ) (keep : ℕ → Bool)
      → lo < hi
      → hi ≤ lo + fuel
      → fl.le (fl.of_nat 0) tolerance ≡ true
      → keep lo ≡ true
      → keep hi ≡ true
      → ((j : ℕ) → lo < j → j < hi → keep j ≡ false)
      → (after : ℕ → Bool) × (simplify_segment distance tolerance fuel lo hi keep ≡ some after)
        × IsThinned order distance tolerance lo hi keep after
  unfolding Option.bind
  simplify_segment-IsThinned zero lo hi keep l f pos at_lo at_hi none_kept = absurd (omega arith)
  simplify_segment-IsThinned (suc fuel) lo hi keep l f pos at_lo at_hi none_kept =
      let far =
        farthest-IsFarthest order distance lo hi (hi - (lo + 1)) (lo + 1) (fl.of_nat 0, lo) in
      elim (Bool-cases (leb hi (lo + 1))) [
        | inl short ↦ (
          keep,
          segment-short fuel lo hi keep short,
          IsThinned-stop order distance tolerance lo hi keep at_lo at_hi none_kept
              (λ j p q. absurd (ground arith)),
        )
        | inr long ↦ elim (Bool-cases (fl.le (found_in lo hi).0 tolerance)) [
          | inl near ↦ (
            keep,
            segment-near fuel lo hi keep long near,
            IsThinned-stop order distance tolerance lo hi keep at_lo at_hi none_kept (λ j p q.
                order.transitive (distance j lo hi) (found_in lo hi).0 tolerance
                  (far.above j (omega arith) (omega arith)) near),
          )
          | inr beyond ↦
              let k = (found_in lo hi).1 in
              let (lo_k, k_hi) = found_in-inside lo hi long pos beyond in
              let (left, e, a) =
                simplify_segment-IsThinned fuel lo k (keep_at k keep) lo_k (omega arith) pos
                  (keep_at-below k lo keep lo_k ∙ at_lo) (keep_at-here k keep)
                  (λ j p q. keep_at-below k j keep q ∙ none_kept j p (omega arith)) in
              let (right, e', b) =
                simplify_segment-IsThinned fuel k hi left k_hi (omega arith) pos
                  (a.outside k (inr (omega arith)) ∙ keep_at-here k keep)
                  (a.outside hi (inr (omega arith)) ∙ keep_at-above k hi keep k_hi ∙ at_hi)
                  (λ j p q.
                    a.outside j (inr (omega arith))
                    ∙ keep_at-above k j keep p
                    ∙ none_kept j (omega arith) q) in
              (
                right,
                segment-split fuel lo hi keep long beyond
                    ∙ ap (λ o. Option.bind o (λ m. simplify_segment distance tolerance fuel k hi m))
                        e
                    ∙ e',
                IsThinned-join order distance tolerance lo k hi keep left right lo_k k_hi a b,
              )
        ]
      ]
