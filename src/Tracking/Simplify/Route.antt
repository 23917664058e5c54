-- ===== src/Tracking/Simplify/Route.antt =====
-- `Simplify` as a whole: its ends, its end, and what it leaves out.
use mathlib.Core.Option
use farbo_rastreamento.Prelude.{
  true-ne_false, ℕ, suc, ◌-◌, ◌<◌, Bool, true, false, ◌||◌, some, List, [], ◌∷◌, ◌≡◌, refl, ap, ◌∙◌,
  sym, subst, inl, inr, arith, Bool-cases, ltb, ◌==◌, ==_iff, length,
}
use farbo_rastreamento.Protocols.Floats.{FloatOps}
use farbo_rastreamento.Tracking.Positions.{Position}
use farbo_rastreamento.Tracking.Simplify.{
  MathOps, simplify, simplify_segment, marked, ends, distance_in,
}
use farbo_rastreamento.Tracking.Simplify.Farthest.{IsOrder}
use farbo_rastreamento.Tracking.Simplify.Cover.{IsCovered, IsThinned}
use farbo_rastreamento.Tracking.Simplify.Segments.{simplify_segment-IsThinned}

marked-all : {P : Type 0} (i : ℕ) (ps : List P) → marked (λ j. true) i ps ≡ ps
unfolding marked
marked-all i [] = refl
marked-all i (p ∷ ps) = ap (◌∷◌ p) (marked-all (suc i) ps)

module _ {F : Type 0} ⦃fl : FloatOps F⦄ (order : IsOrder F) (math : MathOps F) where
  simplify-short :
      (p : Position F) (ps : List (Position F)) (tolerance : F)
      → (ltb (length (p ∷ ps)) 3 || fl.le tolerance (fl.of_nat 0)) ≡ true
      → simplify math (p ∷ ps) tolerance ≡ some (p ∷ ps)
  unfolding simplify
  simplify-short p ps tolerance h = rw h refl

  simplify-long :
      (p : Position F) (ps : List (Position F)) (tolerance : F)
      → (ltb (length (p ∷ ps)) 3 || fl.le tolerance (fl.of_nat 0)) ≡ false
      → simplify math (p ∷ ps) tolerance
        ≡ Option.map
            (λ keep. marked keep 0 (p ∷ ps))
            (simplify_segment
              (distance_in math (p ∷ ps) p)
              tolerance
              (length (p ∷ ps))
              0
              (length (p ∷ ps) - 1)
              (ends (length (p ∷ ps))))
  unfolding simplify
  simplify-long p ps tolerance h = rw h refl

  -- The marks of the whole segment, its ends apart.
  covered :
      (distance : ℕ → ℕ → ℕ → F) (tolerance : F) (n hi : ℕ) (keep : ℕ → Bool)
      → hi ≡ n
      → keep 0 ≡ true
      → keep n ≡ true
      → IsThinned order distance tolerance 0 hi (ends (suc n)) keep
      → (j : ℕ) → j < suc n
      → keep j ≡ false
      → IsCovered order distance tolerance keep 0 n j
  covered distance tolerance n hi keep e first last thin j h d = elim (Bool-cases (j == 0)) [
    | inl at_first ↦
        absurd (true-ne_false (sym first ∙ ap keep (sym ((==_iff j 0).0 at_first)) ∙ d))
    | inr after_first ↦ elim (Bool-cases (j == n)) [
      | inl at_last ↦ absurd (true-ne_false (sym last ∙ ap keep (sym ((==_iff j n).0 at_last)) ∙ d))
      | inr before_last ↦
          subst (λ k. IsCovered order distance tolerance keep 0 k j) e
            (thin.inside j (ground arith) (ground arith) d)
    ]
  ]

  -- The thinning of a route comes to its end, keeps the first and the last point, and gives the kept
  -- points in their order; every point that it leaves out is within the tolerance of the segment
  -- between the kept points around it, for numbers that are ordered (no NaN).
  pub simplify-IsCovered :
      (p : Position F) (ps : List (Position F)) (tolerance : F)
      → (keep : ℕ → Bool) × (simplify math (p ∷ ps) tolerance ≡ some (marked keep 0 (p ∷ ps)))
        × (keep 0 ≡ true)
        × (keep (length ps) ≡ true)
        × ((j : ℕ)
            → j < length (p ∷ ps)
            → keep j ≡ false
            → IsCovered order (distance_in math (p ∷ ps) p) tolerance keep 0 (length ps) j)
  simplify-IsCovered p ps tolerance =
      elim (Bool-cases (ltb (length (p ∷ ps)) 3 || fl.le tolerance (fl.of_nat 0))) [
        | inl short ↦ (
          λ j. true,
          simplify-short p ps tolerance short ∙ ap some (sym (marked-all 0 (p ∷ ps))),
          refl,
          refl,
          λ j h e. absurd (ground arith),
        )
        | inr long ↦
            let room : 2 < length (p ∷ ps) = ground arith in
            let positive : fl.le tolerance (fl.of_nat 0) ≡ false = ground arith in
            let (keep, e, thin) =
              simplify_segment-IsThinned order (distance_in math (p ∷ ps) p) tolerance
                (length (p ∷ ps)) 0 (length (p ∷ ps) - 1) (ends (length (p ∷ ps))) (omega arith)
                (omega arith) (order.total tolerance (fl.of_nat 0) positive) (ground arith)
                (ground arith) (λ j l h. ground arith) in
            let first : keep 0 ≡ true = thin.outside 0 (inl (omega arith)) ∙ ground arith in
            let last : keep (length ps) ≡ true =
              thin.outside (length ps) (inr (omega arith)) ∙ ground arith in
            (
              keep,
              simplify-long p ps tolerance long ∙ ap (Option.map (λ k. marked k 0 (p ∷ ps))) e,
              first,
              last,
              covered (distance_in math (p ∷ ps) p) tolerance (length ps) _ keep (omega arith) first
                  last thin,
            )
      ]
