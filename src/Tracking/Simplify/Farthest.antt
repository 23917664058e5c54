-- ===== src/Tracking/Simplify/Farthest.antt =====
-- The loop for the farthest point of a segment.
use farbo_rastreamento.Prelude.{
  ℕ, zero, suc, ◌+◌, ◌≤◌, ◌<◌, true, false, ◌≡◌, refl, ap, ◌∙◌, subst, ◌⊎◌, inl, inr, arith,
  Bool-cases, ◌==◌,
}
use farbo_rastreamento.Protocols.Floats.{FloatOps}
use farbo_rastreamento.Tracking.Simplify.{farthest}

-- What the comparison of numbers does, NaN left out.
pub record IsOrder (F : Type 0) ⦃fl : FloatOps F⦄ : Type 0 where
  pub reflexive : (a : F) → fl.le a a ≡ true
  pub transitive : (a b c : F) → fl.le a b ≡ true → fl.le b c ≡ true → fl.le a c ≡ true
  pub total : (a b : F) → fl.le a b ≡ false → fl.le b a ≡ true
  pub less : (a b : F) → fl.lt a b ≡ true → fl.le a b ≡ true
  pub not_less : (a b : F) → fl.lt a b ≡ false → fl.le b a ≡ true

module _ {F : Type 0} ⦃fl : FloatOps F⦄ (order : IsOrder F) (distance : ℕ → ℕ → ℕ → F) where
  -- What the loop finds: a distance that none exceeds, and the point that has it.
  pub record IsFarthest (first last i count : ℕ) (best found : F × ℕ) : Type 0 where
    pub grown : fl.le best.0 found.0 ≡ true
    pub above : (j : ℕ) → i ≤ j → j < i + count → fl.le (distance j first last) found.0 ≡ true
    pub index : (found ≡ best) ⊎ ((i ≤ found.1) × (found.1 < i + count))

  IsFarthest-step :
      (first last i count : ℕ) (best better found : F × ℕ)
      → fl.le best.0 better.0 ≡ true
      → fl.le (distance i first last) better.0 ≡ true
      → (better ≡ best) ⊎ (better.1 ≡ i)
      → IsFarthest first last (suc i) count better found
      → IsFarthest first last i (suc count) best found
  IsFarthest-step first last i count best better found grown here index f = record {
    grown = order.transitive best.0 better.0 found.0 grown f.grown;
    above = λ j lo hi. elim (Bool-cases (i == j)) [
      | inl same ↦
          let e : i ≡ j = ground arith in
          order.transitive (distance j first last) better.0 found.0
            (subst (λ k. fl.le (distance k first last) better.0 ≡ true) e here) f.grown
      | inr other ↦ f.above j (ground arith) (omega arith)
    ];
    index = elim f.index [
      | inl same ↦ elim index [
        | inl kept ↦ inl (same ∙ kept)
        | inr taken ↦
            let e : found.1 ≡ i = ap (λ b. b.1) same ∙ taken in inr (omega arith, omega arith)
      ]
      | inr (lo, hi) ↦ inr (omega arith, omega arith)
    ];
  }

  pub farthest-IsFarthest :
      (first last count i : ℕ) (best : F × ℕ)
      → IsFarthest first last i count best (farthest distance first last count i best)
  unfolding farthest
  farthest-IsFarthest first last zero i best = record {
    grown = order.reflexive best.0;
    above = λ j lo hi. absurd (omega arith);
    index = inl refl;
  }
  farthest-IsFarthest first last (suc count) i best =
      let d = distance i first last in
      elim (Bool-cases (fl.lt best.0 d)) [
        | inl more ↦ rw more (
            IsFarthest-step first last i count best (d, i) _ (order.less best.0 d more)
              (order.reflexive d) (inr refl) (farthest-IsFarthest first last count (suc i) (d, i)))
        | inr less ↦ rw less (
            IsFarthest-step first last i count best best _ (order.reflexive best.0)
              (order.not_less best.0 d less) (inl refl)
              (farthest-IsFarthest first last count (suc i) best))
      ]
