-- ===== src/Tracking/Simplify/Cover.antt =====
-- What the marks of a segment promise, and how two halves make a whole.
use farbo_rastreamento.Prelude.{
  true-ne_false, ℕ, ◌≤◌, ◌<◌, Bool, true, false, ◌≡◌, refl, ◌∙◌, sym, ◌⊎◌, inl, inr, arith,
  Bool-cases, ltb, ltb→lt, ◌==◌,
}
use farbo_rastreamento.Protocols.Floats.{FloatOps}
use farbo_rastreamento.Tracking.Simplify.{keep_at}
use farbo_rastreamento.Tracking.Simplify.Farthest.{IsOrder}

module _ {F : Type 0} ⦃fl : FloatOps F⦄ (order : IsOrder F) (distance : ℕ → ℕ → ℕ → F)
    (tolerance : F) where
  -- A point that is dropped lies within the tolerance of the segment that is drawn in its place:
  -- between two points that are kept, with none kept between them.
  pub record IsCovered (keep : ℕ → Bool) (lo hi j : ℕ) : Type 0 where
    pub from : ℕ
    pub to : ℕ
    pub lo_from : lo ≤ from
    pub from_j : from < j
    pub j_to : j < to
    pub to_hi : to ≤ hi
    pub from_kept : keep from ≡ true
    pub to_kept : keep to ≡ true
    pub between : (i : ℕ) → from < i → i < to → keep i ≡ false
    pub near : fl.le (distance j from to) tolerance ≡ true

  -- The marks before and after a segment.
  pub record IsThinned (lo hi : ℕ) (before after : ℕ → Bool) : Type 0 where
    pub outside : (j : ℕ) → (j ≤ lo) ⊎ (hi ≤ j) → after j ≡ before j
    pub inside : (j : ℕ) → lo < j → j < hi → after j ≡ false → IsCovered after lo hi j

  pub IsThinned-stop :
      (lo hi : ℕ) (keep : ℕ → Bool)
      → keep lo ≡ true
      → keep hi ≡ true
      → ((j : ℕ) → lo < j → j < hi → keep j ≡ false)
      → ((j : ℕ) → lo < j → j < hi → fl.le (distance j lo hi) tolerance ≡ true)
      → IsThinned lo hi keep keep
  IsThinned-stop lo hi keep at_lo at_hi none_kept near = record {
    outside = λ j h. refl;
    inside = λ j l h e. record {
      from = lo;
      to = hi;
      lo_from = omega arith;
      from_j = l;
      j_to = h;
      to_hi = omega arith;
      from_kept = at_lo;
      to_kept = at_hi;
      between = none_kept;
      near = near j l h;
    };
  }

  -- A cover survives the marks of another segment.
  IsCovered-mono :
      (lo hi lo' hi' j : ℕ) (keep keep' : ℕ → Bool)
      → lo' ≤ lo
      → hi ≤ hi'
      → ((i : ℕ) → lo ≤ i → i ≤ hi → keep' i ≡ keep i)
      → IsCovered keep lo hi j
      → IsCovered keep' lo' hi' j
  IsCovered-mono lo hi lo' hi' j keep keep' l h same c = record {
    from = c.from;
    to = c.to;
    lo_from = omega (arith, c.lo_from);
    from_j = c.from_j;
    j_to = c.j_to;
    to_hi = omega (arith, c.to_hi);
    from_kept = same c.from c.lo_from (omega (arith, c.from_j, c.j_to, c.to_hi)) ∙ c.from_kept;
    to_kept = same c.to (omega (arith, c.lo_from, c.from_j, c.j_to)) c.to_hi ∙ c.to_kept;
    between = λ i p q. same i (omega (arith, c.lo_from)) (omega (arith, c.to_hi)) ∙ c.between i p q;
    near = c.near;
  }

  -- The two halves.
  pub IsThinned-join :
      (lo k hi : ℕ) (keep left right : ℕ → Bool)
      → lo < k
      → k < hi
      → IsThinned lo k (keep_at k keep) left
      → IsThinned k hi left right
      → IsThinned lo hi keep right
  IsThinned-join lo k hi keep left right l h a b = record {
    outside = λ j out. elim out [
      | inl before ↦ b.outside j (inl (omega arith)) ∙ a.outside j (inl before) ∙ ground arith
      | inr after ↦ b.outside j (inr after) ∙ a.outside j (inr (omega arith)) ∙ ground arith
    ];
    inside = λ j p q dropped. elim (Bool-cases (ltb j k)) [
      | inl before ↦
          let same : (i : ℕ) → i ≤ k → right i ≡ left i = λ i m. b.outside i (inl m) in
          IsCovered-mono lo k lo hi j left right (omega arith) (omega arith) (λ i m n. same i n)
            (a.inside j p (ltb→lt j k before) (sym (same j (ground arith)) ∙ dropped))
      | inr after ↦ elim (Bool-cases (k == j)) [
        | inl here ↦
            let at_k : keep_at k keep j ≡ true = rw here refl in
            absurd (
              true-ne_false (
                sym at_k
                ∙ sym (a.outside j (inr (ground arith)))
                ∙ sym (b.outside j (inl (ground arith)))
                ∙ dropped))
        | inr beyond ↦
            IsCovered-mono k hi lo hi j right right (omega arith) (omega arith) (λ i m n. refl)
              (b.inside j (ground arith) q dropped)
      ]
    ];
  }
