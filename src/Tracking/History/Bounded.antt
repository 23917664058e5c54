-- ===== src/Tracking/History/Bounded.antt =====
-- `History` as a whole: it answers, with few points, and with the ends of the route.
use mathlib.Core.Option
use farbo_rastreamento.Prelude.{
  ℕ, suc, ◌+◌, ◌≤◌, ◌<◌, false, ◌&&◌, Option, some, List, [], ◌∷◌, ◌≡◌, refl, ap, ◌∙◌, sym, subst,
  inl, inr, arith, Bool-cases, ltb, length,
}
use farbo_rastreamento.Protocols.Floats.{FloatOps}
use farbo_rastreamento.Protocols.Text.{ℤ, pos, negsuc}
use farbo_rastreamento.Tracking.Positions.{Position}
use farbo_rastreamento.Tracking.Simplify.{MathOps, marked}
use farbo_rastreamento.Tracking.Simplify.Farthest.{IsOrder}
use farbo_rastreamento.Tracking.Simplify.Route.{simplify-IsCovered}
use farbo_rastreamento.Tracking.History.{
  HistoryQuery, HistoryResult, history_limit, step_of, is_sampled, found_by, thin_result,
  history_of, history, sampled_result, tolerance_or_5, empty_result,
}
use farbo_rastreamento.Tracking.History.Sampling.{
  first_of, last_of, length-marked-le, marked-first, marked-last, marked-kept, is_sampled-first,
  is_sampled-last, sampled-few,
}

history_limit-pos : (n : ℤ) → 0 < history_limit n
unfolding history_limit
history_limit-pos (pos n) = ground arith
history_limit-pos (negsuc n) = omega arith

module _ {F : Type 0} where
  -- What an answer promises of the rows that were found: their number, at most one point more than
  -- the limit, and the same first and last point.
  pub record IsRoute (limit : ℕ) (found : List (Position F)) (r : HistoryResult F) : Type 0 where
    pub counted : r.total ≡ length found
    pub few : length r.positions ≤ limit + 1
    pub first : first_of r.positions ≡ first_of found
    pub last : last_of r.positions ≡ last_of found
    pub returned : r.returned ≡ length r.positions

module _ {F : Type 0} ⦃fl : FloatOps F⦄ (order : IsOrder F) (math : MathOps F) where
  abbrev IsAnswer : ℕ → List (Position F) → Option (HistoryResult F) → Type 0
  IsAnswer limit found o = (r : HistoryResult F) × (o ≡ some r) × IsRoute limit found r

  thin_result-IsAnswer :
      (q : HistoryQuery F) (limit : ℕ) (found : List (Position F)) (p : Position F)
      (ps : List (Position F))
      → length (p ∷ ps) ≤ limit + 1
      → some p ≡ first_of found
      → last_of (p ∷ ps) ≡ last_of found
      → IsAnswer limit found (thin_result math q limit found (p ∷ ps))
  unfolding thin_result
  thin_result-IsAnswer q limit found p ps few first last =
      elim (Bool-cases (q.simplify && ltb 2 (length (p ∷ ps)))) [
        | inl thinned ↦
            let (keep, e, at_first, at_last, rest) =
              simplify-IsCovered order math p ps (tolerance_or_5 math q.tolerance) in
            let kept = marked keep 0 (p ∷ ps) in
            let small = length-marked-le keep 0 (p ∷ ps) in
            rw thinned (
              sampled_result limit found kept (ltb (length kept) (length (p ∷ ps))),
              ap (Option.map _) e,
              record {
                counted = refl;
                few = omega arith;
                first = marked-first keep 0 p ps at_first ∙ first;
                last = marked-last keep 0 p ps (ap keep (omega arith) ∙ at_last) ∙ last;
                returned = refl;
              },
            )
        | inr whole ↦ rw whole (
          sampled_result limit found (p ∷ ps) false,
          refl,
          record { counted = refl; few = few; first = first; last = last; returned = refl },
        )
      ]

  history_of-IsAnswer :
      (q : HistoryQuery F) (limit : ℕ) (found : List (Position F))
      → 0 < limit
      → IsAnswer limit found (history_of math q limit found)
  unfolding history_of
  history_of-IsAnswer q limit [] positive = (
    empty_result,
    refl,
    record { counted = refl; few = omega arith; first = refl; last = refl; returned = refl },
  )
  history_of-IsAnswer q limit (p ∷ ps) positive =
      let total = suc (length ps) in
      let keep = is_sampled (step_of limit total) total in
      let start = marked-kept keep 0 p ps (is_sampled-first limit total positive) in
      subst (λ l. IsAnswer limit (p ∷ ps) (thin_result math q limit (p ∷ ps) l)) (sym start)
        (thin_result-IsAnswer q limit (p ∷ ps) p (marked keep 1 ps)
          (subst (λ l. length l ≤ limit + 1) start (sampled-few limit total (p ∷ ps) positive refl))
          refl
          (ap last_of (sym start)
            ∙ marked-last keep 0 p ps
                (ap keep (omega arith) ∙ is_sampled-last (step_of limit total) (length ps))))

  -- Whatever the query and the table, `History` answers; the answer counts all the rows of the
  -- period, has at most one point more than the limit (2000 where none is given), and begins and ends
  -- at the first and the last row, sampled and thinned or not, for numbers that are ordered (no NaN).
  pub history-IsRoute :
      (q : HistoryQuery F) (rows : List (Position F))
      → (r : HistoryResult F) × (history math q rows ≡ some r)
        × IsRoute (history_limit q.limit) (found_by q rows) r
  unfolding history
  history-IsRoute q rows =
      history_of-IsAnswer q (history_limit q.limit) (found_by q rows) (history_limit-pos q.limit)
