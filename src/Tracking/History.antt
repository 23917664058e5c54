-- ===== src/Tracking/History.antt =====
-- position.go: `History`, the route of a device in a period, sampled by the database and thinned. The
-- rows of the table stand in the order of their time and number.
pub mod Sampling
pub mod Bounded
mod Examples
use mathlib.Core.Option
use farbo_rastreamento.Prelude.{
  ℕ, zero, suc, ◌+◌, ◌-◌, ◌/◌, ◌%◌, Bool, true, false, not, ◌&&◌, ◌||◌, Option, none, some, List,
  [], ◌∷◌, ltb, leb, ◌==◌, if◌then◌else◌, length,
}
use farbo_rastreamento.Protocols.Calendar.{Time}
use farbo_rastreamento.Protocols.Floats.{FloatOps}
use farbo_rastreamento.Protocols.Text.{ℤ, pos, negsuc}
use farbo_rastreamento.Tracking.Positions.{Position, is_gps}
use farbo_rastreamento.Tracking.Simplify.{MathOps, marked, simplify}

pub record HistoryQuery (F : Type 0) : Type 0 where
  pub device_id : ℕ
  pub from : Time
  pub to : Time
  pub limit : ℤ
  pub only_valid : Bool
  pub simplify : Bool
  pub tolerance : F

pub record HistoryResult (F : Type 0) : Type 0 where
  pub positions : List (Position F)
  pub total : ℕ
  pub returned : ℕ
  pub sampled : Bool
  pub sample_step : ℕ
  pub simplified : Bool

unfoldable pub history_limit : ℤ → ℕ
history_limit (pos n) = if n == 0 then 2000 else n
history_limit (negsuc n) = 2000

abbrev is_true : Option Bool → Bool
is_true (some true) = true
is_true _ = false

-- `math.Ceil(float64(total) / float64(limit))`, which is exact for the counts of a table.
unfoldable pub step_of : ℕ → ℕ → ℕ
step_of limit total = if ltb limit total then (total + (limit - 1)) / limit else 1

-- The condition of the sampling on the number of a row, which counts from 1.
unfoldable pub is_sampled : ℕ → ℕ → ℕ → Bool
is_sampled step total i = step == 1 || (suc i % step == 1 || suc i == total)

module _ {F : Type 0} where
  unfoldable pub in_history : HistoryQuery F → Position F → Bool
  in_history q p =
      p.device_id == q.device_id
      && (leb q.from p.gps_timestamp
          && (leb p.gps_timestamp q.to
              && (is_gps p.source && (not q.only_valid || is_true p.gps_valid))))

  unfoldable pub found_by : HistoryQuery F → List (Position F) → List (Position F)
  unfolding in_history
  found_by q [] = []
  found_by q (p ∷ ps) = let rest = found_by q ps in if in_history q p then p ∷ rest else rest

  abbrev empty_result : HistoryResult F
  empty_result = record {
    positions = [];
    total = 0;
    returned = 0;
    sampled = false;
    sample_step = 0;
    simplified = false;
  }

  -- The answer of the database.
  abbrev sampled_result : ℕ → List (Position F) → List (Position F) → Bool → HistoryResult F
  sampled_result limit found positions thinned = record {
    positions = positions;
    total = length found;
    returned = length positions;
    sampled = ltb limit (length found);
    sample_step = step_of limit (length found);
    simplified = thinned;
  }

module _ {F : Type 0} ⦃fl : FloatOps F⦄ (math : MathOps F) where
  abbrev tolerance_or_5 : F → F
  tolerance_or_5 t = if fl.le t (fl.of_nat 0) then fl.of_nat 5 else t

  unfoldable pub thin_result :
      HistoryQuery F → ℕ → List (Position F) → List (Position F) → Option (HistoryResult F)
  unfolding simplify
  thin_result q limit found points =
      if q.simplify && ltb 2 (length points)
      then Option.map (λ ps. sampled_result limit found ps (ltb (length ps) (length points)))
          (simplify math points (tolerance_or_5 q.tolerance))
      else some (sampled_result limit found points false)

  unfoldable pub history_of : HistoryQuery F → ℕ → List (Position F) → Option (HistoryResult F)
  unfolding thin_result marked is_sampled step_of
  history_of q limit [] = some empty_result
  history_of q limit (p ∷ ps) =
      let total = length (p ∷ ps) in
      thin_result q limit (p ∷ ps) (marked (is_sampled (step_of limit total) total) 0 (p ∷ ps))

  unfoldable pub history : HistoryQuery F → List (Position F) → Option (HistoryResult F)
  unfolding history_of history_limit found_by
  history q rows = history_of q (history_limit q.limit) (found_by q rows)
