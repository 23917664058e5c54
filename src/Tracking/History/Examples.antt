-- ===== src/Tracking/History/Examples.antt =====
-- Four rows at a limit of two, over whole numbers in place of floats.
use farbo_rastreamento.Prelude.{ℕ, ◌≡◌, refl, some, true, false, List, [], ◌∷◌}
use farbo_rastreamento.Protocols.Text.{pos, negsuc}
use farbo_rastreamento.Tracking.Positions.{Position}
use farbo_rastreamento.Tracking.Simplify.Examples.{whole, whole-IsOrder, flat, at, route}
use farbo_rastreamento.Tracking.History.{
  HistoryQuery, HistoryResult, history, history_limit, found_by, step_of,
}
use farbo_rastreamento.Tracking.History.Bounded.{IsRoute, history-IsRoute}

abbrev asked : HistoryQuery ℕ
asked = record {
  device_id = 5;
  from = 0;
  to = 10;
  limit = pos 2;
  only_valid = true;
  simplify = false;
  tolerance = 0;
}

abbrev rows : List (Position ℕ)
rows = at 0 0 ∷ route

one_in_two : step_of 2 4 ≡ 2
unfolding step_of
one_in_two = refl

default_limit : history_limit (negsuc 3) ≡ 2000
unfolding history_limit
default_limit = refl

-- The second row is left out, and the last one comes on top of the sample.
sampled_rows :
    history ⦃fl = whole⦄ flat asked rows
    ≡ some (record {
      positions = at 0 0 ∷ at 4 0 ∷ at 7 0 ∷ [];
      total = 4;
      returned = 3;
      sampled = true;
      sample_step = 2;
      simplified = false;
    })
unfolding history
sampled_rows = refl

history-IsRoute_example :
    (r : HistoryResult ℕ) × (history ⦃fl = whole⦄ flat asked rows ≡ some r)
    × IsRoute (history_limit (pos 2)) (found_by asked rows) r
history-IsRoute_example = history-IsRoute ⦃fl = whole⦄ whole-IsOrder flat asked rows
