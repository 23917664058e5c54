-- ===== src/Tracking/Simplify/Examples.antt =====
-- A route of four points, over whole numbers in place of floats.
use mathlib.Core.Option
use farbo_rastreamento.Prelude.{
  ℕ, ◌+◌, ◌-◌, ◌*◌, ◌/◌, ◌<◌, ◌≡◌, refl, Bool, true, false, none, some, List, [], ◌∷◌, ltb, leb,
  if◌then◌else◌, arith,
}
use farbo_rastreamento.Protocols.Floats.{FloatOps}
use farbo_rastreamento.Tracking.Positions.{Position, gps}
use farbo_rastreamento.Tracking.Simplify.{MathOps, simplify, marked, distance_in}
use farbo_rastreamento.Tracking.Simplify.Farthest.{IsOrder}
use farbo_rastreamento.Tracking.Simplify.Cover.{IsCovered}
use farbo_rastreamento.Tracking.Simplify.Route.{simplify-IsCovered}

abbrev pub whole : FloatOps ℕ
whole = record {
  of_nat = λ n. n;
  add = λ a b. a + b;
  sub = λ a b. a - b;
  mul = λ a b. a * b;
  div = λ a b. a / b;
  neg = λ a. 0;
  lt = ltb;
  le = leb;
  parse = λ s. none;
  is_nan = λ a. false;
  is_inf = λ a. false;
}

pub whole-IsOrder : IsOrder ℕ ⦃fl = whole⦄
whole-IsOrder = record {
  reflexive = λ a. ground arith;
  transitive = λ a b c h k. ground arith;
  total = λ a b h. ground arith;
  less = λ a b h. ground arith;
  not_less = λ a b h. ground arith;
}

-- Far enough from the poles, with the distance along the axes.
abbrev pub flat : MathOps ℕ
flat = record {
  pi = 180;
  sin = λ x. x;
  cos = λ x. 1;
  sqrt = λ x. x;
  atan2 = λ y x. y;
  hypot = λ x y. x + y;
  max = λ x y. if leb x y then y else x;
  min = λ x y. if leb x y then x else y;
}

abbrev pub at : ℕ → ℕ → Position ℕ
at latitude longitude = record {
  device_id = 5;
  gps_timestamp = 0;
  received_at = 0;
  latitude = latitude;
  longitude = longitude;
  speed_kmh = 0;
  heading = none;
  altitude = none;
  gps_valid = some true;
  satellites = none;
  hdop = none;
  acc = none;
  battery_voltage = none;
  battery_percent = none;
  gsm_level = none;
  relay_on = none;
  protocol = [];
  source = gps;
  raw_payload = [];
}

-- Points near the start, and the end.
abbrev pub route : List (Position ℕ)
route = at 0 3 ∷ at 4 0 ∷ at 7 0 ∷ []

route_is_thinned :
    simplify ⦃fl = whole⦄ flat (at 0 0 ∷ route) 400000 ≡ some (at 0 0 ∷ at 4 0 ∷ at 7 0 ∷ [])
unfolding simplify Option.bind
route_is_thinned = refl

simplify-IsCovered_example :
    (keep : ℕ → Bool) × (simplify ⦃fl = whole⦄ flat (at 0 0 ∷ route) 400000
      ≡ some (marked keep 0 (at 0 0 ∷ route)))
    × (keep 0 ≡ true)
    × (keep 3 ≡ true)
    × ((j : ℕ)
        → j < 4
        → keep j ≡ false
        → IsCovered ⦃fl = whole⦄ whole-IsOrder
            (distance_in ⦃fl = whole⦄ flat (at 0 0 ∷ route) (at 0 0))
            400000
            keep
            0
            3
            j)
simplify-IsCovered_example =
    simplify-IsCovered ⦃fl = whole⦄ whole-IsOrder flat (at 0 0) route 400000
