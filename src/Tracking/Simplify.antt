-- ===== src/Tracking/Simplify.antt =====
-- simplify.go: Douglas and Peucker's thinning of a route. The functions of `math` are an interface.
pub mod Farthest
pub mod Cover
pub mod Segments
pub mod Route
pub mod Examples
use mathlib.Core.Option
use farbo_rastreamento.Prelude.{
  ℕ, zero, suc, ◌+◌, ◌-◌, Bool, true, false, ◌&&◌, ◌||◌, Option, none, some, List, [], ◌∷◌, ltb,
  leb, ◌==◌, if◌then◌else◌, length, get_or,
}
use farbo_rastreamento.Protocols.Floats.{FloatOps}
use farbo_rastreamento.Tracking.Positions.{Position}

pub record MathOps (F : Type 0) : Type 0 where
  pub pi : F
  pub sin : F → F
  pub cos : F → F
  pub sqrt : F → F
  pub atan2 : F → F → F
  pub hypot : F → F → F
  pub max : F → F → F
  pub min : F → F → F

abbrev pub keep_at : ℕ → (ℕ → Bool) → ℕ → Bool
keep_at k keep i = if k == i then true else keep i

-- The points whose mark is set.
unfoldable pub marked : {P : Type 0} → (ℕ → Bool) → ℕ → List P → List P
marked keep i [] = []
marked keep i (p ∷ ps) = let rest = marked keep (suc i) ps in if keep i then p ∷ rest else rest

abbrev pub ends : ℕ → ℕ → Bool
ends n i = i == 0 || i + 1 == n

module _ {F : Type 0} ⦃fl : FloatOps F⦄ where
  -- `==` on floats.
  abbrev float_eq : F → F → Bool
  float_eq x y = fl.le x y && fl.le y x

  abbrev radians : MathOps F → F → F
  radians math x = fl.div (fl.mul x math.pi) (fl.of_nat 180)

  -- `DistanceMeters`, by the haversine.
  unfoldable pub distance_meters : MathOps F → F → F → F → F → F
  distance_meters math lat1 lon1 lat2 lon2 =
      let half = λ (x : F). math.sin (fl.div (radians math x) (fl.of_nat 2)) in
      let d_phi = half (fl.sub lat2 lat1) in
      let d_lambda = half (fl.sub lon2 lon1) in
      let a = fl.add (fl.mul d_phi d_phi) (
        fl.mul
          (fl.mul (fl.mul (math.cos (radians math lat1)) (math.cos (radians math lat2))) d_lambda)
          d_lambda) in
      fl.mul (fl.mul (fl.of_nat 2) (fl.of_nat 6371000))
        (math.atan2 (math.sqrt a) (math.sqrt (fl.sub (fl.of_nat 1) a)))

  -- The distance of `p` from the segment between `a` and `b`, in metres.
  unfoldable pub perpendicular_distance : MathOps F → Position F → Position F → Position F → F
  perpendicular_distance math p a b =
      let lat_ref = fl.div (fl.add a.latitude b.latitude) (fl.of_nat 2) in
      let per_lat = fl.of_nat 111132 in
      let per_lon = fl.mul (fl.of_nat 111320) (math.cos (radians math lat_ref)) in
      let px = fl.mul (fl.sub p.longitude a.longitude) per_lon in
      let py = fl.mul (fl.sub p.latitude a.latitude) per_lat in
      let bx = fl.mul (fl.sub b.longitude a.longitude) per_lon in
      let by = fl.mul (fl.sub b.latitude a.latitude) per_lat in
      let square = fl.add (fl.mul bx bx) (fl.mul by by) in
      let along = fl.div (fl.add (fl.mul px bx) (fl.mul py by)) square in
      let t = math.max (fl.of_nat 0) (math.min (fl.of_nat 1) along) in
      if float_eq square (fl.of_nat 0)
      then math.hypot px py
      else math.hypot (fl.sub px (fl.mul t bx)) (fl.sub py (fl.mul t by))

  module _ (distance : ℕ → ℕ → ℕ → F) where
    -- The loop for the farthest point: `count` points from `i` on, with the best so far.
    unfoldable pub farthest : ℕ → ℕ → ℕ → ℕ → F × ℕ → F × ℕ
    farthest first last zero i best = best
    farthest first last (suc count) i best =
        let d = distance i first last in
        farthest first last count (suc i) (if fl.lt best.0 d then (d, i) else best)

    -- `simplifySegment` on the marks; `none` is that the fuel did not suffice.
    unfoldable pub simplify_segment : F → ℕ → ℕ → ℕ → (ℕ → Bool) → Option (ℕ → Bool)
    unfolding farthest
    simplify_segment tolerance zero first last keep = none
    simplify_segment tolerance (suc fuel) first last keep = elim (leb last (first + 1)) [
      | true ↦ some keep
      | false ↦
          let (far, k) =
            farthest first last (last - (first + 1)) (first + 1) (fl.of_nat 0, first) in
          elim (fl.le far tolerance) [
            | true ↦ some keep
            | false ↦
                Option.bind (simplify_segment tolerance fuel first k (keep_at k keep))
                  (λ left. simplify_segment tolerance fuel k last left)
          ]
    ]

  abbrev pub distance_in : MathOps F → List (Position F) → Position F → ℕ → ℕ → ℕ → F
  distance_in math ps d i a b =
      perpendicular_distance math (get_or ps i d) (get_or ps a d) (get_or ps b d)

  -- `Simplify`.
  unfoldable pub simplify : MathOps F → List (Position F) → F → Option (List (Position F))
  unfolding simplify_segment marked perpendicular_distance
  simplify math [] tolerance = some []
  simplify math (p ∷ ps) tolerance =
      let all = p ∷ ps in
      if ltb (length all) 3 || fl.le tolerance (fl.of_nat 0)
      then some all
      else Option.map (λ keep. marked keep 0 all)
          (simplify_segment (distance_in math all p) tolerance (length all) 0 (length all - 1)
            (ends (length all)))
