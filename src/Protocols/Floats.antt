-- ===== src/Protocols/Floats.antt =====
-- `float64` and the calls of `math` that the program makes, as an interface: the type and its
-- operations are parameters. `Fraction` is an exact instance of it, for the examples.
use mathlib.Core.Option
use farbo_rastreamento.Prelude.{
  ℕ, ◌+◌, ◌-◌, ◌*◌, Bool, true, false, not, ◌||◌, ◌&&◌, Option, none, some, [], ◌∷◌, ltb, leb, ◌==◌,
  if◌then◌else◌,
}
use farbo_rastreamento.Prelude.Words.{Bytes}

pub record FloatOps (F : Type 0) : Type 0 where
  -- `float64(n)` of a number that is not negative.
  pub of_nat : ℕ → F
  pub add : F → F → F
  pub sub : F → F → F
  pub mul : F → F → F
  pub div : F → F → F
  pub neg : F → F
  pub lt : F → F → Bool
  pub le : F → F → Bool
  -- `strconv.ParseFloat(s, 64)`, when it gives no error; it reads "NaN" and "Inf" too.
  pub parse : Bytes → Option F
  pub is_nan : F → Bool
  pub is_inf : F → Bool

-- backend/internal/protocols/coordinates.go.
module _ {F : Type 0} ⦃fl : FloatOps F⦄ where
  unfoldable pub valid_coordinates : F → F → Bool
  valid_coordinates lat lon =
      if fl.is_nan lat || fl.is_nan lon || fl.is_inf lat || fl.is_inf lon
      then false
      else if fl.lt lat (fl.neg (fl.of_nat 90))
          || fl.lt (fl.of_nat 90) lat
          || fl.lt lon (fl.neg (fl.of_nat 180))
          || fl.lt (fl.of_nat 180) lon
      then false
      else true

  -- 1.852 is the float nearest to 1852 / 1000.
  unfoldable pub knots_to_kmh : F → F
  knots_to_kmh knots = fl.mul knots (fl.div (fl.of_nat 1852) (fl.of_nat 1000))

-- A fraction (up − down) / by, not in lowest terms.
pub record Fraction : Type 0 where
  pub up : ℕ
  pub down : ℕ
  pub by : ℕ

-- (a − b) is negative.
abbrev is_negative : Fraction → Bool
is_negative x = ltb x.up x.down

abbrev minus : Fraction → Fraction
minus x = record { up = x.down; down = x.up; by = x.by }

abbrev plus : Fraction → Fraction → Fraction
plus x y = record {
  up = x.up * y.by + y.up * x.by;
  down = x.down * y.by + y.down * x.by;
  by = x.by * y.by;
}

abbrev times : Fraction → Fraction → Fraction
times x y = record {
  up = x.up * y.up + x.down * y.down;
  down = x.up * y.down + x.down * y.up;
  by = x.by * y.by;
}

-- 1 / x, with the sign of x.
abbrev inverse : Fraction → Fraction
inverse x =
    if is_negative x
    then record { up = 0; down = x.by; by = x.down - x.up }
    else record { up = x.by; down = 0; by = x.up - x.down }

abbrev less : Fraction → Fraction → Bool
less x y = ltb (x.up * y.by + y.down * x.by) (y.up * x.by + x.down * y.by)

-- Digits, a point at most, and digits; `by` is 10 for each digit behind the point.
digits : Bool → Fraction → Bytes → Option Fraction
digits behind x [] = some x
digits behind x (c ∷ cs) =
    let next =
      digits behind
        (record x { up = x.up * 10 + (c - b'0'); by = if behind then x.by * 10 else x.by }) cs in
    let pointed = digits true x cs in
    if leb b'0' c && leb c b'9' then next else if c == b'.' && not behind then pointed else none

-- Plain decimals and "NaN"; the exponents of `ParseFloat` do not occur in the examples.
unfoldable pub parse_fraction : Bytes → Option Fraction
unfolding digits
parse_fraction [] = none
parse_fraction (c ∷ cs) =
    if c == b'N'
    then some (record { up = 0; down = 0; by = 0 })
    else if c == b'-'
    then Option.map minus (digits false (record { up = 0; down = 0; by = 1 }) cs)
    else digits false (record { up = 0; down = 0; by = 1 }) (c ∷ cs)

instance abbrev pub fraction_ops : FloatOps Fraction
fraction_ops = record {
  of_nat = λ n. record { up = n; down = 0; by = 1 };
  add = plus;
  sub = λ x y. plus x (minus y);
  mul = times;
  div = λ x y. times x (inverse y);
  neg = minus;
  lt = less;
  le = λ x y. not (less y x);
  parse = parse_fraction;
  is_nan = λ x. x.by == 0 && x.up == x.down;
  is_inf = λ x. x.by == 0 && not (x.up == x.down);
}
