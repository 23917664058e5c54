-- ===== src/Protocols/Calendar.antt =====
-- Go's `time.Date` in UTC. A `Time` is the number of seconds since the first day of year 1, which
-- is the zero `time.Time`; fractions of a second are dropped.
use farbo_rastreamento.Prelude.{
  ℕ, ◌+◌, ◌-◌, ◌*◌, ◌/◌, ◌%◌, Bool, not, ◌&&◌, ◌||◌, ◌==◌, ltb, if◌then◌else◌, [], ◌∷◌, get_or,
}

abbrev pub Time : Type 0
Time = ℕ

-- The fields that `Year()`, `Month()`, … read from a `time.Time`.
pub record CivilTime : Type 0 where
  pub year : ℕ
  pub month : ℕ
  pub day : ℕ
  pub hour : ℕ
  pub minute : ℕ
  pub second : ℕ

unfoldable pub is_leap : ℕ → Bool
is_leap y = y % 4 == 0 && (not (y % 100 == 0) || y % 400 == 0)

days_before_year : ℕ → ℕ
days_before_year y = let n = y - 1 in 365 * n + n / 4 - n / 100 + n / 400

days_before_month : ℕ → ℕ → ℕ
unfolding is_leap
days_before_month y m =
    get_or (0 ∷ 31 ∷ 59 ∷ 90 ∷ 120 ∷ 151 ∷ 181 ∷ 212 ∷ 243 ∷ 273 ∷ 304 ∷ 334 ∷ []) (m - 1) 0
    + (if is_leap y && ltb 2 m then 1 else 0)

-- For a month from 1 to 12 and a day from 1 on; days, hours, minutes and seconds past their range
-- carry over as in `time.Date`.
unfoldable pub date : CivilTime → Time
unfolding days_before_year days_before_month
date t =
    ((days_before_year t.year + days_before_month t.year t.month + (t.day - 1)) * 24 + t.hour)
      * 3600
    + t.minute * 60
    + t.second
