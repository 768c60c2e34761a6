-- ===== src/Calendar.antt =====
-- Dates of the proleptic Gregorian calendar and wall clocks, as Python's `datetime` and `calendar`
-- have them, and `_add_months` of agent/services/reminders.py.
pub mod Months
pub mod Zone
use evi.Common.{
  ℕ, zero, suc, ◌+◌, ◌-◌, ◌*◌, ◌/◌, ◌%◌, Bool, true, false, not, ◌&&◌, ◌||◌, List, [], ◌∷◌, leb,
  ltb, ◌==◌, if◌then◌else◌,
}

unfoldable pub is_leap : ℕ → Bool
is_leap y = (y % 4 == 0) && (not (y % 100 == 0) || (y % 400 == 0))

abbrev pub leap_day : Bool → ℕ
leap_day true = 1
leap_day false = 0

-- Days of the months and days before them, in a year with `l` leap days.
unfoldable pub days_in : ℕ → ℕ → ℕ
days_in l m =
    if m == 2 then 28 + l else if m == 4 || (m == 6 || (m == 9 || (m == 11))) then 30 else 31

unfoldable pub days_before : ℕ → ℕ → ℕ
unfolding days_in
days_before l zero = 0
days_before l (suc zero) = 0
days_before l (suc (suc m)) = days_before l (suc m) + days_in l (suc m)

-- `calendar.monthrange(y, m)[1]`
unfoldable pub days_in_month : ℕ → ℕ → ℕ
days_in_month y m = days_in (leap_day (is_leap y)) m

-- Days before January 1 of year `y`.
unfoldable pub days_before_year : ℕ → ℕ
days_before_year y = (y - 1) * 365 + (y - 1) / 4 - (y - 1) / 100 + (y - 1) / 400

-- Days before the first of a month.
unfoldable pub month_start : ℕ → ℕ → ℕ
month_start y m = days_before_year y + days_before (leap_day (is_leap y)) m

-- `date(y, m, d).toordinal()`
unfoldable pub ordinal : ℕ → ℕ → ℕ → ℕ
ordinal y m d = month_start y m + d

pub record Date : Type 0 where
  pub year : ℕ
  pub month : ℕ
  pub day : ℕ

unfoldable pub add_months : ℕ → ℕ → ℕ → ℕ × ℕ
add_months year month n = let idx = year * 12 + (month - 1) + n in (idx / 12, idx % 12 + 1)

-- `date.fromordinal(n)`, by walking over the months from January of year 1.
unfoldable pub date_from : ℕ → ℕ → ℕ → ℕ → Date
date_from zero y m n = record { year = y; month = m; day = n }
date_from (suc fuel) y m n =
    let (y', m') = add_months y m 1 in
    let rest = date_from fuel y' m' (n - days_in_month y m) in
    if leb n (days_in_month y m) then record { year = y; month = m; day = n } else rest

unfoldable pub from_ordinal : ℕ → Date
from_ordinal n = date_from n 1 1 n

-- `date.weekday() < 5`: ordinal 1 is a Monday.
unfoldable pub is_weekday : ℕ → Bool
is_weekday n = ltb ((n + 6) % 7) 5
