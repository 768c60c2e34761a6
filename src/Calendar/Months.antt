-- ===== src/Calendar/Months.antt =====
-- Months follow one another without a gap, and ordinals and dates are in bijection.
use mathlib.Core.Path.{subst}
use native.Mathlib.Decide.{dec_lt}
use native.Mathlib.Numerals.{add-one}
use evi.Common.{
  ℕ, zero, suc, ◌+◌, ◌-◌, ◌≤◌, ◌<◌, ◌≡◌, refl, Bool, true, false, arith, inl, inr, leb, Bool-cases,
  leb→le,
}
use evi.Calendar.{
  Date, is_leap, leap_day, days_in, days_before, days_in_month, days_before_year, month_start,
  ordinal, add_months, date_from, from_ordinal,
}

pub days_in_bounds : (l m : ℕ) → l ≤ 1 → (28 ≤ days_in l m) × (days_in l m ≤ 31)
unfolding days_in
days_in_bounds l m h = ground arith

leap_day_le : (b : Bool) → leap_day b ≤ 1
leap_day_le true = omega arith
leap_day_le false = omega arith

pub days_in_month_bounds : (y m : ℕ) → (28 ≤ days_in_month y m) × (days_in_month y m ≤ 31)
unfolding days_in_month
days_in_month_bounds y m = days_in_bounds (leap_day (is_leap y)) m (leap_day_le (is_leap y))

year_step :
    (y : ℕ) → 1 ≤ y → days_before_year (y + 1) ≡ days_before_year y + 365 + leap_day (is_leap y)
unfolding days_before_year is_leap
year_step y h = ground arith

days_before_year_end : (l : ℕ) → days_before l 12 + days_in l 12 ≡ 365 + l
unfolding days_before
days_before_year_end l = omega arith

next_month :
    (y m : ℕ) → 1 ≤ m → m < 12 → ((add_months y m 1).0 ≡ y) × ((add_months y m 1).1 ≡ m + 1)
unfolding add_months
next_month y m h k = omega arith

next_year : (y : ℕ) → ((add_months y 12 1).0 ≡ y + 1) × ((add_months y 12 1).1 ≡ 1)
unfolding add_months
next_year y = omega arith

before_step : (l m : ℕ) → 1 ≤ m → days_before l (m + 1) ≡ days_before l m + days_in l m
before_step l zero h = absurd (omega arith)
before_step l (suc m) h = rw add-one (unfold days_before in refl)

-- The first of the next month is as many days on as the month has.
pub month_start-next :
    (y m : ℕ)
    → 1 ≤ y
    → 1 ≤ m
    → m ≤ 12
    → month_start (add_months y m 1).0 (add_months y m 1).1 ≡ month_start y m + days_in_month y m
unfolding month_start days_in_month
month_start-next y m hy hm k = elim (dec_lt m 12) [
  | yes p ↦
      rw ((next_month y m hm p).0, (next_month y m hm p).1)
        (omega (arith, before_step (leap_day (is_leap y)) m hm))
  | no p ↦
      let e : m ≡ 12 = omega arith in
      rw (e, (next_year y).0, (next_year y).1)
        (omega (
          arith,
          days_before_year_end (leap_day (is_leap y)),
          year_step y hy,
          january (leap_day (is_leap (y + 1))),
        ))
]
  where
    january : (l : ℕ) → days_before l 1 ≡ 0
    january l = unfold days_before in refl

-- What a walk over the months finds is the date of the ordinal.
pub record IsDateOf (n : ℕ) (d : Date) : Type 0 where
  pub same : ordinal d.year d.month d.day ≡ n
  pub year_pos : 1 ≤ d.year
  pub month_pos : 1 ≤ d.month
  pub month_le : d.month ≤ 12
  pub day_pos : 1 ≤ d.day
  pub day_le : d.day ≤ days_in_month d.year d.month

add_months_range :
    (y m n : ℕ)
    → 1 ≤ y
    → (1 ≤ (add_months y m n).0) × (1 ≤ (add_months y m n).1) × ((add_months y m n).1 ≤ 12)
unfolding add_months
add_months_range y m n h = omega arith

date_from-IsDateOf :
    (fuel y m n : ℕ)
    → n ≤ fuel
    → 1 ≤ n
    → 1 ≤ y
    → 1 ≤ m
    → m ≤ 12
    → IsDateOf (month_start y m + n) (date_from fuel y m n)
unfolding date_from ordinal
date_from-IsDateOf zero y m n f hn hy hm k = absurd (omega arith)
date_from-IsDateOf (suc fuel) y m n f hn hy hm k = elim (Bool-cases (leb n (days_in_month y m))) [
  | inl e ↦ rw e (record {
    same = refl;
    year_pos = hy;
    month_pos = hm;
    month_le = k;
    day_pos = hn;
    day_le = leb→le _ _ e;
  })
  | inr e ↦
      let big : days_in_month y m < n = ground arith in
      let range = add_months_range y m 1 hy in
      let ih =
        date_from-IsDateOf fuel (add_months y m 1).0 (add_months y m 1).1 (n - days_in_month y m)
          (omega (arith, days_in_month_bounds y m)) (omega arith) range.0 range.1 range.2 in
      rw e (record {
        same = omega (arith, ih.same, month_start-next y m hy hm k);
        year_pos = ih.year_pos;
        month_pos = ih.month_pos;
        month_le = ih.month_le;
        day_pos = ih.day_pos;
        day_le = ih.day_le;
      })
]

-- `toordinal` undoes `fromordinal`, and `fromordinal` returns a date of the calendar.
pub from_ordinal-IsDateOf : (n : ℕ) → 1 ≤ n → IsDateOf n (from_ordinal n)
unfolding from_ordinal
from_ordinal-IsDateOf n h =
    subst (λ k. IsDateOf k (date_from n 1 1 n)) start
      (date_from-IsDateOf n 1 1 n (omega arith) h (omega arith) (omega arith) (omega arith))
  where
    start : month_start 1 1 + n ≡ n
    start = unfold month_start days_before_year days_before in omega arith
