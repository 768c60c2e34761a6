-- ===== src/Examples/Series.antt =====
-- `next_occurrence` at concrete dates, in a zone three hours behind UTC.
use evi.Common.{ℕ, ◌+◌, ◌*◌, ◌≡◌, refl, none, some, false, arith}
use evi.Calendar.{
  ordinal, days_in_month, is_leap, days_in, month_start, days_before_year, days_before,
  from_ordinal, date_from, add_months,
}
use evi.Calendar.Zone.{Zone, IsZone, day_us, to_local, instant}
use evi.Reminder.{daily, weekly, monthly}
use evi.Recurrence.{next_occurrence, next_by_days, next_monthly}
use evi.Recurrence.Days.{IsFirst, next_by_days-IsFirst}
use evi.Recurrence.Monthly
use evi.Recurrence.Monthly.{next_monthly-IsFirst}
use evi.Recurrence.Total.{next_occurrence_total}

abbrev hour_us : ℕ
hour_us = 3600000000

abbrev pub sao_paulo : Zone
sao_paulo = record {
  offset_at = λ t. 21 * hour_us;
  fold_at = λ t. false;
  offset_of = λ f d w. 21 * hour_us;
}

pub sao_paulo-IsZone : IsZone sao_paulo
sao_paulo-IsZone = record {
  least = 20 * hour_us;
  least_le = omega arith;
  at_ge = λ t. omega arith;
  at_le = λ t. omega arith;
  of_ge = λ f d w. omega arith;
  of_le = λ f d w. omega arith;
}

-- 9:00 in UTC on a day by its ordinal
abbrev pub at_nine : ℕ → ℕ
at_nine d = d * day_us + 9 * hour_us

-- January 31 of year 1, a Wednesday, and what follows it
daily_next : next_occurrence sao_paulo (at_nine 31) daily (at_nine 40) none ≡ some (at_nine 41)
unfolding next_occurrence to_local instant
daily_next = refl

weekly_next : next_by_days sao_paulo (at_nine 31) weekly (at_nine 31) ≡ some (at_nine 38)
unfolding next_by_days to_local instant
weekly_next = refl

-- ... in February on the 28th, and in March on the 31st again
monthly_next : next_monthly sao_paulo (at_nine 31) (at_nine 31) none ≡ some (at_nine 59)
unfolding next_monthly to_local instant from_ordinal date_from add_months ordinal days_in_month
    month_start is_leap days_in days_before_year days_before
monthly_next = refl

march_again : next_monthly sao_paulo (at_nine 59) (at_nine 59) (some 31) ≡ some (at_nine 90)
unfolding next_monthly to_local instant from_ordinal date_from add_months ordinal days_in_month
    month_start is_leap days_in days_before_year days_before
march_again = refl

new_year_2026 : ordinal 2026 1 1 ≡ 739617
unfolding ordinal month_start days_before_year days_before is_leap days_in
new_year_2026 = refl

next_occurrence_total_example :
    (t : ℕ) × (next_occurrence sao_paulo (at_nine 31) monthly (at_nine 40) none ≡ some t)
next_occurrence_total_example =
    next_occurrence_total sao_paulo (at_nine 31) monthly (at_nine 40) none sao_paulo-IsZone
      (omega arith) (omega arith) (omega arith) (omega arith)

next_by_days-IsFirst_example :
    IsFirst sao_paulo sao_paulo-IsZone
      (at_nine 31)
      (at_nine 31)
      (omega arith)
      (omega arith)
      weekly
      (at_nine 38)
next_by_days-IsFirst_example =
    next_by_days-IsFirst sao_paulo sao_paulo-IsZone (at_nine 31) (at_nine 31) (omega arith)
      (omega arith) weekly (at_nine 38) (λ e. cc) weekly_next

next_monthly-IsFirst_example :
    Monthly.IsFirst sao_paulo sao_paulo-IsZone
      (at_nine 31)
      (at_nine 31)
      (omega arith)
      (omega arith)
      none
      (at_nine 59)
next_monthly-IsFirst_example =
    next_monthly-IsFirst sao_paulo sao_paulo-IsZone (at_nine 31) (at_nine 31) (omega arith)
      (omega arith) none (at_nine 59) monthly_next

-- A series whose next day would lie in the year 10000 has no next occurrence: the source raises.
calendar_ends : next_by_days sao_paulo (at_nine 3652059) daily (at_nine 3652059) ≡ none
unfolding next_by_days to_local instant
calendar_ends = refl
