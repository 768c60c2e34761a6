-- ===== src/Recurrence/Total.antt =====
-- `next_occurrence` over all four kinds of series: it returns before the calendar ends, and later than
-- both instants.
use evi.Common.{ℕ, ◌*◌, ◌≤◌, ◌<◌, ◌≡◌, Option, some, arith}
use evi.Calendar.Zone.{Zone, IsZone, day_us}
use evi.Reminder.{Repeat, daily, weekdays, weekly}
use evi.Recurrence.{next_occurrence}
use evi.Recurrence.Days.{year_9999, next_by_days_total, next_by_days-later}
use evi.Recurrence.Monthly.{next_monthly_total, next_monthly-later}

-- In any zone whose offsets lie within 24 hours of one another, from instants after the third day of
-- the calendar and before its last year, 9999, `next_occurrence` returns: neither loop is used up, and
-- neither leaves the calendar.
pub next_occurrence_total :
    (z : Zone) (due_at : ℕ) (repeat : Repeat) (after : ℕ) (anchor_day : Option ℕ)
    → IsZone z
    → 3 * day_us ≤ due_at
    → 3 * day_us ≤ after
    → due_at < year_9999
    → after < year_9999
    → (t : ℕ) × (next_occurrence z due_at repeat after anchor_day ≡ some t)
unfolding next_occurrence
next_occurrence_total z due_at Repeat.daily after anchor_day zone h k p q =
    next_by_days_total z zone due_at after (omega arith) (omega arith) p q daily (λ e. cc)
next_occurrence_total z due_at Repeat.weekdays after anchor_day zone h k p q =
    next_by_days_total z zone due_at after (omega arith) (omega arith) p q weekdays (λ e. cc)
next_occurrence_total z due_at Repeat.weekly after anchor_day zone h k p q =
    next_by_days_total z zone due_at after (omega arith) (omega arith) p q weekly (λ e. cc)
next_occurrence_total z due_at Repeat.monthly after anchor_day zone h k p q =
    next_monthly_total z zone due_at after h k anchor_day p q

-- What it returns lies after both instants, whatever the offsets.
pub next_occurrence-later :
    (z : Zone) (due_at : ℕ) (repeat : Repeat) (after : ℕ) (anchor_day : Option ℕ) (t : ℕ)
    → next_occurrence z due_at repeat after anchor_day ≡ some t
    → (after < t) × (due_at < t)
unfolding next_occurrence
next_occurrence-later z due_at Repeat.daily after anchor_day t e =
    next_by_days-later z due_at daily after t e
next_occurrence-later z due_at Repeat.weekdays after anchor_day t e =
    next_by_days-later z due_at weekdays after t e
next_occurrence-later z due_at Repeat.weekly after anchor_day t e =
    next_by_days-later z due_at weekly after t e
next_occurrence-later z due_at Repeat.monthly after anchor_day t e =
    next_monthly-later z due_at after anchor_day t e
