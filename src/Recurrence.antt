-- ===== src/Recurrence.antt =====
-- `next_occurrence` of agent/services/reminders.py: the first occurrence of a series after an
-- instant. The two loops run on the source's own numbers of rounds, 800 and 30; `none` stands for
-- the RuntimeError that a loop raises when they are used up, and for the OverflowError or ValueError
-- where the search leaves the calendar, which ends with the year 9999.
pub mod Days
pub mod Monthly
pub mod Total
use evi.Common.{
  ℕ, zero, suc, ◌+◌, ◌-◌, ◌*◌, ◌/◌, Bool, true, false, not, ◌&&◌, ◌||◌, Option, none, some, ltb,
  leb, ◌==◌, if◌then◌else◌, min, max,
}
use evi.Calendar.{days_in_month, ordinal, add_months, from_ordinal, is_weekday}
use evi.Calendar.Zone.{Zone, Local, to_local, instant, day_us}
use evi.Reminder.{Repeat}

-- `ok(cand)` and `cand > start`, compared as instants
abbrev pub is_after : ℕ → ℕ → ℕ → Bool
is_after due_at after cand = ltb after cand && ltb due_at cand

-- `date.max`, and whether a date and the instant of its candidate lie in the calendar
abbrev pub last_date : ℕ
last_date = 3652059

abbrev pub in_calendar : ℕ → ℕ → Bool
in_calendar d t = leb d last_date && ltb t ((last_date + 1) * day_us)

-- `for _ in range(rounds)`: the first candidate that passes.
unfoldable pub first_day : (ℕ → Bool) → (ℕ → ℕ) → ℕ → ℕ → ℕ → Option ℕ
first_day test cand step zero d = none
first_day test cand step (suc rounds) d =
    let rest = first_day test cand step rounds (d + step) in
    if in_calendar d (cand d) then (if test d then some (cand d) else rest) else none

abbrev pub weekday_ok : Repeat → ℕ → Bool
weekday_ok Repeat.weekdays d = is_weekday d
weekday_ok _ d = true

abbrev pub step_of : Repeat → ℕ
step_of Repeat.weekly = 7
step_of _ = 1

-- The date at which the search begins: the start or the day before `after`, and for a weekly
-- series the start's weekday at or before that.
abbrev pub first_date : Repeat → ℕ → ℕ → ℕ
first_date Repeat.weekly start after = start + (max start (after - 1) - start) / 7 * 7
first_date _ start after = max start (after - 1)

unfoldable pub next_by_days : Zone → ℕ → Repeat → ℕ → Option ℕ
unfolding first_day
next_by_days z due_at repeat after =
    let start = to_local z due_at in
    let cand = λ (d : ℕ). instant z start.fold d start.wall in
    first_day (λ d. weekday_ok repeat d && is_after due_at after (cand d)) cand (step_of repeat) 800
      (first_date repeat start.ordinal (to_local z after).ordinal)

-- The candidate of a month: the anchor day, or the month's last day.
abbrev pub anchored : ℕ → ℕ → ℕ → ℕ
anchored anchor y m = ordinal y m (min anchor (days_in_month y m))

unfoldable pub first_month : (ℕ → Bool) → (ℕ → ℕ) → ℕ → ℕ → ℕ → ℕ → Option ℕ
first_month test cand anchor zero y m = none
first_month test cand anchor (suc rounds) y m =
    let (y', m') = add_months y m 1 in
    let rest = first_month test cand anchor rounds y' m' in
    let d = anchored anchor y m in
    if in_calendar d (cand d) then (if test d then some (cand d) else rest) else none

-- `anchor_day or start.day`
abbrev pub anchor_of : Option ℕ → ℕ → ℕ
anchor_of none day = day
anchor_of (some n) day = if n == 0 then day else n

unfoldable pub next_monthly : Zone → ℕ → ℕ → Option ℕ → Option ℕ
unfolding first_month
next_monthly z due_at after anchor_day =
    let start = to_local z due_at in
    let from = from_ordinal start.ordinal in
    let to = from_ordinal (to_local z after).ordinal in
    let cand = λ (d : ℕ). instant z start.fold d start.wall in
    let months = to.year * 12 + to.month - (from.year * 12 + from.month) in
    let (y, m) = add_months from.year from.month (months - 1) in
    first_month (λ d. is_after due_at after (cand d)) cand (anchor_of anchor_day from.day) 30 y m

unfoldable pub next_occurrence : Zone → ℕ → Repeat → ℕ → Option ℕ → Option ℕ
unfolding next_by_days next_monthly
next_occurrence z due_at Repeat.monthly after anchor_day = next_monthly z due_at after anchor_day
next_occurrence z due_at repeat after anchor_day = next_by_days z due_at repeat after
