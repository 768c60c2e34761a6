-- ===== src/Recurrence/Days.antt =====
-- Daily, weekday and weekly series: the search ends, and finds the first occurrence.
use mathlib.Core.Option.{some-injective}
use native.Mathlib.Decide.{dec_lt}
use evi.Common.{
  sym, ap, ℕ, zero, suc, ◌+◌, ◌-◌, ◌*◌, ◌/◌, ◌%◌, ◌≤◌, ◌<◌, ◌≡◌, ◌≢◌, refl, ◌∙◌, Bool, true, false,
  ◌&&◌, Option, none, some, arith, ◌⊎◌, inl, inr, Bool-cases, max,
}
use evi.Calendar.{is_weekday}
use evi.Calendar.Zone.{
  Zone, IsZone, to_local, instant, day_us, instant_later, instant_earlier, wall-lt,
}
use evi.Reminder.{Repeat, daily, weekdays, weekly, monthly}
use evi.Recurrence.{in_calendar, is_after, first_day, weekday_ok, step_of, first_date, next_by_days}

-- The parts of a test that passed.
pub accepted :
    (b : Bool) (due_at after t : ℕ)
    → (b && is_after due_at after t) ≡ true
    → (b ≡ true) × (after < t) × (due_at < t)
accepted b due_at after t h = ground arith

-- The first instant of the year 9999. A candidate of a date some months later, at most, lies in the
-- calendar.
abbrev pub year_9999 : ℕ
year_9999 = 3651695 * day_us

pub fits :
    (z : Zone) (t d : ℕ)
    → d ≤ 3652000
    → in_calendar d (instant z (to_local z t).fold d (to_local z t).wall) ≡ true
unfolding instant to_local
fits z t d h = ground arith

pub ordinal_below :
    (z : Zone) → IsZone z → (t : ℕ) → t < year_9999 → (to_local z t).ordinal ≤ 3651695
unfolding to_local
ordinal_below z zone t h = omega (arith, zone.at_le t, zone.least_le)

module _ (test : ℕ → Bool) (cand : ℕ → ℕ) (step : ℕ) where
  zeroth : (d : ℕ) → d ≡ d + 0 * step
  zeroth d = omega arith

  onward : (d k : ℕ) → d + step + k * step ≡ d + suc k * step
  onward d k = grind arith

  -- A date ahead that passes the test, within the rounds, ends the search.
  first_day_total :
      ((e : ℕ) → e ≤ 3652000 → in_calendar e (cand e) ≡ true)
      → (k rounds d : ℕ) → k < rounds
      → d + k * step ≤ 3652000
      → test (d + k * step) ≡ true
      → (t : ℕ) × (first_day test cand step rounds d ≡ some t)
  unfolding first_day
  first_day_total fit k zero d h low e = absurd (omega arith)
  first_day_total fit zero (suc rounds) d h low e =
      let here : test d ≡ true = rw (zeroth d) e in (cand d, rw (fit d (omega (arith, low)), here))
  first_day_total fit (suc k) (suc rounds) d h low e = elim (Bool-cases (test d)) [
    | inl now ↦ (cand d, rw (fit d (below d k low), now))
    | inr later ↦
        rw (fit d (below d k low), later)
          (first_day_total fit k rounds (d + step) (omega arith) (rw (onward d k) low)
            (rw (onward d k) e))
  ]
    where
      below : (d k : ℕ) → d + suc k * step ≤ 3652000 → d ≤ 3652000
      below d k low = grind (arith, low)

  -- What the search finds, and that no round before it passed.
  pub record Found (rounds d t : ℕ) : Type 0 where
    pub round : ℕ
    pub is_cand : t ≡ cand (d + round * step)
    pub passed : test (d + round * step) ≡ true
    pub first : (j : ℕ) → j < round → test (d + j * step) ≡ false

  first_day-Found : (rounds d t : ℕ) → first_day test cand step rounds d ≡ some t → Found rounds d t
  unfolding first_day
  first_day-Found zero d t h = cc
  first_day-Found (suc rounds) d t h = elim (Bool-cases (in_calendar d (cand d))) [
    | inr out ↦
        let none_found : ◌≡◌ {A = Option ℕ} none (some t) = rw out at h in absurd (cc none_found)
    | inl fit ↦ elim (Bool-cases (test d)) [
      | inl now ↦ record {
        round = 0;
        is_cand = sym (some-injective (cand d) t (rw (fit, now) at h)) ∙ ap cand (omega arith);
        passed = rw (← (zeroth d)) now;
        first = λ j k. absurd (omega arith);
      }
      | inr later ↦
          let found = first_day-Found rounds (d + step) t (rw (fit, later) at h) in
          record {
            round = suc found.round;
            is_cand = found.is_cand ∙ ap cand (onward d found.round);
            passed = rw (← (onward d found.round)) found.passed;
            first = elim [
              | zero ↦ λ k. rw (← (zeroth d)) later
              | suc j ↦ λ k. rw (← (onward d j)) (found.first j (omega arith))
            ];
          }
    ]
  ]

module _ (z : Zone) (zone : IsZone z) (due_at after : ℕ) where
  abbrev start : ℕ
  start = (to_local z due_at).ordinal

  abbrev until : ℕ
  until = (to_local z after).ordinal

  abbrev occurs : ℕ → ℕ
  occurs d = instant z (to_local z due_at).fold d (to_local z due_at).wall

  abbrev accepts : Repeat → ℕ → Bool
  accepts repeat d = weekday_ok repeat d && is_after due_at after (occurs d)

  -- The dates of a series.
  abbrev pub InSeries : Repeat → ℕ → Type 0
  InSeries Repeat.weekly d = (start ≤ d) × ((d - start) % 7 ≡ 0)
  InSeries repeat d = (start ≤ d) × (weekday_ok repeat d ≡ true)

  module _ (h : day_us ≤ due_at) (k : day_us ≤ after) where
    passes : (d : ℕ) → start + 2 ≤ d → until + 2 ≤ d → is_after due_at after (occurs d) ≡ true
    passes d p q =
        let later =
          instant_later z zone due_at d (to_local z due_at).wall (to_local z due_at).fold h p in
        let past =
          instant_later z zone after d (to_local z due_at).wall (to_local z due_at).fold k q in
        ground arith

    fails : (d : ℕ) → d + 2 ≤ until → is_after due_at after (occurs d) ≡ false
    fails d p =
        let early =
          instant_earlier z zone after d (to_local z due_at).wall (to_local z due_at).fold k
            (wall-lt z zone due_at) p in
        ground arith

    some_weekday :
        (d : ℕ)
        → (is_weekday (d + 3) ≡ true) ⊎ ((is_weekday (d + 4) ≡ true) ⊎ (is_weekday (d + 5) ≡ true))
    unfolding is_weekday
    some_weekday d = ground arith

    -- The search of a day-based series before the year 9999 ends with an occurrence, within its 800
    -- rounds.
    pub next_by_days_total :
        due_at < year_9999
        → after < year_9999
        → (repeat : Repeat) → repeat ≢ monthly
        → (t : ℕ) × (next_by_days z due_at repeat after ≡ some t)
    unfolding next_by_days
    next_by_days_total p q Repeat.daily _ =
        let a = ordinal_below z zone due_at p in
        let b = ordinal_below z zone after q in
        first_day_total (accepts daily) occurs 1 (fits z due_at) 3 800 (max start (until - 1))
          (omega arith) (omega (arith, a, b))
          (passes (max start (until - 1) + 3) (omega arith) (omega arith))
    next_by_days_total p q Repeat.weekdays _ =
        let a = ordinal_below z zone due_at p in
        let b = ordinal_below z zone after q in
        let d : ℕ = max start (until - 1) in
        elim (some_weekday d) [
          | inl e ↦
              first_day_total (accepts weekdays) occurs 1 (fits z due_at) 3 800 d (omega arith)
                (omega (arith, a, b)) (rw (e, passes (d + 3) (omega arith) (omega arith)))
          | inr (inl e) ↦
              first_day_total (accepts weekdays) occurs 1 (fits z due_at) 4 800 d (omega arith)
                (omega (arith, a, b)) (rw (e, passes (d + 4) (omega arith) (omega arith)))
          | inr (inr e) ↦
              first_day_total (accepts weekdays) occurs 1 (fits z due_at) 5 800 d (omega arith)
                (omega (arith, a, b)) (rw (e, passes (d + 5) (omega arith) (omega arith)))
        ]
    next_by_days_total p q Repeat.weekly _ =
        let a = ordinal_below z zone due_at p in
        let b = ordinal_below z zone after q in
        let d : ℕ = start + (max start (until - 1) - start) / 7 * 7 in
        first_day_total (accepts weekly) occurs 7 (fits z due_at) 2 800 d (omega arith)
          (omega (arith, a, b)) (passes (d + 14) (omega arith) (omega arith))
    next_by_days_total p q Repeat.monthly h = absurd (h refl)

    -- What `next_by_days` returns.
    pub record IsFirst (repeat : Repeat) (t : ℕ) : Type 0 where
      pub date : ℕ
      pub at_date : t ≡ occurs date
      pub in_series : InSeries repeat date
      pub later : after < t
      pub past_start : due_at < t
      pub least : (d : ℕ) → InSeries repeat d → after < occurs d → due_at < occurs d → date ≤ d

    -- A series' dates before the one at which the search begins have passed, and those from it on
    -- are the ones that the rounds visit.
    before_first :
        (repeat : Repeat) (d : ℕ)
        → repeat ≢ monthly
        → InSeries repeat d
        → d < first_date repeat start until
        → d + 2 ≤ until
    before_first Repeat.daily d _ i b = omega arith
    before_first Repeat.weekdays d _ i b = omega arith
    before_first Repeat.weekly d _ i b = omega arith
    before_first Repeat.monthly d n i b = absurd (n refl)

    rounds_visit :
        (repeat : Repeat) (d : ℕ)
        → repeat ≢ monthly
        → InSeries repeat d
        → first_date repeat start until ≤ d
        → (j : ℕ) × (d ≡ first_date repeat start until + j * step_of repeat)
          × (weekday_ok repeat d ≡ true)
    rounds_visit Repeat.daily d _ i b = (d - first_date daily start until, omega arith, refl)
    rounds_visit Repeat.weekdays d _ i b = (d - first_date weekdays start until, omega arith, i.1)
    rounds_visit Repeat.weekly d _ i b =
        ((d - first_date weekly start until) / 7, omega arith, refl)
    rounds_visit Repeat.monthly d n i b = absurd (n refl)

    visits_are_in :
        (repeat : Repeat) (j : ℕ)
        → repeat ≢ monthly
        → weekday_ok repeat (first_date repeat start until + j * step_of repeat) ≡ true
        → InSeries repeat (first_date repeat start until + j * step_of repeat)
    visits_are_in Repeat.daily j _ w = (omega arith, refl)
    visits_are_in Repeat.weekdays j _ w = (omega arith, w)
    visits_are_in Repeat.weekly j _ w = (omega arith, omega arith)
    visits_are_in Repeat.monthly j n w = absurd (n refl)

    fewer_rounds :
        (repeat : Repeat) (d j r : ℕ) → d + j * step_of repeat < d + r * step_of repeat → j < r
    fewer_rounds Repeat.daily d j r h = omega arith
    fewer_rounds Repeat.weekdays d j r h = omega arith
    fewer_rounds Repeat.weekly d j r h = omega arith
    fewer_rounds Repeat.monthly d j r h = omega arith

    none_before :
        (repeat : Repeat) (t d : ℕ)
        → repeat ≢ monthly
        → (f : Found (accepts repeat) occurs (step_of repeat) 800 (first_date repeat start until) t)
        → InSeries repeat d
        → after < occurs d
        → due_at < occurs d
        → ¬ (d < first_date repeat start until + f.round * step_of repeat)
    none_before repeat t d n f i p q early = elim (dec_lt d (first_date repeat start until)) [
      | yes b ↦ let no_hit = fails d (before_first repeat d n i b) in absurd (ground arith)
      | no b ↦
          let (j, at, w) = rounds_visit repeat d n i (omega arith) in
          let miss = f.first j (fewer_rounds repeat _ j f.round (rw at at early)) in
          let missed : accepts repeat d ≡ false = rw at miss in absurd (ground (arith, missed, w))
    ]

    -- What is found is an occurrence of the series after both instants, and the first one.
    pub next_by_days-IsFirst :
        (repeat : Repeat) (t : ℕ)
        → repeat ≢ monthly
        → next_by_days z due_at repeat after ≡ some t
        → IsFirst repeat t
    unfolding next_by_days
    next_by_days-IsFirst repeat t n e =
        let d : ℕ = first_date repeat start until in
        let f = first_day-Found (accepts repeat) occurs (step_of repeat) 800 d t e in
        let date = d + f.round * step_of repeat in
        let parts = accepted (weekday_ok repeat date) due_at after (occurs date) f.passed in
        record {
          date = date;
          at_date = f.is_cand;
          in_series = visits_are_in repeat f.round n parts.0;
          later = rw f.is_cand parts.1;
          past_start = rw f.is_cand parts.2;
          least = λ d' i p q. let never = none_before repeat t d' n f i p q in omega arith;
        }

-- What the search finds lies after both instants, in any zone.
pub next_by_days-later :
    (z : Zone) (due_at : ℕ) (repeat : Repeat) (after t : ℕ)
    → next_by_days z due_at repeat after ≡ some t
    → (after < t) × (due_at < t)
unfolding next_by_days
next_by_days-later z due_at repeat after t e =
    let l = to_local z due_at in
    let cand = λ (d : ℕ). instant z l.fold d l.wall in
    let first = first_date repeat l.ordinal (to_local z after).ordinal in
    let f =
      first_day-Found (λ d. weekday_ok repeat d && is_after due_at after (cand d)) cand
        (step_of repeat) 800 first t e in
    let date = first + f.round * step_of repeat in
    let parts = accepted (weekday_ok repeat date) due_at after (cand date) f.passed in
    rw f.is_cand (parts.1, parts.2)
