-- ===== src/Recurrence/Monthly.antt =====
-- Monthly series: the search ends within its 30 rounds, on the anchor day or the month's last day.
use native.Mathlib.Nat.{zero-add, suc-add}
use mathlib.Core.Option.{some-injective}
use native.Mathlib.Decide.{dec_lt}
use evi.Common.{
  ℕ, zero, suc, ◌+◌, ◌-◌, ◌*◌, ◌/◌, ◌%◌, ◌≤◌, ◌<◌, ◌≡◌, refl, sym, Bool, true, false, Option, none,
  some, arith, inl, inr, min, max, Bool-cases,
}
use evi.Calendar.{
  days_before_year, days_before, is_leap, days_in, days_in_month, month_start, ordinal, add_months,
  from_ordinal, Date,
}
use evi.Calendar.Months.{days_in_month_bounds, month_start-next, IsDateOf, from_ordinal-IsDateOf}
use evi.Calendar.Zone.{
  Zone, IsZone, to_local, instant, day_us, instant_later, instant_earlier, wall-lt, ordinal_pos,
}
use evi.Recurrence.Days.{accepted, fits, ordinal_below, year_9999}
use evi.Recurrence.{in_calendar, is_after, anchored, anchor_of, first_month, next_monthly}

-- Months by number: month `m` of year `y` is number 12 * y + m - 1.
starts : ℕ → ℕ
starts i = month_start (i / 12) (i % 12 + 1)

add_one_month :
    (i : ℕ)
    → ((add_months (i / 12) (i % 12 + 1) 1).0 ≡ suc i / 12)
      × ((add_months (i / 12) (i % 12 + 1) 1).1 ≡ suc i % 12 + 1)
unfolding add_months
add_one_month i = omega arith

starts_step : (i : ℕ) → 12 ≤ i → starts (suc i) ≡ starts i + days_in_month (i / 12) (i % 12 + 1)
unfolding starts
starts_step i h =
    rw (← (add_one_month i).0, ← (add_one_month i).1)
      (month_start-next (i / 12) (i % 12 + 1) (omega arith) (omega arith) (omega arith))

-- k months are from 28 to 31 days each.
starts_bounds :
    (i k : ℕ) → 12 ≤ i → (starts i + k * 28 ≤ starts (k + i)) × (starts (k + i) ≤ starts i + k * 31)
starts_bounds i zero h = rw zero-add (omega arith)
starts_bounds i (suc k) h = rw suc-add (
    omega (
      arith,
      starts_bounds i k h,
      starts_step (k + i) (omega arith),
      days_in_month_bounds ((k + i) / 12) ((k + i) % 12 + 1),
    ))

module _ (test : ℕ → Bool) (cand : ℕ → ℕ) (anchor bound : ℕ) where
  first_month_total :
      ((i : ℕ) → 12 ≤ i → bound ≤ starts i → test (anchored anchor (i / 12) (i % 12 + 1)) ≡ true)
      → ((i : ℕ)
          → 12 ≤ i
          → i ≤ 119995
          → in_calendar
              (anchored anchor (i / 12) (i % 12 + 1))
              (cand (anchored anchor (i / 12) (i % 12 + 1)))
            ≡ true)
      → (k rounds i : ℕ) → k < rounds
      → 12 ≤ i
      → k + i ≤ 119995
      → bound ≤ starts (k + i)
      → (t : ℕ) × (first_month test cand anchor rounds (i / 12) (i % 12 + 1) ≡ some t)
  unfolding first_month
  first_month_total pass fit k zero i h y low b = absurd (omega arith)
  first_month_total pass fit zero (suc rounds) i h y low b =
      let hit = pass i y (rw zero-add at b) in
      (cand (anchored anchor (i / 12) (i % 12 + 1)), rw (fit i y (omega (arith, low)), hit))
  first_month_total pass fit (suc k) (suc rounds) i h y low b =
      elim (Bool-cases (test (anchored anchor (i / 12) (i % 12 + 1)))) [
        | inl e ↦
            (cand (anchored anchor (i / 12) (i % 12 + 1)), rw (fit i y (omega (arith, low)), e))
        | inr e ↦
            rw (fit i y (omega (arith, low)), e, (add_one_month i).0, (add_one_month i).1)
              (first_month_total pass fit k rounds (suc i) (omega arith) (omega arith)
                (omega (arith, low)) (rw (let z : k + suc i ≡ suc k + i = omega arith in z) b))
      ]

module _ (test : ℕ → Bool) (cand : ℕ → ℕ) (anchor : ℕ) where
  abbrev day_of : ℕ → ℕ
  day_of i = anchored anchor (i / 12) (i % 12 + 1)

  -- What the search finds from month `i` on, and that no month before it passed.
  pub record Found (i t : ℕ) : Type 0 where
    pub number : ℕ
    pub from_start : i ≤ number
    pub is_cand : t ≡ cand (day_of number)
    pub passed : test (day_of number) ≡ true
    pub first : (j : ℕ) → i ≤ j → j < number → test (day_of j) ≡ false

  first_month-Found :
      (rounds i t : ℕ)
      → first_month test cand anchor rounds (i / 12) (i % 12 + 1) ≡ some t
      → Found i t
  unfolding first_month
  first_month-Found zero i t h = cc
  first_month-Found (suc rounds) i t h =
      elim (Bool-cases (in_calendar (day_of i) (cand (day_of i)))) [
        | inr out ↦
            let none_found : ◌≡◌ {A = Option ℕ} none (some t) = rw out at h in
            absurd (cc none_found)
        | inl fit ↦ elim (Bool-cases (test (day_of i))) [
          | inl e ↦ record {
            number = i;
            from_start = omega arith;
            is_cand = sym (some-injective (cand (day_of i)) t (rw (fit, e) at h));
            passed = e;
            first = λ j p q. absurd (omega arith);
          }
          | inr e ↦
              let found =
                first_month-Found rounds (suc i) t
                  (rw (fit, e, (add_one_month i).0, (add_one_month i).1) at h) in
              record {
                number = found.number;
                from_start = omega (arith, found.from_start);
                is_cand = found.is_cand;
                passed = found.passed;
                first = λ j p q. elim (dec_lt i j) [
                  | yes later ↦ found.first j later q
                  | no same ↦ let z : i ≡ j = omega arith in rw z at e
                ];
              }
        ]
      ]

starts_mono : (a b : ℕ) → 12 ≤ a → a ≤ b → starts a ≤ starts b
starts_mono a b h k =
    let e : b - a + a ≡ b = omega arith in
    let step : starts a ≤ starts (b - a + a) = omega (arith, starts_bounds a (b - a) h) in
    rw e at step

abbrev number : Date → ℕ
number d = d.year * 12 + (d.month - 1)

starts-number : (n : ℕ) (d : Date) → IsDateOf n d → starts (number d) + d.day ≡ n
unfolding starts ordinal
starts-number n d v =
    let y : number d / 12 ≡ d.year = omega (arith, v.month_pos, v.month_le) in
    let m : number d % 12 + 1 ≡ d.month = omega (arith, v.month_pos, v.month_le) in rw (y, m) v.same

-- The number of the month at which the search begins.
abbrev begins : Date → Date → ℕ
begins f t = number f + (t.year * 12 + t.month - (f.year * 12 + f.month) - 1)

number-ge : (n : ℕ) (d : Date) → IsDateOf n d → (m : ℕ) → 12 ≤ number d + m
number-ge n d v m = omega (arith, v.year_pos)

-- Three months on, every day lies after both dates.
three_months :
    (f t : Date) (s u : ℕ) → IsDateOf s f → IsDateOf u t → max s u + 1 ≤ starts (3 + begins f t)
three_months f t s u vf vt =
    let from_first =
      starts_mono (number f) (begins f t) (omega (arith, vf.year_pos)) (omega arith) in
    let to_next =
      starts_mono (number t) (1 + begins f t) (omega (arith, vt.year_pos))
        (omega (arith, vf.month_pos, vt.month_pos, vf.year_pos)) in
    let far = starts_bounds (begins f t) 3 (omega (arith, vf.year_pos)) in
    let near = starts_bounds (begins f t) 1 (omega (arith, vf.year_pos)) in
    let df = days_in_month_bounds f.year f.month in
    let dt = days_in_month_bounds t.year t.month in
    omega (arith, starts-number s f vf, starts-number u t vt, vf.day_le, vt.day_le)

-- April and August of the year 9999.
april_9999 : starts 119991 ≡ 3651784
unfolding starts month_start days_before_year days_before is_leap days_in
april_9999 = refl

august_9999 : starts 119995 ≡ 3651906
unfolding starts month_start days_before_year days_before is_leap days_in
august_9999 = refl

-- A date that is not past the first one of the year 9999 lies before its April.
before_april : (n : ℕ) (d : Date) → IsDateOf n d → n ≤ 3651695 → number d ≤ 119990
before_april n d v low = elim (dec_lt 119990 (number d)) [
  | no early ↦ omega arith
  | yes late ↦ absurd (
      omega (
        arith,
        starts_mono 119991 (number d) (omega arith) (omega arith),
        starts-number n d v,
        april_9999,
        v.day_pos,
      ))
]

begins_by_april :
    (f t : Date) (s u : ℕ)
    → IsDateOf s f
    → IsDateOf u t
    → s ≤ 3651695
    → u ≤ 3651695
    → 3 + begins f t ≤ 119995
begins_by_april f t s u vf vt p q = omega (
  arith,
  before_april s f vf p,
  before_april u t vt q,
  vf.month_pos,
  vt.month_pos,
  vf.year_pos,
  vt.year_pos,
)

-- A day of a month up to August 9999.
day_by_august :
    (anchor i : ℕ) → 12 ≤ i → i ≤ 119995 → anchored anchor (i / 12) (i % 12 + 1) ≤ 3652000
unfolding ordinal
day_by_august anchor i h k =
    let same : starts i ≡ month_start (i / 12) (i % 12 + 1) = unfold starts in refl in
    omega (
      arith,
      starts_mono i 119995 h k,
      august_9999,
      days_in_month_bounds (i / 12) (i % 12 + 1),
      same,
    )

-- In a month before the one at which the search begins, every day lies two days or more before the
-- date from which the occurrence is wanted.
days_before_end :
    (f t : Date) (s u n anchor : ℕ)
    → IsDateOf s f
    → IsDateOf u t
    → number f ≤ n
    → n < begins f t
    → month_start (n / 12) (n % 12 + 1) + min anchor (days_in_month (n / 12) (n % 12 + 1)) + 2 ≤ u
days_before_end f t s u n anchor vf vt p q =
    let e : number t ≡ suc (begins f t) =
      omega (arith, vf.year_pos, vt.year_pos, vf.month_pos, vt.month_pos) in
    let year : 12 ≤ n = omega (arith, vf.year_pos) in
    let next = starts_step n year in
    let until_begin = starts_mono (suc n) (begins f t) (omega arith) (omega arith) in
    let end = starts_step (begins f t) (omega arith) in
    let last = days_in_month_bounds (begins f t / 12) (begins f t % 12 + 1) in
    let u_date : starts (suc (begins f t)) + t.day ≡ u = rw e at (starts-number u t vt) in
    let same : starts n ≡ month_start (n / 12) (n % 12 + 1) = unfold starts in refl in
    omega (arith, vt.day_pos)

after_both : (x y t : ℕ) → x < t → y < t → is_after x y t ≡ true
after_both x y t p q = ground arith

anchor_pos : (anchor : Option ℕ) (day : ℕ) → 1 ≤ day → 1 ≤ anchor_of anchor day
anchor_pos none day h = h
anchor_pos (some n) day h = ground arith

module _ (z : Zone) (zone : IsZone z) (due_at after : ℕ) (h : 3 * day_us ≤ due_at)
    (k : 3 * day_us ≤ after) (anchor_day : Option ℕ) where
  abbrev from : Date
  from = from_ordinal (to_local z due_at).ordinal

  abbrev to : Date
  to = from_ordinal (to_local z after).ordinal

  from-IsDateOf : IsDateOf (to_local z due_at).ordinal from
  from-IsDateOf = from_ordinal-IsDateOf _ (omega (arith, ordinal_pos z zone due_at h))

  to-IsDateOf : IsDateOf (to_local z after).ordinal to
  to-IsDateOf = from_ordinal-IsDateOf _ (omega (arith, ordinal_pos z zone after k))

  abbrev anchor : ℕ
  anchor = anchor_of anchor_day from.day

  abbrev begin : ℕ
  begin = begins from to

  abbrev bound : ℕ
  bound = max (to_local z due_at).ordinal (to_local z after).ordinal + 1

  abbrev occurs : ℕ → ℕ
  occurs d = instant z (to_local z due_at).fold d (to_local z due_at).wall

  -- A month that starts after both instants has its occurrence after both.
  month_passes :
      (i : ℕ)
      → bound ≤ starts i
      → is_after due_at after (occurs (anchored anchor (i / 12) (i % 12 + 1))) ≡ true
  unfolding starts ordinal
  month_passes i b =
      let d = anchored anchor (i / 12) (i % 12 + 1) in
      let w = (to_local z due_at).wall in
      let f = (to_local z due_at).fold in
      let a = anchor_pos anchor_day from.day from-IsDateOf.day_pos in
      let m = days_in_month_bounds (i / 12) (i % 12 + 1) in
      let p = instant_later z zone due_at d w f (omega arith) (omega arith) in
      let q = instant_later z zone after d w f (omega arith) (omega arith) in
      after_both due_at after (occurs d) p q

  -- The search of a monthly series before the year 9999 ends with an occurrence, within its 30 rounds.
  pub next_monthly_total :
      due_at < year_9999
      → after < year_9999
      → (t : ℕ) × (next_monthly z due_at after anchor_day ≡ some t)
  unfolding next_monthly add_months
  next_monthly_total p q =
      let due_low = ordinal_below z zone due_at p in
      let after_low = ordinal_below z zone after q in
      first_month_total (λ d. is_after due_at after (occurs d)) occurs anchor bound
        (λ i y b. month_passes i b)
        (λ i y low.
          fits z due_at (anchored anchor (i / 12) (i % 12 + 1)) (day_by_august anchor i y low))
        3 30 begin (omega arith) (number-ge _ from from-IsDateOf _)
        (begins_by_april from to _ _ from-IsDateOf to-IsDateOf due_low after_low)
        (three_months from to _ _ from-IsDateOf to-IsDateOf)

  -- What `next_monthly` returns: the occurrence of the first month, from the start's on, whose
  -- occurrence lies after both instants.
  pub record IsFirst (t : ℕ) : Type 0 where
    pub month : ℕ
    pub from_start : number from ≤ month
    pub at_month : t ≡ occurs (anchored anchor (month / 12) (month % 12 + 1))
    pub later : after < t
    pub past_start : due_at < t
    pub least :
        (n : ℕ)
        → number from ≤ n
        → after < occurs (anchored anchor (n / 12) (n % 12 + 1))
        → due_at < occurs (anchored anchor (n / 12) (n % 12 + 1))
        → month ≤ n

  earlier_fails :
      (n : ℕ) → number from ≤ n → n < begin → occurs (anchored anchor (n / 12) (n % 12 + 1)) ≤ after
  unfolding ordinal
  earlier_fails n p q =
      let d = anchored anchor (n / 12) (n % 12 + 1) in
      instant_earlier z zone after d (to_local z due_at).wall (to_local z due_at).fold (omega arith)
        (wall-lt z zone due_at) (days_before_end from to _ _ n anchor from-IsDateOf to-IsDateOf p q)

  none_before :
      (n : ℕ)
      → {t : ℕ} → (f : Found (λ d. is_after due_at after (occurs d)) occurs anchor begin t)
      → number from ≤ n
      → after < occurs (anchored anchor (n / 12) (n % 12 + 1))
      → due_at < occurs (anchored anchor (n / 12) (n % 12 + 1))
      → f.number ≤ n
  none_before n f p a b = elim (dec_lt n f.number) [
    | no late ↦ omega arith
    | yes early ↦ elim (dec_lt n begin) [
      | yes before ↦ absurd (omega (arith, earlier_fails n p before))
      | no visited ↦
          let d = anchored anchor (n / 12) (n % 12 + 1) in
          let hit : is_after due_at after (occurs d) ≡ true =
            after_both due_at after (occurs d) b a in
          let miss : is_after due_at after (occurs d) ≡ false = f.first n (omega arith) early in cc
    ]
  ]

  pub next_monthly-IsFirst : (t : ℕ) → next_monthly z due_at after anchor_day ≡ some t → IsFirst t
  unfolding next_monthly add_months
  next_monthly-IsFirst t e =
      let found =
        first_month-Found (λ d. is_after due_at after (occurs d)) occurs anchor 30 begin t e in
      let parts =
        accepted true due_at after
          (occurs (anchored anchor (found.number / 12) (found.number % 12 + 1))) found.passed in
      record {
        month = found.number;
        from_start = omega (arith, found.from_start);
        at_month = found.is_cand;
        later = rw found.is_cand parts.1;
        past_start = rw found.is_cand parts.2;
        least = λ n p a b. none_before n found p a b;
      }

-- What the search finds lies after both instants, in any zone.
pub next_monthly-later :
    (z : Zone) (due_at after : ℕ) (anchor_day : Option ℕ) (t : ℕ)
    → next_monthly z due_at after anchor_day ≡ some t
    → (after < t) × (due_at < t)
unfolding next_monthly add_months
next_monthly-later z due_at after anchor_day t e =
    let l = to_local z due_at in
    let cand = λ (d : ℕ). instant z l.fold d l.wall in
    let f = from_ordinal l.ordinal in
    let anchor = anchor_of anchor_day f.day in
    let found =
      first_month-Found (λ d. is_after due_at after (cand d)) cand anchor 30
        (begins f (from_ordinal (to_local z after).ordinal)) t e in
    let d = anchored anchor (found.number / 12) (found.number % 12 + 1) in
    let parts = accepted true due_at after (cand d) found.passed in
    rw found.is_cand (parts.1, parts.2)
