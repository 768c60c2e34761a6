-- ===== src/FireDue/Fates.antt =====
-- The fate of one claimed reminder: delivered and closed, delivered and kept for the next tick, or
-- given back.
use evi.Common.{
  ℕ, zero, suc, ◌<◌, ◌≡◌, ◌≢◌, refl, ◌∙◌, Bool, true, false, ◌||◌, Option, none, some, [], ◌∷◌,
  ◌++◌, arith, if◌then◌else◌, if_both, Bool-cases, Option-cases, inl, inr,
}
use evi.Common.Int.{ℤ}
use evi.Common.Keyed.{get-key}
use evi.Calendar.Zone.{Zone}
use evi.Recurrence.Total.{next_occurrence-later}
use evi.Reminder.{
  Reminder, Store, firing, pending, failed, effective, is_due, is_firing, finish_row, finish_fired,
  fail_reminder, release_reminder, is_stuck, requeue_stuck,
}
use evi.Reminder.Lifecycle.{run, row, IsValid, row-update}
use evi.Reminder.Runs.{run-IsValid, keep_finish}
use evi.Reminder.Claims.{finish_firing}
use evi.FireDue.{
  Env, Process, Counts, Pending, is_delivered, is_not_configured, seconds_between, next_or_tomorrow,
  finish_with_retry, finish_attempts, fire_row, format_reminder,
}

-- A reminder that repeats is next due later than the instant at which it fired.
pub next_or_tomorrow-later :
    (z : Zone) (r : Reminder) (fired_at n : ℕ)
    → next_or_tomorrow z r fired_at ≡ some n
    → fired_at < n
unfolding next_or_tomorrow
next_or_tomorrow-later z r fired_at n h = elim (Option-cases r.repeat) [
  | inl e ↦ cc (h, e)
  | inr (k, e) ↦ ground (arith, next_occurrence-later z r.due_at k fired_at r.anchor_day n)
]

pub closed_not_due :
    (z : Zone) (r x : Reminder) (fired_at : ℕ) (drift_s : ℤ)
    → is_due fired_at (finish_row fired_at drift_s (next_or_tomorrow z r fired_at) x) ≡ false
closed_not_due z r x fired_at drift_s =
    go (next_or_tomorrow z r fired_at) (next_or_tomorrow-later z r fired_at)
  where
    go :
        (next : Option ℕ)
        → ((n : ℕ) → next ≡ some n → fired_at < n)
        → is_due fired_at (finish_row fired_at drift_s next x) ≡ false
    go none later = refl
    go (some n) later = ground (arith, later n refl)

-- Whether one of the attempts returns.
abbrev pub some_attempt : (ℕ → Bool) → ℕ → ℕ → Bool
some_attempt works zero attempt = false
some_attempt works (suc left) attempt = works attempt || some_attempt works left (suc attempt)

finish_with_retry_lem :
    (works : ℕ → Bool) (left attempt : ℕ) (p : Pending) (s : Store)
    → finish_with_retry works left attempt p s ≡ (
        if some_attempt works left attempt
        then ((finish_fired p.id p.fired_at p.drift_s p.next_due_at s).0, true)
        else (s, false))
unfolding finish_with_retry
finish_with_retry_lem works zero attempt p s = refl
finish_with_retry_lem works (suc left) attempt p s = elim (Bool-cases (works attempt)) [
  | inl e ↦ rw e
  | inr e ↦ rw e (finish_with_retry_lem works left (suc attempt) p s)
]

pub row-finish :
    (id t : ℕ) (d : ℤ) (next : Option ℕ) (s : Store) (x : Reminder)
    → IsValid s
    → row id s ≡ some x
    → x.status ≡ firing
    → row id (finish_fired id t d next s).0 ≡ some (finish_row t d next x)
row-finish id t d next s x v h f =
    let k = get-key (λ (r : Reminder). r.id) id s.reminders x h in
    let hit : is_firing id x ≡ true = ground arith in
    rw (finish_firing id t d next s x v h f)
      (row-update (is_firing id) (finish_row t d next) (keep_finish t d next) id s x h ∙ rw hit)

-- Giving crashed claims back passes over a row that is not being fired.
pub requeue_passes :
    (db_now i : ℕ) (s : Store) (x : Reminder)
    → row i s ≡ some x
    → x.status ≢ firing
    → row i (requeue_stuck db_now 5 s) ≡ some x
unfolding requeue_stuck
requeue_passes db_now i s x h n =
    let free : is_stuck db_now 5 x ≡ false = ground (arith, n) in
    row-update (is_stuck db_now 5) (λ x. record x { status = pending }) (λ _. refl) i s x h
    ∙ rw free

module _ (env : Env) (r : Reminder) (p : Process) (c : Counts) (v : IsValid p.store) where
  -- The table after what others did during the send.
  abbrev pub meanwhile : Store
  meanwhile = run (env.during r.id) p.store

  abbrev pub delivered : Bool
  delivered = is_delivered (env.send r (format_reminder env.clock r.text (effective r) env.now))

  abbrev pub not_configured_here : Bool
  not_configured_here =
      is_not_configured (env.send r (format_reminder env.clock r.text (effective r) env.now))

  abbrev pub fired : ℕ
  fired = if env.pinned then env.now else env.clock_after r.id

  abbrev pub item : Pending
  item = record {
    id = r.id;
    fired_at = fired;
    drift_s = seconds_between fired (effective r);
    next_due_at = next_or_tomorrow env.clock.zone r fired;
  }

  abbrev pub closed : Reminder → Reminder
  closed = finish_row item.fired_at item.drift_s item.next_due_at

  abbrev pub result : Process
  result = (fire_row env r (p, c)).0

  -- Delivered, and one of the three attempts to close it returns: the row is closed as fired, is not
  -- due any more at the instant of the delivery, and nothing is kept for the next tick.
  pub delivered_closed :
      (x : Reminder)
      → row r.id meanwhile ≡ some x
      → x.status ≡ firing
      → delivered ≡ true
      → some_attempt (env.finish_ok r.id) finish_attempts 0 ≡ true
      → (row r.id result.store ≡ some (closed x))
        × (is_due fired (closed x) ≡ false)
        × (result.pending_finish ≡ p.pending_finish)
  unfolding fire_row
  delivered_closed x h f sent works =
      let retry = finish_with_retry_lem (env.finish_ok r.id) finish_attempts 0 item meanwhile in
      let row' =
        row-finish r.id fired item.drift_s item.next_due_at meanwhile x
          (run-IsValid (env.during r.id) p.store v) h f in
      if_both
        (λ (out : Process × Counts).
          (row r.id out.0.store ≡ some (closed x))
          × (is_due fired (closed x) ≡ false)
          × (out.0.pending_finish ≡ p.pending_finish))
        delivered
        (λ _. rw (retry, works) (row', closed_not_due env.clock.zone r x fired item.drift_s, refl))
        (λ no_send. cc)

  -- Delivered, and no attempt to close it returns: the table stays, and the item is kept.
  pub delivered_kept :
      delivered ≡ true
      → some_attempt (env.finish_ok r.id) finish_attempts 0 ≡ false
      → (result.store ≡ meanwhile) × (result.pending_finish ≡ p.pending_finish ++ item ∷ [])
  unfolding fire_row
  delivered_kept sent fails =
      let retry = finish_with_retry_lem (env.finish_ok r.id) finish_attempts 0 item meanwhile in
      if_both
        (λ (out : Process × Counts).
          (out.0.store ≡ meanwhile) × (out.0.pending_finish ≡ p.pending_finish ++ item ∷ []))
        delivered (λ _. rw (retry, fails) (refl, refl)) (λ no_send. cc)

  -- Not delivered: the row is given back to the next tick, or closed as failed where Telegram is not
  -- configured. All else of it stays.
  pub refused_given_back :
      (x : Reminder)
      → row r.id meanwhile ≡ some x
      → x.status ≡ firing
      → delivered ≡ false
      → env.give_back_ok r.id ≡ true
      → row r.id result.store
        ≡ some (record x { status = if not_configured_here then failed else pending })
  unfolding fire_row fail_reminder release_reminder
  refused_given_back x h f unsent works =
      let k = get-key (λ (r : Reminder). r.id) r.id meanwhile.reminders x h in
      let hit : is_firing r.id x ≡ true = ground arith in
      let back =
        row-update (is_firing r.id) (λ x. record x { status = pending }) (λ _. refl) r.id meanwhile
          x h in
      let lost =
        row-update (is_firing r.id) (λ x. record x { status = failed }) (λ _. refl) r.id meanwhile x
          h in
      if_both
        (λ (out : Process × Counts).
          row r.id out.0.store
          ≡ some (record x { status = if not_configured_here then failed else pending }))
        delivered (λ sent. cc)
        (λ _. rw works (elim (Bool-cases not_configured_here) [
          | inl e ↦ rw e (lost ∙ rw hit)
          | inr e ↦ rw e (back ∙ rw hit)
        ]))
