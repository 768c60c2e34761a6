-- ===== src/FireDue.antt =====
-- The tick of agent/services/reminders.py: `format_reminder`, `_next_after_fire`,
-- `_finish_with_retry`, `_flush_pending_finish` and `fire_due`. What may fail or is read from
-- outside stands in `Env`: which database calls raise, what the send gives, the clocks, and the
-- calls on the table that others make while a reminder is being sent.
pub mod Ticks
pub mod Fates
pub mod Flushed
pub mod Resent
use Prim.Native.String.{◌++◌ as cat}
use evi.Common.{
  ℕ, zero, suc, ◌+◌, ◌-◌, ◌*◌, ◌/◌, ◌≤◌, ◌<◌, String, Bool, true, false, not, ◌&&◌, ◌||◌, Option,
  none, some, List, [], ◌∷◌, ◌++◌, leb, ltb, ◌==◌, if◌then◌else◌, get_or, length, is_some,
}
use evi.Common.Int.{ℤ, pos, negsuc, neg}
use evi.Calendar.Zone.{Zone, Local, to_local, day_us}
use evi.Recurrence.{next_occurrence}
use evi.SendResult.{SendResult, Reason, not_configured}
use evi.Reminder.{
  Reminder, Store, Repeat, effective, claim_due, finish_fired, fail_reminder, release_reminder,
  requeue_stuck,
}
use evi.Reminder.Lifecycle.{Op, run}

-- LATE_AFTER_S
abbrev pub late_after_s : ℕ
late_after_s = 300

-- `int((a - b).total_seconds())`, cut toward zero
unfoldable pub seconds_between : ℕ → ℕ → ℤ
seconds_between a b = if leb b a then pos ((a - b) / 1000000) else neg ((b - a) / 1000000)

abbrev pub is_late : ℤ → Bool
is_late (ℤ.pos n) = ltb late_after_s n
is_late (ℤ.negsuc n) = false

-- `strftime` of a wall clock, as `%H:%M` and as `%d/%m`
pub record Clock : Type 0 where
  pub zone : Zone
  pub hour_minute : Local → String
  pub day_month : Local → String

unfoldable pub format_reminder : Clock → String → ℕ → ℕ → String
format_reminder c text due now =
    let due_l = to_local c.zone due in
    let time = c.hour_minute due_l in
    let when =
      if due_l.ordinal == (to_local c.zone now).ordinal
      then time
      else cat (c.day_month due_l) (cat " " time) in
    if leb now (due + late_after_s * 1000000)
    then cat "⏰ Lembrete: " text
    else cat "⏰ Lembrete (atrasado, era " (cat when (cat "): " text))

-- `_next_after_fire`; the outer `none` is the exception that `next_occurrence` raises
unfoldable pub next_after_fire : Zone → Reminder → ℕ → Option (Option ℕ)
next_after_fire z r fired_at = elim r.repeat [
  | none ↦ some none
  | some repeat ↦
      if is_some r.snooze_until && ltb fired_at r.due_at
      then some (some r.due_at)
      else elim (next_occurrence z r.due_at repeat fired_at r.anchor_day) [
        | none ↦ none
        | some t ↦ some (some t)
      ]
]

-- The `except` branch of `fire_due`: a day later, if the reminder repeats.
unfoldable pub next_or_tomorrow : Zone → Reminder → ℕ → Option ℕ
unfolding next_after_fire
next_or_tomorrow z r fired_at = elim (next_after_fire z r fired_at) [
  | none ↦ elim r.repeat [ none ↦ none | some k ↦ some (fired_at + day_us) ]
  | some next ↦ next
]

-- An item of `_pending_finish`.
pub record Pending : Type 0 where
  pub id : ℕ
  pub fired_at : ℕ
  pub drift_s : ℤ
  pub next_due_at : Option ℕ

pub record Process : Type 0 where
  pub store : Store
  pub pending_finish : List Pending
  pub warned_not_configured : Bool

pub record Counts : Type 0 where
  pub claimed : ℕ
  pub sent : ℕ
  pub failed : ℕ
  pub late : ℕ

pub record Env : Type 0 where
  pub clock : Clock
  pub now : ℕ
  -- whether the caller gave `now`
  pub pinned : Bool
  pub db_now : ℕ
  pub locked : ℕ → Bool
  -- whether the calls of the database return, by item, reminder, or reminder and attempt
  pub flush_ok : Pending → Bool
  pub requeue_ok : Bool
  pub claim_ok : Bool
  pub give_back_ok : ℕ → Bool
  pub finish_ok : ℕ → ℕ → Bool
  -- what `send` gives for a reminder and its text; `none` if it raises
  pub send : Reminder → String → Option SendResult
  -- `now_local()` after the send of a reminder
  pub clock_after : ℕ → ℕ
  -- the calls that others make during the send of a reminder
  pub during : ℕ → List Op

-- `_FINISH_ATTEMPTS`
abbrev pub finish_attempts : ℕ
finish_attempts = 3

-- `_finish_with_retry`, with `left` attempts left; an attempt that returns ends the loop
unfoldable pub finish_with_retry : (ℕ → Bool) → ℕ → ℕ → Pending → Store → Store × Bool
finish_with_retry works zero attempt p s = (s, false)
finish_with_retry works (suc left) attempt p s =
    let rest = finish_with_retry works left (suc attempt) p s in
    if works attempt
    then ((finish_fired p.id p.fired_at p.drift_s p.next_due_at s).0, true)
    else rest

-- `_flush_pending_finish`
unfoldable pub flush_pending_finish : (Pending → Bool) → List Pending → Store → Store × List Pending
flush_pending_finish works [] s = (s, [])
flush_pending_finish works (p ∷ ps) s =
    let finished = (finish_fired p.id p.fired_at p.drift_s p.next_due_at s).0 in
    let (s', kept) = flush_pending_finish works ps (if works p then finished else s) in
    (s', if works p then kept else p ∷ kept)

-- `ok` and `reason` of a send
abbrev pub is_delivered : Option SendResult → Bool
is_delivered none = false
is_delivered (some r) = r.sent

abbrev pub is_not_configured : Option SendResult → Bool
is_not_configured (some (r)) = elim r.reason [ some Reason.not_configured ↦ true | _ ↦ false ]
is_not_configured none = false

-- One claimed row: `eff` is measured against the snooze time, where there is one.
unfoldable pub fire_row : Env → Reminder → Process × Counts → Process × Counts
fire_row env row (p, counts) =
    let scheduled = effective row in
    let outcome = env.send row (format_reminder env.clock row.text scheduled env.now) in
    let s = run (env.during row.id) p.store in
    let fired_at = if env.pinned then env.now else env.clock_after row.id in
    let drift_s = seconds_between fired_at scheduled in
    let item : Pending = record {
      id = row.id;
      fired_at = fired_at;
      drift_s = drift_s;
      next_due_at = next_or_tomorrow env.clock.zone row fired_at;
    } in
    let (finished, done) = finish_with_retry (env.finish_ok row.id) finish_attempts 0 item s in
    if is_delivered outcome
    then (
      record p {
        store = finished;
        pending_finish = if done then p.pending_finish else p.pending_finish ++ item ∷ [];
      },
      record counts {
        sent = suc counts.sent;
        late = if is_late drift_s then suc counts.late else counts.late;
      },
    )
    else (
      record p {
        store =
            if env.give_back_ok row.id
            then (if is_not_configured outcome
                then fail_reminder row.id s
                else release_reminder row.id s)
            else s;
        warned_not_configured = p.warned_not_configured || is_not_configured outcome;
      },
      record counts { failed = suc counts.failed },
    )

unfoldable pub fire_rows : Env → List Reminder → Process × Counts → Process × Counts
fire_rows env [] state = state
fire_rows env (row ∷ rows) state = fire_rows env rows (fire_row env row state)

abbrev pub no_counts : Counts
no_counts = record { claimed = 0; sent = 0; failed = 0; late = 0 }

-- Up to the claim: what was delivered and not closed is closed first, then crashed claims are
-- given back.
unfoldable pub prepare : Env → Process → Process
unfolding flush_pending_finish
prepare env p =
    let (flushed, kept) = flush_pending_finish env.flush_ok p.pending_finish p.store in
    record p {
      store = if env.requeue_ok then requeue_stuck env.db_now 5 flushed else flushed;
      pending_finish = kept;
    }

unfoldable pub fire_due : Env → Process → Process × Counts
unfolding prepare fire_rows
fire_due env p =
    let ready = prepare env p in
    let (s, rows) = claim_due env.locked env.db_now env.now 20 ready.store in
    if env.claim_ok
    then fire_rows env rows (record ready { store = s }, record no_counts { claimed = length rows })
    else (ready, no_counts)
