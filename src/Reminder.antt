-- ===== src/Reminder.antt =====
-- The `reminders` table and its functions: agent/db.py, from `create_reminder` to `cancel_reminder`.
-- An instant is a number of microseconds; `db_now` is the database's `now()`, which differs from
-- the `now` that the caller reads. A transaction is a function on the store.

pub mod Lifecycle
pub mod Runs
pub mod Claims
use evi.Common.{
  ◌*◌, ℕ, suc, ◌+◌, String, Bool, true, false, not, ◌&&◌, ◌||◌, Option, none, some, List, [], ◌∷◌,
  ◌++◌, map, ltb, leb, ◌==◌, str_eq, if◌then◌else◌, get_or, take, contains, select, update, any,
  find?, sort,
}
use evi.Common.Int.{ℤ}

pub data Status : Type 0 where
  pending firing sent done cancelled failed : Status

abbrev pub same_status : Status → Status → Bool
same_status Status.pending Status.pending = true
same_status Status.firing Status.firing = true
same_status Status.sent Status.sent = true
same_status Status.done Status.done = true
same_status Status.cancelled Status.cancelled = true
same_status Status.failed Status.failed = true
same_status _ _ = false

-- `REPEATS` of agent/services/reminders.py
pub data Repeat : Type 0 where
  daily weekdays weekly monthly : Repeat

pub record Reminder : Type 0 where
  pub id : ℕ
  pub text : String
  pub due_at : ℕ
  pub repeat : Option Repeat
  pub status : Status
  pub chat_id : String
  pub created_from : String
  pub created_at : ℕ
  pub claimed_at : Option ℕ
  pub fired_at : Option ℕ
  pub drift_s : Option ℤ
  pub anchor_day : Option ℕ
  pub snooze_until : Option ℕ

-- A row of `reminder_fires`.
pub record Fire : Type 0 where
  pub reminder_id : ℕ
  pub due_at : ℕ
  pub fired_at : ℕ
  pub drift_s : ℤ

pub record Store : Type 0 where
  pub reminders : List Reminder
  pub fires : List Fire
  pub next_id : ℕ

-- `_EFFECTIVE`: COALESCE(snooze_until, due_at)
abbrev pub effective : Reminder → ℕ
effective r = get_or r.snooze_until r.due_at

-- `status = ANY(…)`
abbrev pub status_in : List Status → Reminder → Bool
status_in [] r = false
status_in (s ∷ ss) r = same_status r.status s || status_in ss r

-- `%s::text IS NULL OR chat_id = %s`
abbrev pub owned_by : Option String → Reminder → Bool
owned_by none r = true
owned_by (some chat) r = str_eq r.chat_id chat

abbrev is_monthly : Option Repeat → Bool
is_monthly (some Repeat.monthly) = true
is_monthly _ = false

abbrev pub is_recurring : Reminder → Bool
is_recurring r = elim r.repeat [ none ↦ false | some k ↦ true ]

-- `local_day` is the day of the month of an instant in EVI_TIMEZONE.
unfoldable pub create_reminder :
    (ℕ → ℕ) → String → ℕ → Option Repeat → String → String → Option ℕ → ℕ → Store → Store × ℕ
create_reminder local_day text due_at repeat chat_id created_from anchor_day db_now s =
    let anchor = if is_monthly repeat then some (get_or anchor_day (local_day due_at)) else none in
    (
      record s {
        reminders =
            s.reminders
            ++ record {
              id = s.next_id;
              text = text;
              due_at = due_at;
              repeat = repeat;
              status = Status.pending;
              chat_id = chat_id;
              created_from = created_from;
              created_at = db_now;
              claimed_at = none;
              fired_at = none;
              drift_s = none;
              anchor_day = anchor;
              snooze_until = none;
            }
              ∷ [];
        next_id = suc s.next_id;
      },
      s.next_id,
    )

unfoldable pub get_reminder : ℕ → Store → Option Reminder
get_reminder id s = find? (λ r. r.id == id) s.reminders

abbrev pub by_effective : Reminder → Reminder → Bool
by_effective a b = ltb (effective a) (effective b)

-- by (effective, id)
abbrev pub by_effective_id : Reminder → Reminder → Bool
by_effective_id a b =
    ltb (effective a) (effective b) || (effective a == effective b && ltb a.id b.id)

unfoldable pub list_reminders : Option String → List Status → ℕ → Store → List Reminder
list_reminders chat_id statuses limit s =
    take limit
      (sort by_effective_id (select (λ r. status_in statuses r && owned_by chat_id r) s.reminders))

abbrev pub is_due : ℕ → Reminder → Bool
is_due now r = same_status r.status Status.pending && leb (effective r) now

abbrev ids : List Reminder → List ℕ
ids = map (λ r. r.id)

-- The subselect of `claim_due`; `locked` are the rows that other transactions hold, which
-- SKIP LOCKED passes over.
unfoldable pub due_ids : (ℕ → Bool) → ℕ → ℕ → List Reminder → List ℕ
due_ids locked now limit rows =
    ids (take limit (sort by_effective (select (λ r. is_due now r && not (locked r.id)) rows)))

abbrev pub claim_row : ℕ → Reminder → Reminder
claim_row db_now r = record r { status = Status.firing; claimed_at = some db_now }

unfoldable pub claim_due : (ℕ → Bool) → ℕ → ℕ → ℕ → Store → Store × List Reminder
claim_due locked db_now now limit s =
    let chosen = due_ids locked now limit s.reminders in
    let is_chosen = λ (r : Reminder). contains r.id chosen in
    let rows = update is_chosen (claim_row db_now) s.reminders in
    (record s { reminders = rows }, sort by_effective_id (select is_chosen rows))

-- `WHERE id = %s AND status = 'firing'`
abbrev pub is_firing : ℕ → Reminder → Bool
is_firing id r = r.id == id && same_status r.status Status.firing

abbrev fire_log : ℕ → ℕ → ℤ → List Reminder → List Fire
fire_log id fired_at drift_s rows =
    map
      (λ r. record {
        reminder_id = r.id;
        due_at = effective r;
        fired_at = fired_at;
        drift_s = drift_s;
      })
      (select (λ r. r.id == id) rows)

unfoldable pub log_reminder_fire : ℕ → ℕ → ℤ → Store → Store
log_reminder_fire id fired_at drift_s s = record s {
  fires = s.fires ++ fire_log id fired_at drift_s s.reminders;
}

abbrev pub finish_row : ℕ → ℤ → Option ℕ → Reminder → Reminder
finish_row fired_at drift_s none r = record r {
  status = Status.sent;
  snooze_until = none;
  fired_at = some fired_at;
  drift_s = some drift_s;
}
finish_row fired_at drift_s (some next_due_at) r = record r {
  status = Status.pending;
  due_at = next_due_at;
  snooze_until = none;
  fired_at = some fired_at;
  drift_s = some drift_s;
}

unfoldable pub finish_fired : ℕ → ℕ → ℤ → Option ℕ → Store → Store × Bool
unfolding log_reminder_fire
finish_fired id fired_at drift_s next_due_at s =
    if any (is_firing id) s.reminders
    then (let logged = log_reminder_fire id fired_at drift_s s in
        (
          record logged {
            reminders = update (is_firing id) (finish_row fired_at drift_s next_due_at) s.reminders;
          },
          true,
        ))
    else (s, false)

unfoldable pub release_reminder : ℕ → Store → Store
release_reminder id s = record s {
  reminders = update (is_firing id) (λ r. record r { status = Status.pending }) s.reminders;
}

unfoldable pub fail_reminder : ℕ → Store → Store
fail_reminder id s = record s {
  reminders = update (is_firing id) (λ r. record r { status = Status.failed }) s.reminders;
}

-- `claimed_at < now() - make_interval(mins => …)`, which NULL fails
abbrev pub is_stuck : ℕ → ℕ → Reminder → Bool
is_stuck db_now minutes r =
    same_status r.status Status.firing
    && elim r.claimed_at [ none ↦ false | some t ↦ ltb (t + minutes * 60000000) db_now ]

unfoldable pub requeue_stuck : ℕ → ℕ → Store → Store
requeue_stuck db_now older_than_minutes s = record s {
  reminders =
      update (is_stuck db_now older_than_minutes) (λ r. record r { status = Status.pending })
        s.reminders;
}

abbrev pub may_leave : ℕ → List Status → Option String → Reminder → Bool
may_leave id from_statuses chat_id r = r.id == id && status_in from_statuses r && owned_by chat_id r

-- `_transition`
unfoldable pub transition : ℕ → Status → List Status → Option String → Store → Store × Bool
transition id new_status from_statuses chat_id s =
    let test = may_leave id from_statuses chat_id in
    (
      record s { reminders = update test (λ r. record r { status = new_status }) s.reminders },
      any test s.reminders,
    )

abbrev pub delivered_or_pending : List Status
delivered_or_pending = Status.sent ∷ Status.pending ∷ []

unfoldable pub snooze_reminder : ℕ → ℕ → Option String → Store → Store × Bool
snooze_reminder id until chat_id s =
    let test = may_leave id delivered_or_pending chat_id in
    (
      record s {
        reminders =
            update test (λ r. record r { status = Status.pending; snooze_until = some until })
              s.reminders;
      },
      any test s.reminders,
    )

abbrev pub open_statuses : List Status
open_statuses = Status.pending ∷ Status.firing ∷ Status.sent ∷ []

pub record Completion : Type 0 where
  pub recurring : Bool
  pub next_due_at : Option ℕ

abbrev pub drop_snooze : ℕ → Reminder → Reminder
drop_snooze db_now r =
    if same_status r.status Status.pending && ltb db_now r.due_at
    then record r { snooze_until = none }
    else r

unfoldable pub complete_reminder : ℕ → Option String → ℕ → Store → Store × Option Completion
complete_reminder id chat_id db_now s =
    let one_off = λ (r : Reminder). not (is_recurring r) && may_leave id open_statuses chat_id r in
    let series = λ (r : Reminder). is_recurring r && may_leave id open_statuses chat_id r in
    let rows = update series (drop_snooze db_now) s.reminders in
    if any one_off s.reminders
    then (
      record s {
        reminders =
            update one_off (λ r. record r { status = Status.done; snooze_until = none })
              s.reminders;
      },
      some (record { recurring = false; next_due_at = none }),
    )
    else (
      record s { reminders = rows },
      elim (find? series rows) [
        | none ↦ none
        | some r ↦ some (record { recurring = true; next_due_at = some (effective r) })
      ],
    )

unfoldable pub cancel_reminder : ℕ → Option String → Store → Store × Bool
unfolding transition
cancel_reminder id chat_id =
    transition id Status.cancelled (Status.pending ∷ Status.sent ∷ []) chat_id
