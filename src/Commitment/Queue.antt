-- ===== src/Commitment/Queue.antt =====
-- The evaluation queue of agent/db.py, in which the row is the queue: from `list_promises_to_evaluate`
-- to `finish_pending_promise`.
use evi.Common.{
  ℕ, ◌+◌, ◌*◌, String, Bool, true, false, not, ◌&&◌, ◌||◌, Option, none, some, List, ltb, leb, ◌==◌,
  str_eq, if◌then◌else◌, get_or, is_some, take, select, update, any, count, sort, coalesce,
}
use evi.Commitment.{
  Status, Commitment, Commitments, is_pending, is_waiting, is_task, is_promise, is_past, is_open,
  pending, undated, done,
}

-- `next_eval_at <= now`, which NULL fails
abbrev pub is_due : ℕ → Commitment → Bool
is_due now r = elim r.next_eval_at [ none ↦ false | some t ↦ leb t now ]

-- ORDER BY next_eval_at, id
abbrev pub eval_before : Commitment → Commitment → Bool
eval_before a b = elim a.next_eval_at [
  | none ↦ false
  | some t ↦ elim b.next_eval_at [ none ↦ true | some u ↦ ltb t u || (t == u && ltb a.id b.id) ]
]

abbrev pub by_id : Commitment → Commitment → Bool
by_id a b = ltb a.id b.id

abbrev pub promise_waits : Commitment → Bool
promise_waits r = is_waiting r.status && not (is_task r.kind)

abbrev pub task_waits : Commitment → Bool
task_waits r = is_waiting r.status && is_task r.kind

unfoldable pub list_promises_to_evaluate : ℕ → ℕ → Commitments → List Commitment
list_promises_to_evaluate now limit s =
    take limit (sort eval_before (select (λ r. promise_waits r && is_due now r) s.rows))

-- COALESCE(msg_ts, created_at)
abbrev pub age_from : Commitment → ℕ
age_from r = get_or r.msg_ts r.created_at

unfoldable pub list_stale_needs_eval : ℕ → ℕ → Commitments → List Commitment
list_stale_needs_eval cutoff limit s =
    take limit (sort by_id (select (λ r. promise_waits r && ltb (age_from r) cutoff) s.rows))

unfoldable pub list_tasks_to_evaluate : ℕ → ℕ → Commitments → List Commitment
list_tasks_to_evaluate now limit s =
    take limit (sort eval_before (select (λ r. task_waits r && is_due now r) s.rows))

unfoldable pub list_stale_task_evals : ℕ → ℕ → Commitments → List Commitment
list_stale_task_evals cutoff limit s =
    take limit (sort by_id (select (λ r. task_waits r && ltb (age_from r) cutoff) s.rows))

-- `id = %s AND status = 'needs_eval'`
abbrev pub waits : ℕ → Commitment → Bool
waits id r = r.id == id && is_waiting r.status

-- What an evaluation gives: the new status, a title and a due date where there is one.
pub record Verdict : Type 0 where
  pub status : Status
  pub title : Option String
  pub due_date : Option ℕ
  pub clear_due : Bool
  pub clear_event : Bool
  pub confirmed_via : Option String

abbrev pub evaluated : Verdict → Commitment → Commitment
evaluated v r = record r {
  status = v.status;
  title = get_or v.title r.title;
  due_date = if v.clear_due then none else coalesce v.due_date r.due_date;
  event_date = if v.clear_event then none else r.event_date;
  confirmed_via = coalesce v.confirmed_via r.confirmed_via;
  next_eval_at = none;
}

unfoldable pub finish_promise_evaluation : ℕ → Verdict → Commitments → Commitments × Bool
finish_promise_evaluation id v s =
    (record s { rows = update (waits id) (evaluated v) s.rows }, any (waits id) s.rows)

abbrev pub unless_past : ℕ → Option ℕ → Option ℕ
unless_past today d = if is_past today d then none else d

abbrev pub released : ℕ → Commitment → Commitment
released today r = record r {
  status = pending;
  next_eval_at = none;
  due_date = unless_past today r.due_date;
}

-- `today` is the day that the caller gives, or CURRENT_DATE.
unfoldable pub release_needs_eval : ℕ → Commitments → Commitments × ℕ
release_needs_eval today s =
    (record s { rows = update promise_waits (released today) s.rows }, count promise_waits s.rows)

-- `event_date IS NULL OR event_date < today`, and the same of the other date
abbrev pub has_no_date : ℕ → Commitment → Bool
has_no_date today r =
    not (is_some (unless_past today r.event_date)) && not (is_some (unless_past today r.due_date))

abbrev pub released_task : Bool → ℕ → Commitment → Commitment
released_task reply_debts today r = record r {
  event_date = unless_past today r.event_date;
  due_date = unless_past today r.due_date;
  next_eval_at = none;
  status = if reply_debts && has_no_date today r then undated else pending;
}

unfoldable pub release_needs_eval_tasks : Bool → ℕ → Commitments → Commitments × ℕ
release_needs_eval_tasks reply_debts today s = (
  record s { rows = update task_waits (released_task reply_debts today) s.rows },
  count task_waits s.rows,
)

abbrev pub bumped : ℕ → Commitment → Commitment
bumped at r = record r { next_eval_at = some at; eval_attempts = r.eval_attempts + 1 }

unfoldable pub bump_promise_eval : ℕ → ℕ → Commitments → Commitments × Bool
bump_promise_eval id at s =
    (record s { rows = update (waits id) (bumped at) s.rows }, any (waits id) s.rows)

abbrev pub day_us : ℕ
day_us = 86400000000

abbrev pub hour_us : ℕ
hour_us = 3600000000

unfoldable pub list_promises_to_sweep : ℕ → ℕ → ℕ → ℕ → Commitments → List Commitment
list_promises_to_sweep now limit max_age_days min_gap_hours s = take limit (
    sort by_id (
      select
        (λ r.
          (is_pending r.status && is_promise r.kind)
          && str_eq r.source "whatsapp_from_me"
          && elim r.source_chat [ none ↦ false | some chat ↦ not (str_eq chat "") ]
          && leb now (r.created_at + max_age_days * day_us)
          && elim r.last_swept_at [ none ↦ true | some t ↦ ltb (t + min_gap_hours * hour_us) now ])
        s.rows))

unfoldable pub mark_promise_swept : ℕ → ℕ → Commitments → Commitments × Bool
mark_promise_swept id ts s = (
  record s { rows = update (λ r. r.id == id) (λ r. record r { last_swept_at = some ts }) s.rows },
  any (λ r. r.id == id) s.rows,
)

abbrev pub done_by_sweep : Commitment → Commitment
done_by_sweep r = record r { status = done; confirmed_via = some "auto-sweep" }

unfoldable pub mark_promise_done_by_sweep : ℕ → Commitments → Commitments × Bool
mark_promise_done_by_sweep id s =
    (record s { rows = update (is_open id) done_by_sweep s.rows }, any (is_open id) s.rows)

unfoldable pub list_pending_promises : ℕ → Commitments → List Commitment
list_pending_promises limit s =
    take limit (sort by_id (select (λ r. is_pending r.status && is_promise r.kind) s.rows))

-- `id = %s AND status = 'pending' AND type = 'promise'`
abbrev pub is_open_promise : ℕ → Commitment → Bool
is_open_promise id r = is_open id r && is_promise r.kind

abbrev pub redated : Option String → Option ℕ → Bool → Commitment → Commitment
redated title due_date clear_due r = record r {
  title = get_or title r.title;
  due_date = if clear_due then none else coalesce due_date r.due_date;
}

unfoldable pub update_pending_promise :
    ℕ → Option String → Option ℕ → Bool → Commitments → Commitments × Bool
update_pending_promise id title due_date clear_due s = (
  record s { rows = update (is_open_promise id) (redated title due_date clear_due) s.rows },
  any (is_open_promise id) s.rows,
)

abbrev pub finished : Status → String → Commitment → Commitment
finished status via r = record r { status = status; confirmed_via = some via }

unfoldable pub finish_pending_promise : ℕ → Status → String → Commitments → Commitments × Bool
finish_pending_promise id status via s = (
  record s { rows = update (is_open_promise id) (finished status via) s.rows },
  any (is_open_promise id) s.rows,
)
