-- ===== src/ScheduledTask.antt =====
-- The `scheduled_tasks` table and its functions: agent/db.py, from `create_scheduled_task` to
-- `finish_scheduled_task`. A day is a number, as `date.toordinal` gives it.
pub mod Ops
pub mod Caps
pub mod Claims
pub mod Commands
pub mod Resumed
pub mod Served
use evi.Common.{
  ℕ, zero, suc, ◌+◌, String, Bool, true, false, not, ◌&&◌, ◌||◌, Option, none, some, List, [], ◌∷◌,
  ◌++◌, ltb, leb, ◌==◌, if◌then◌else◌, get_or, is_some, take, select, update, any, find?, count,
  sort,
}
use evi.Reminder.{Repeat}

pub record Task : Type 0 where
  pub id : ℕ
  pub title : String
  pub prompt : String
  pub next_at : ℕ
  pub repeat : Option Repeat
  pub active : Bool
  pub created_at : ℕ
  pub last_run_at : Option ℕ
  pub last_status : Option String
  pub runs_day : Option ℕ
  pub runs_today : ℕ
  pub deleted_at : Option ℕ

pub record Tasks : Type 0 where
  pub rows : List Task
  pub next_id : ℕ

-- `deleted_at IS NULL`
abbrev pub is_kept : Task → Bool
is_kept t = not (is_some t.deleted_at)

-- `active AND deleted_at IS NULL`
abbrev pub is_live : Task → Bool
is_live t = t.active && is_kept t

unfoldable pub count_active_scheduled_tasks : Tasks → ℕ
count_active_scheduled_tasks s = count is_live s.rows

-- `max_active is not None and count >= max_active`
abbrev pub is_full : Option ℕ → ℕ → Bool
is_full none n = false
is_full (some cap) n = leb cap n

unfoldable pub create_scheduled_task :
    String → String → ℕ → Option Repeat → Option ℕ → ℕ → Tasks → Tasks × Option ℕ
create_scheduled_task title prompt next_at repeat max_active db_now s =
    if is_full max_active (count is_live s.rows) then (s, none) else (
      record s {
        rows =
            s.rows
            ++ record {
              id = s.next_id;
              title = title;
              prompt = prompt;
              next_at = next_at;
              repeat = repeat;
              active = true;
              created_at = db_now;
              last_run_at = none;
              last_status = none;
              runs_day = none;
              runs_today = 0;
              deleted_at = none;
            }
              ∷ [];
        next_id = suc s.next_id;
      },
      some s.next_id,
    )

unfoldable pub get_scheduled_task : ℕ → Tasks → Option Task
get_scheduled_task id s = find? (λ t. t.id == id && is_kept t) s.rows

abbrev pub by_next : Task → Task → Bool
by_next a b = ltb a.next_at b.next_at || (a.next_at == b.next_at && ltb a.id b.id)

unfoldable pub list_scheduled_tasks : Bool → Tasks → List Task
list_scheduled_tasks active_only s =
    sort by_next (select (λ t. is_kept t && (not active_only || t.active)) s.rows)

abbrev pub kept_row : ℕ → Task → Bool
kept_row id t = t.id == id && is_kept t

unfoldable pub delete_scheduled_task : ℕ → ℕ → Tasks → Tasks × Bool
delete_scheduled_task id db_now s = (
  record s {
    rows = update (kept_row id) (λ t. record t { deleted_at = some db_now; active = false }) s.rows;
  },
  any (kept_row id) s.rows,
)

abbrev pub set_row : Bool → Option ℕ → Task → Task
set_row active next_at t = record t { active = active; next_at = get_or next_at t.next_at }

unfoldable pub set_scheduled_task_active : ℕ → Bool → Option ℕ → Option ℕ → Tasks → Tasks × Bool
set_scheduled_task_active id active next_at max_active s =
    if active && is_full max_active (count (λ t. is_live t && not (t.id == id)) s.rows)
    then (s, false)
    else (
      record s { rows = update (kept_row id) (set_row active next_at) s.rows },
      any (kept_row id) s.rows,
    )

unfoldable pub due_scheduled_tasks : ℕ → ℕ → Tasks → List Task
due_scheduled_tasks now limit s =
    take limit (sort by_next (select (λ t. is_live t && leb t.next_at now) s.rows))

-- `runs_day = %s`, which NULL fails
abbrev pub ran_on : ℕ → Task → Bool
ran_on day t = elim t.runs_day [ none ↦ false | some d ↦ d == day ]

-- SUM(runs_today) … WHERE runs_day = %s
unfoldable pub runs_on : ℕ → List Task → ℕ
runs_on day [] = 0
runs_on day (t ∷ ts) = (if ran_on day t then t.runs_today else 0) + runs_on day ts

unfoldable pub scheduled_runs_on : ℕ → Tasks → ℕ
scheduled_runs_on day s = runs_on day s.rows

-- `id = %s AND active AND next_at = %s`
abbrev pub claimable : ℕ → ℕ → Task → Bool
claimable id expected_next_at t = t.id == id && (t.active && t.next_at == expected_next_at)

abbrev pub claim_row : ℕ → Bool → ℕ → Bool → Task → Task
claim_row new_next_at active day count_run t = record t {
  next_at = new_next_at;
  active = active;
  runs_today = if not count_run then t.runs_today else if ran_on day t then t.runs_today + 1 else 1;
  runs_day = if count_run then some day else t.runs_day;
}

-- RETURNING gives the row as it stands after the update.
unfoldable pub claim_scheduled_task : ℕ → ℕ → ℕ → Bool → ℕ → Bool → Tasks → Tasks × Option Task
claim_scheduled_task id expected_next_at new_next_at active day count_run s =
    let claim = claim_row new_next_at active day count_run in
    (
      record s { rows = update (claimable id expected_next_at) claim s.rows },
      elim (find? (claimable id expected_next_at) s.rows) [ none ↦ none | some t ↦ some (claim t) ],
    )

abbrev pub finished : String → Option ℕ → Task → Task
finished status ran_at t = record t {
  last_status = some status;
  last_run_at = elim ran_at [ none ↦ t.last_run_at | some at ↦ some at ];
}

unfoldable pub finish_scheduled_task : ℕ → String → Option ℕ → Tasks → Tasks
finish_scheduled_task id status ran_at s = record s {
  rows = update (λ t. t.id == id) (finished status ran_at) s.rows;
}
