-- ===== src/ScheduledTask/Commands.antt =====
-- The commands on scheduled tasks: agent/services/scheduled_tasks.py, from `create` to `resume`, with
-- `validate_new` of agent/services/reminders.py. A message to the user is named, and not spelled out.
-- What is done to a text is a parameter, and each call of the database may raise.
use text.Mathlib.Text.{find? as position}
use evi.Common.{
  ℕ, ◌+◌, ◌*◌, String, Bool, true, false, not, ◌&&◌, Option, none, some, List, [], ◌∷◌, ltb, leb,
  ◌==◌, str_eq, if◌then◌else◌, take, select, find?, is_some,
}
use evi.Calendar.Zone.{Zone}
use evi.Reminder.{Repeat}
use evi.Recurrence.{next_occurrence}
use evi.ScheduledTask.{
  Task, Tasks, create_scheduled_task, get_scheduled_task, list_scheduled_tasks,
  delete_scheduled_task, set_scheduled_task_active,
}
use evi.ScheduledTask.Ops.{max_active}

-- `digits` reads the number of a text of digits after its # signs; `title_of` is `derive_title`, and
-- `cut` the first 60 characters.
pub record Wording : Type 0 where
  pub strip : String → String
  pub lower : String → String
  pub digits : String → Option ℕ
  pub title_of : String → String
  pub cut : String → String

-- Whether commands are on, which calls return, and the clocks of the program and the database.
pub record Env : Type 0 where
  pub enabled : Bool
  pub init_ok : Bool
  pub list_ok : Bool
  pub write_ok : Bool
  pub read_ok : Bool
  pub zone : Zone
  pub now : ℕ
  pub db_now : ℕ

pub data Answer : Type 0 where
  disabled : Answer
  empty_prompt : Answer
  empty_text : Answer
  unknown_repeat : Answer
  unreadable_time : Answer
  time_passed : Answer
  too_far : Answer
  limit_reached : Answer
  failed : Answer
  created : ℕ → Answer
  no_reference : Answer
  not_found : Answer
  -- with the first five rows that match
  ambiguous : List Task → Answer
  cancelled : ℕ → Answer
  paused : ℕ → Answer
  already_active : ℕ → Answer
  resumed : ℕ → ℕ → Answer

abbrev pub minute_us : ℕ
minute_us = 60000000

-- 366 days
abbrev pub max_ahead : ℕ
max_ahead = 366 * 86400000000

unfoldable pub repeat_of : String → Option Repeat
repeat_of text =
    if str_eq text "daily"
    then some Repeat.daily
    else if str_eq text "weekdays"
    then some Repeat.weekdays
    else if str_eq text "weekly"
    then some Repeat.weekly
    else if str_eq text "monthly"
    then some Repeat.monthly
    else none

-- `due_at` is the instant that is given or read, none where it cannot be read. The error, or none.
unfoldable pub validate_new : Wording → String → Option ℕ → String → ℕ → Option Answer
unfolding repeat_of
validate_new w text due_at repeat now =
    if str_eq (w.strip text) ""
    then some Answer.empty_text
    else if not (str_eq repeat "") && not (is_some (repeat_of repeat))
    then some Answer.unknown_repeat
    else elim due_at [
      | none ↦ some Answer.unreadable_time
      | some due ↦
          if ltb (due + minute_us) now
          then some Answer.time_passed
          else if ltb (now + max_ahead) due
          then some Answer.too_far
          else none
    ]

-- After the insert: `get_scheduled_task` may raise.
abbrev pub after_insert : Env → Tasks × Option ℕ → Tasks × Option Task × Answer
after_insert env (s, none) = (s, none, Answer.limit_reached)
after_insert env (s, some id) =
    if env.read_ok
    then (s, get_scheduled_task id s, Answer.created id)
    else (s, none, Answer.failed)

unfoldable pub insert_task :
    Wording → Env → String → String → String → ℕ → Tasks → Tasks × Option Task × Answer
unfolding create_scheduled_task repeat_of
insert_task w env prompt repeat title due s =
    if not (env.init_ok && env.write_ok)
    then (s, none, Answer.failed)
    else let short = w.cut (w.strip title) in
      let name = if str_eq short "" then w.title_of prompt else short in
      after_insert env
        (create_scheduled_task name prompt due (repeat_of repeat) (some max_active) env.db_now s)

-- What `validate_new` says, and the time.
abbrev pub after_validation :
    Wording
    → Env
    → String
    → String
    → String
    → Option Answer
    → Option ℕ
    → Tasks
    → Tasks × Option Task × Answer
after_validation w env text rep title (some error) due_at s = (s, none, error)
after_validation w env text rep title none none s = (s, none, Answer.unreadable_time)
after_validation w env text rep title none (some due) s = insert_task w env text rep title due s

unfoldable pub create :
    Wording → Env → String → Option ℕ → String → String → Tasks → Tasks × Option Task × Answer
unfolding validate_new
create w env prompt due_at repeat title s =
    let text = w.strip prompt in
    let rep = w.lower (w.strip repeat) in
    if not env.enabled
    then (s, none, Answer.disabled)
    else if str_eq text ""
    then (s, none, Answer.empty_prompt)
    else after_validation w env text rep title (validate_new w text due_at rep env.now) due_at s

pub data Found : Type 0 where
  task : Task → Found
  error : Answer → Found

abbrev pub one_hit : List Task → Found
one_hit [] = Found.error Answer.not_found
one_hit (t ∷ []) = Found.task t
one_hit (t ∷ u ∷ ts) = Found.error (Answer.ambiguous (take 5 (t ∷ u ∷ ts)))

-- `exact or …`
abbrev pub or_else : List Task → List Task → List Task
or_else [] ys = ys
or_else (x ∷ xs) ys = x ∷ xs

abbrev pub by_title : Wording → String → List Task → Found
by_title w ref rows =
    let low = w.lower ref in
    one_hit (
      or_else (select (λ t. str_eq (w.lower t.title) low) rows)
        (select (λ t. is_some (position (w.lower t.title) low)) rows))

abbrev pub number_hit : Option Task → Found
number_hit none = Found.error Answer.not_found
number_hit (some t) = Found.task t

abbrev pub by_number : ℕ → List Task → Found
by_number want rows = number_hit (find? (λ t. t.id == want) rows)

-- Among the rows that were listed.
abbrev pub by_reference : Wording → String → List Task → Option ℕ → Found
by_reference w ref rows none = by_title w ref rows
by_reference w ref rows (some want) = by_number want rows

unfoldable pub find_in : Wording → String → List Task → Found
find_in w ref rows = by_reference w ref rows (w.digits ref)

-- An exception is caught by the caller, as a failure.
unfoldable pub find : Wording → Env → String → Tasks → Found
unfolding find_in list_scheduled_tasks
find w env id_or_title s =
    let ref = w.strip id_or_title in
    if str_eq ref ""
    then Found.error Answer.no_reference
    else if not (env.init_ok && env.list_ok)
    then Found.error Answer.failed
    else find_in w ref (list_scheduled_tasks false s)

abbrev pub cancel_found : Env → Found → Tasks → Tasks × Bool × Answer
cancel_found env (Found.error e) s = (s, false, e)
cancel_found env (Found.task t) s =
    if env.write_ok
    then ((delete_scheduled_task t.id env.db_now s).0, true, Answer.cancelled t.id)
    else (s, false, Answer.failed)

unfoldable pub cancel : Wording → Env → String → Tasks → Tasks × Bool × Answer
unfolding find
cancel w env ref s =
    if not env.enabled then (s, false, Answer.disabled) else cancel_found env (find w env ref s) s

abbrev pub pause_found : Env → Found → Tasks → Tasks × Bool × Answer
pause_found env (Found.error e) s = (s, false, e)
pause_found env (Found.task t) s =
    if env.write_ok
    then ((set_scheduled_task_active t.id false none none s).0, true, Answer.paused t.id)
    else (s, false, Answer.failed)

unfoldable pub pause : Wording → Env → String → Tasks → Tasks × Bool × Answer
unfolding find
pause w env ref s =
    if not env.enabled then (s, false, Answer.disabled) else pause_found env (find w env ref s) s

-- The time that a task is resumed for.
pub data Resumption : Type 0 where
  at : ℕ → Resumption
  passed : Resumption
  raised : Resumption

abbrev pub from_next : Option ℕ → Resumption
from_next none = Resumption.raised
from_next (some next) = Resumption.at next

abbrev pub from_repeat : Env → Task → Option Repeat → Resumption
from_repeat env t none = Resumption.passed
from_repeat env t (some repeat) = from_next (next_occurrence env.zone t.next_at repeat env.now none)

abbrev pub resumption : Env → Task → Resumption
resumption env t =
    if leb t.next_at env.now then from_repeat env t t.repeat else Resumption.at t.next_at

abbrev pub after_set : ℕ → ℕ → Tasks × Bool → Tasks × Bool × Answer
after_set id next (s, true) = (s, true, Answer.resumed id next)
after_set id next (s, false) = (s, false, Answer.limit_reached)

abbrev pub resume_at : Env → Task → Resumption → Tasks → Tasks × Bool × Answer
resume_at env t Resumption.passed s = (s, false, Answer.time_passed)
resume_at env t Resumption.raised s = (s, false, Answer.failed)
resume_at env t (Resumption.at next) s =
    if env.write_ok
    then after_set t.id next (set_scheduled_task_active t.id true (some next) (some max_active) s)
    else (s, false, Answer.failed)

abbrev pub resume_found : Env → Found → Tasks → Tasks × Bool × Answer
resume_found env (Found.error e) s = (s, false, e)
resume_found env (Found.task t) s =
    if t.active then (s, true, Answer.already_active t.id) else resume_at env t (resumption env t) s

unfoldable pub resume : Wording → Env → String → Tasks → Tasks × Bool × Answer
unfolding find
resume w env ref s =
    if not env.enabled then (s, false, Answer.disabled) else resume_found env (find w env ref s) s
