-- ===== src/Examples/Tasks.antt =====
-- Three scheduled tasks: one due each day, one paused, one deleted.
use evi.Common.{ℕ, ◌+◌, ◌≤◌, ◌≡◌, Bool, true, false, Option, none, some, List, [], ◌∷◌, arith, refl}
use evi.Reminder.{Repeat}
use evi.ScheduledTask.{
  Task, Tasks, create_scheduled_task, claim_scheduled_task, set_scheduled_task_active,
  scheduled_runs_on, count_active_scheduled_tasks,
}
use evi.ScheduledTask.Ops.{Op, apply, run, IsValid, max_active}
use evi.ScheduledTask.Caps.{active_cap}
use evi.Common.{max, length}
use evi.Calendar.Zone.{instant, to_local}
use evi.Recurrence.{next_occurrence}
use evi.ScheduledTask.{due_scheduled_tasks, runs_on}
use evi.Examples.Series.{sao_paulo, at_nine}
use evi.RunDue.{
  State, Env, Event, Job, Outcome, run_due, steps, day_of, max_runs_per_day, take_row, step,
}
use evi.RunDue.Cap.{run_due_cap}
use evi.RunDue.Flight.{outcomes, tick_frees}

abbrev a_task : ℕ → ℕ → Bool → Option ℕ → Task
a_task id next_at active deleted_at = record {
  id = id;
  title = "notas";
  prompt = "minhas notas?";
  next_at = next_at;
  repeat = some Repeat.daily;
  active = active;
  created_at = 0;
  last_run_at = none;
  last_status = none;
  runs_day = some 9;
  runs_today = 2;
  deleted_at = deleted_at;
}

abbrev three_tasks : Tasks
three_tasks = record {
  rows = a_task 1 100 true none ∷ a_task 2 200 false none ∷ a_task 3 300 false (some 50) ∷ [];
  next_id = 4;
}

three_tasks-IsValid : IsValid three_tasks
three_tasks-IsValid = record { unique = ground arith; below = ground arith }

abbrev some_calls : List Op
some_calls = Op.resume 2 150 ∷ Op.create "b" "b?" 400 none 60 ∷ Op.claim 1 100 500 true 9 true ∷ []

three_live : count_active_scheduled_tasks (run some_calls three_tasks) ≡ 3
unfolding count_active_scheduled_tasks run apply claim_scheduled_task create_scheduled_task
    set_scheduled_task_active
three_live = refl

active_cap_example : count_active_scheduled_tasks (run some_calls three_tasks) ≤ max_active
unfolding count_active_scheduled_tasks
active_cap_example = active_cap some_calls three_tasks three_tasks-IsValid (omega arith)

-- A tick on the table: the task of the first row is due, its run fails, and a note is added meanwhile.
abbrev tick : Env
tick = record {
  zone = sao_paulo;
  enabled = true;
  now = at_nine 40;
  fmt = λ t. "amanhã 06:00";
  due_ok = true;
  claim_ok = λ i. true;
  finish_ok = λ i. true;
  meanwhile = λ i. Event.call (Op.create "b" "b?" 400 none 60) ∷ [];
}

abbrev idle : State
idle = record { tasks = three_tasks; inflight = []; queue = []; texts = [] }

abbrev fails : Outcome
fails = record { answer = none; delivered = false; finish_ok = true; at = at_nine 40 }

abbrev running : State
running = record idle { inflight = 1 ∷ []; queue = Job.process_task (a_task 1 100 true none) ∷ [] }

one_started : (run_due tick idle).1.started ≡ 1
unfolding run_due due_scheduled_tasks take_row steps step next_occurrence instant to_local
    claim_scheduled_task apply create_scheduled_task scheduled_runs_on runs_on
one_started = refl

run_due_cap_example :
    let (s', counts) = run_due tick idle in
    let before = scheduled_runs_on (day_of tick) three_tasks in
    let after = scheduled_runs_on (day_of tick) s'.tasks in
    (after ≡ before + counts.started) × (after ≤ max max_runs_per_day before)
run_due_cap_example = run_due_cap tick idle (λ id. (refl, tt)) three_tasks-IsValid

few : length (run_due tick running).0.queue ≤ 4
unfolding run_due due_scheduled_tasks take_row steps step next_occurrence instant to_local
    claim_scheduled_task apply create_scheduled_task scheduled_runs_on runs_on
few = omega arith

tick_frees_example :
    let s' = steps (outcomes (fails ∷ fails ∷ fails ∷ fails ∷ [])) (run_due tick running).0 in
    (s'.inflight ≡ []) × (s'.queue ≡ [])
tick_frees_example = tick_frees tick (fails ∷ fails ∷ fails ∷ fails ∷ []) running (refl, tt) few
