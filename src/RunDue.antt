-- ===== src/RunDue.antt =====
-- The tick of agent/services/scheduled_tasks.py: `run_due`, the executor's queue of one worker,
-- `_process`, `_finish` and `_notify`. Before each row others may act: a call on the table, or a step
-- of the worker. A call of the database that raises has no effect.
pub mod Quiet
pub mod Cap
pub mod Flight
use Prim.Native.String.{◌++◌ as cat}
use evi.Common.{
  ℕ, zero, suc, ◌+◌, String, Bool, true, false, not, ◌&&◌, ◌||◌, Option, none, some, List, [], ◌∷◌,
  ◌++◌, leb, ◌==◌, if◌then◌else◌, is_some, contains, select, length,
}
use evi.Calendar.Zone.{Zone, Local, to_local}
use evi.Recurrence.{next_occurrence}
use evi.Reminder.{Repeat}
use evi.ScheduledTask.{
  Task, Tasks, due_scheduled_tasks, scheduled_runs_on, claim_scheduled_task, finish_scheduled_task,
}
use evi.ScheduledTask.Ops.{Op, apply}

-- MAX_RUNS_PER_DAY
abbrev pub max_runs_per_day : ℕ
max_runs_per_day = 6

-- What stands in the executor's queue: `_process` of a claimed task, or `_notify` of a text.
pub data Job : Type 0 where
  process_task : Task → Job
  notify : String → Job

-- `texts` are those handed to `send`, the last one first.
pub record State : Type 0 where
  pub tasks : Tasks
  pub inflight : List ℕ
  pub queue : List Job
  pub texts : List String

-- What a run meets: the answer, `none` if the runner raises or runs out of time, whether the send
-- returns a true value, whether the database records the end, and the clock then.
pub record Outcome : Type 0 where
  pub answer : Option String
  pub delivered : Bool
  pub finish_ok : Bool
  pub at : ℕ

unfoldable pub discard : ℕ → State → State
discard id s = record s { inflight = select (λ n. not (n == id)) s.inflight }

unfoldable pub finish : Bool → ℕ → String → Option ℕ → State → State
finish ok id status ran_at s = record s {
  tasks = if ok then finish_scheduled_task id status ran_at s.tasks else s.tasks;
}

abbrev pub failure_text : Task → String
failure_text t =
    cat "Não consegui rodar '"
      (cat t.title (cat "' agora" (if is_some t.repeat then "; tento na próxima." else ".")))

abbrev pub answer_text : Task → String → String
answer_text t answer = cat "🗓 " (cat t.title (cat "\n" answer))

abbrev pub say : String → State → State
say text s = record s { texts = text ∷ s.texts }

-- The body of `_process` for an answer, or for a runner that raised.
unfoldable pub settle : Outcome → Task → Option String → State → State × String
settle o t none s = (say (failure_text t) (finish o.finish_ok t.id "error" none s), "error")
settle o t (some answer) s =
    let status = if o.delivered then "ok" else "send_failed" in
    (finish o.finish_ok t.id status (some o.at) (say (answer_text t answer) s), status)

-- `_process`; the id leaves the set of runs in flight whatever happened.
unfoldable pub process : Outcome → Task → State → State × String
process o t s = let (s', status) = settle o t o.answer s in (discard t.id s', status)

-- The worker takes the first job of the queue.
unfoldable pub work : Outcome → State → State
unfolding process
work o s = elim s.queue [
  | [] ↦ s
  | process_task t ∷ jobs ↦ (process o t (record s { queue = jobs })).0
  | notify text ∷ jobs ↦ say text (record s { queue = jobs })
]

pub data Event : Type 0 where
  call : Op → Event
  worker : Outcome → Event

unfoldable pub step : Event → State → State
step (call op) s = record s { tasks = apply op s.tasks }
step (worker o) s = work o s

unfoldable pub steps : List Event → State → State
steps [] s = s
steps (e ∷ es) s = steps es (step e s)

pub record Env : Type 0 where
  pub zone : Zone
  pub enabled : Bool
  pub now : ℕ
  -- `_fmt` of an instant
  pub fmt : ℕ → String
  -- whether the reads at the start, the claim of a task and the end of a capped one return
  pub due_ok : Bool
  pub claim_ok : ℕ → Bool
  pub finish_ok : ℕ → Bool
  -- what happens before the row of a task is taken
  pub meanwhile : ℕ → List Event

pub record Counts : Type 0 where
  pub due : ℕ
  pub started : ℕ
  pub capped : ℕ
  pub skipped : ℕ

-- `_local_day(now)`
abbrev pub day_of : Env → ℕ
day_of env = (to_local env.zone env.now).ordinal

-- The next time and whether the task stays active; `none` where `next_occurrence` raises.
unfoldable pub next_run : Env → Task → Bool → Option (ℕ × Bool)
next_run env t over =
    let next : Repeat → Option (ℕ × Bool) = λ repeat.
      elim (next_occurrence env.zone t.next_at repeat env.now none) [
        | none ↦ none
        | some at ↦ some (at, true)
      ] in
    elim t.repeat [
      | some repeat ↦ next repeat
      | none ↦ if over then next Repeat.daily else some (t.next_at, false)
    ]

-- The claim of a row, with the next time that was computed.
unfoldable pub claim_run : Env → Task → Bool → Tasks → Tasks × Option (Task × ℕ)
unfolding next_run
claim_run env t over s = elim (next_run env t over) [
  | none ↦ (s, none)
  | some (at, active) ↦
      let (s', claimed) = claim_scheduled_task t.id t.next_at at active (day_of env) (not over) s in
      if env.claim_ok t.id
      then (s', elim claimed [ none ↦ none | some c ↦ some (c, at) ])
      else (s, none)
]

abbrev pub cap_text : Env → Task → ℕ → String
cap_text env t at =
    cat "Hoje já rodaram 6 tarefas agendadas (o limite diário); '"
      (cat t.title (cat "' fica para " (cat (env.fmt at) ".")))

-- The state, the runs of the day so far, and the counts.
pub record Tick : Type 0 where
  pub state : State
  pub used : ℕ
  pub counts : Counts

abbrev pub skip : State → Tick → Tick
skip s k = record k { state = s; counts = record k.counts { skipped = suc k.counts.skipped } }

abbrev pub enqueue : Job → State → State
enqueue job s = record s { queue = s.queue ++ job ∷ [] }

-- After a claim; a capped task leaves the runs in flight at once.
unfoldable pub after_claim : Env → Task → Bool → Option (Task × ℕ) → State → Tick → Tick
after_claim env t over none s k = skip (discard t.id s) k
after_claim env t over (some (claimed, at)) s k =
    if over
    then record k {
      state =
          enqueue (notify (cap_text env t at))
            (finish (env.finish_ok t.id) t.id "capped" none (discard t.id s));
      counts = record k.counts { capped = suc k.counts.capped };
    }
    else record k {
      state = enqueue (process_task (record claimed { next_at = t.next_at })) s;
      used = suc k.used;
      counts = record k.counts { started = suc k.counts.started };
    }

-- One row of the loop.
unfoldable pub take_row : Env → Task → Tick → Tick
unfolding claim_run after_claim
take_row env t k =
    let s = steps (env.meanwhile t.id) k.state in
    let over = leb max_runs_per_day k.used in
    let (tasks, claimed) = claim_run env t over s.tasks in
    if contains t.id s.inflight
    then skip s k
    else after_claim env t over claimed (record s { tasks = tasks; inflight = t.id ∷ s.inflight }) k

unfoldable pub take_rows : Env → List Task → Tick → Tick
take_rows env [] k = k
take_rows env (t ∷ ts) k = take_rows env ts (take_row env t k)

abbrev pub no_counts : Counts
no_counts = record { due = 0; started = 0; capped = 0; skipped = 0 }

-- What the tick reads before it takes the first row.
abbrev pub first_tick : Env → State → Tick
first_tick env s = record {
  state = s;
  used = scheduled_runs_on (day_of env) s.tasks;
  counts = record no_counts { due = length (due_scheduled_tasks env.now 20 s.tasks) };
}

unfoldable pub run_due : Env → State → State × Counts
unfolding take_rows
run_due env s =
    let k = take_rows env (due_scheduled_tasks env.now 20 s.tasks) (first_tick env s) in
    if env.enabled && env.due_ok then (k.state, k.counts) else (s, no_counts)
