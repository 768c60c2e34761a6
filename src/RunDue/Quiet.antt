-- ===== src/RunDue/Quiet.antt =====
-- What others do during a tick, claims apart, leaves the runs of a day as they are.
use evi.Common.{
  String, ℕ, ◌+◌, ◌≡◌, refl, ◌∙◌, Bool, true, false, not, ◌&&◌, Option, none, some, List, [], ◌∷◌,
  ◌++◌, arith, All, if_both, Bool-cases, inl, inr, count, ◌==◌, update,
}
use evi.ScheduledTask.{
  Task, Tasks, is_live, is_full, kept_row, set_row, finished, runs_on, create_scheduled_task,
  delete_scheduled_task, set_scheduled_task_active, finish_scheduled_task,
}
use evi.ScheduledTask.Ops.{Op, apply, IsValid, apply-IsValid, max_active}
use evi.RunDue.{
  State, Env, Event, Job, Outcome, process, settle, work, step, steps, finish, discard,
}

-- An event that is no claim: only the tick claims tasks.
abbrev pub is_quiet : Event → Bool
is_quiet (Event.call (Op.claim id expected next active day count_run)) = false
is_quiet _ = true

abbrev pub Quiet : Env → Type 0
Quiet env = (id : ℕ) → All (λ e. is_quiet e ≡ true) (env.meanwhile id)

runs_on-append :
    (day : ℕ) (ts us : List Task) → runs_on day (ts ++ us) ≡ runs_on day ts + runs_on day us
unfolding runs_on
runs_on-append day [] us = omega arith
runs_on-append day (t ∷ ts) us = omega (arith, runs_on-append day ts us)

module _ (p : Task → Bool) (f : Task → Task) where
  runs_on-update :
      (day : ℕ) (ts : List Task)
      → ((t : Task) → ((f t).runs_day ≡ t.runs_day) × ((f t).runs_today ≡ t.runs_today))
      → runs_on day (update p f ts) ≡ runs_on day ts
  unfolding runs_on
  runs_on-update day [] h = refl
  runs_on-update day (t ∷ ts) h = elim (Bool-cases (p t)) [
    | inl e ↦ rw (e, (h t).0, (h t).1, runs_on-update day ts h) refl
    | inr e ↦ rw (e, runs_on-update day ts h) refl
  ]

call_runs :
    (day : ℕ) (op : Op) (s : Tasks)
    → is_quiet (Event.call op) ≡ true
    → runs_on day (apply op s).rows ≡ runs_on day s.rows
unfolding apply create_scheduled_task delete_scheduled_task set_scheduled_task_active
    finish_scheduled_task runs_on
call_runs day (Op.create title prompt next_at repeat db_now) s h =
    if_both (λ (out : Tasks × Option ℕ). runs_on day out.0.rows ≡ runs_on day s.rows)
      (is_full (some max_active) (count is_live s.rows)) (λ _. refl)
      (λ _. omega (arith, runs_on-append day s.rows _))
call_runs day (Op.delete id db_now) s h =
    runs_on-update (kept_row id) (λ t. record t { deleted_at = some db_now; active = false }) day
      s.rows (λ t. (refl, refl))
call_runs day (Op.pause id) s h =
    runs_on-update (kept_row id) (set_row false none) day s.rows (λ t. (refl, refl))
call_runs day (Op.resume id next_at) s h =
    if_both (λ (out : Tasks × Bool). runs_on day out.0.rows ≡ runs_on day s.rows)
      (is_full (some max_active) (count (λ t. is_live t && not (t.id == id)) s.rows)) (λ _. refl)
      (λ _.
        runs_on-update (kept_row id) (set_row true (some next_at)) day s.rows (λ t. (refl, refl)))
call_runs day (Op.claim id expected next active day' count_run) s h = ground arith
call_runs day (Op.finish id status ran_at) s h =
    runs_on-update (λ t. t.id == id) (finished status ran_at) day s.rows (λ t. (refl, refl))

-- What a quiet event keeps of the table.
pub record Kept (day : ℕ) (before after : Tasks) : Type 0 where
  pub valid : IsValid before → IsValid after
  pub runs : runs_on day after.rows ≡ runs_on day before.rows

call-Kept :
    (day : ℕ) (op : Op) (s : Tasks) → is_quiet (Event.call op) ≡ true → Kept day s (apply op s)
call-Kept day op s h = record { valid = apply-IsValid op s; runs = call_runs day op s h }

pub finish-Kept :
    (day : ℕ) (ok : Bool) (id : ℕ) (status : String) (ran_at : Option ℕ) (s : State)
    → Kept day s.tasks (finish ok id status ran_at s).tasks
unfolding finish apply
finish-Kept day ok id status ran_at s =
    if_both (λ t. Kept day s.tasks t) ok
      (λ _. call-Kept day (Op.finish id status ran_at) s.tasks refl)
      (λ _. record { valid = λ v. v; runs = refl })

settle-Kept :
    (day : ℕ) (o : Outcome) (t : Task) (a : Option String) (s : State)
    → Kept day s.tasks (settle o t a s).0.tasks
unfolding settle finish
settle-Kept day o t none s = finish-Kept day o.finish_ok t.id "error" none s
settle-Kept day o t (some a) s = finish-Kept day o.finish_ok t.id _ (some o.at) s

work-Kept :
    (day : ℕ) (o : Outcome) (jobs : List Job) (s : State)
    → s.queue ≡ jobs
    → Kept day s.tasks (work o s).tasks
unfolding work process discard settle finish
work-Kept day o [] s e = rw e (record { valid = λ v. v; runs = refl })
work-Kept day o (Job.process_task t ∷ jobs) s e =
    rw e (settle-Kept day o t o.answer (record s { queue = jobs }))
work-Kept day o (Job.notify text ∷ jobs) s e = rw e (record { valid = λ v. v; runs = refl })

step-Kept :
    (day : ℕ) (e : Event) (s : State) → is_quiet e ≡ true → Kept day s.tasks (step e s).tasks
unfolding step
step-Kept day (Event.call op) s h = call-Kept day op s.tasks h
step-Kept day (Event.worker o) s h = work-Kept day o s.queue s refl

pub steps-Kept :
    (day : ℕ) (es : List Event) (s : State)
    → All (λ e. is_quiet e ≡ true) es
    → Kept day s.tasks (steps es s).tasks
unfolding steps
steps-Kept day [] s h = record { valid = λ v. v; runs = refl }
steps-Kept day (e ∷ es) s h =
    let one = step-Kept day e s h.0 in
    let rest = steps-Kept day es (step e s) h.1 in
    record { valid = λ v. rest.valid (one.valid v); runs = rest.runs ∙ one.runs }
