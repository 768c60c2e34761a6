-- ===== src/RunDue/Flight.antt =====
-- The set of runs in flight: what stands in it has a job in the queue, which takes it out.
use evi.Common.{
  ℕ, ◌-◌, ◌≤◌, ◌≡◌, refl, Bool, true, false, not, ◌&&◌, Option, none, some, List, [], ◌∷◌, ◌++◌,
  String, arith, All, All-select, All-map_imp, All-both, select, select-meets, length, leb, if_both,
  Option-cases, inl, inr, ◌==◌, contains, find?,
}
use evi.ScheduledTask.{Task, Tasks, claimable, claim_row, claim_scheduled_task, due_scheduled_tasks}
use evi.RunDue.{
  State, Env, Event, Job, Outcome, Tick, Counts, process, settle, work, step, steps, day_of,
  next_run, first_tick, claim_run, after_claim, take_row, take_rows, run_due, finish, discard,
  max_runs_per_day,
}

-- The tasks that have a run in the queue.
abbrev pub job_ids : List Job → List ℕ
job_ids [] = []
job_ids (Job.process_task t ∷ jobs) = t.id ∷ job_ids jobs
job_ids (Job.notify text ∷ jobs) = job_ids jobs

-- Every run in flight stands in the queue.
abbrev pub Tracked : State → Type 0
Tracked s = All (λ id. contains id (job_ids s.queue) ≡ true) s.inflight

contains-job :
    (id : ℕ) (jobs : List Job) (job : Job)
    → contains id (job_ids jobs) ≡ true
    → contains id (job_ids (jobs ++ job ∷ [])) ≡ true
contains-job id [] job h = ground arith
contains-job id (Job.process_task t ∷ jobs) job h = ground (arith, contains-job id jobs job)
contains-job id (Job.notify text ∷ jobs) job h = contains-job id jobs job h

contains_added :
    (jobs : List Job) (t : Task) → contains t.id (job_ids (jobs ++ Job.process_task t ∷ [])) ≡ true
contains_added [] t = ground arith
contains_added (Job.process_task u ∷ jobs) t = ground (arith, contains_added jobs t)
contains_added (Job.notify text ∷ jobs) t = contains_added jobs t

-- The head of the queue leaves, and its id the set.
discard-Tracked :
    (id : ℕ) (jobs : List Job) (inflight : List ℕ)
    → All (λ n. contains n (id ∷ job_ids jobs) ≡ true) inflight
    → All (λ n. contains n (job_ids jobs) ≡ true) (select (λ n. not (n == id)) inflight)
discard-Tracked id jobs inflight h =
    All-both (λ n a b. ground arith) (select (λ n. not (n == id)) inflight)
      (All-select (λ n. contains n (id ∷ job_ids jobs) ≡ true) (λ n. not (n == id)) inflight h)
      (select-meets (λ n. not (n == id)) inflight)

settle_inflight :
    (o : Outcome) (t : Task) (a : Option String) (s : State)
    → ((settle o t a s).0.inflight ≡ s.inflight) × ((settle o t a s).0.queue ≡ s.queue)
unfolding settle finish
settle_inflight o t none s = (refl, refl)
settle_inflight o t (some a) s = (refl, refl)

work-Tracked :
    (o : Outcome) (jobs : List Job) (s : State)
    → Tracked (record s { queue = jobs })
    → Tracked (work o (record s { queue = jobs }))
unfolding work process discard
work-Tracked o [] s h = h
work-Tracked o (Job.process_task t ∷ jobs) s h =
    let same = settle_inflight o t o.answer (record s { queue = jobs }) in
    rw (same.0, same.1) (discard-Tracked t.id jobs s.inflight h)
work-Tracked o (Job.notify text ∷ jobs) s h = h

step-Tracked : (e : Event) (s : State) → Tracked s → Tracked (step e s)
unfolding step
step-Tracked (Event.call op) s h = h
step-Tracked (Event.worker o) s h = work-Tracked o s.queue s h

steps-Tracked : (es : List Event) (s : State) → Tracked s → Tracked (steps es s)
unfolding steps
steps-Tracked [] s h = h
steps-Tracked (e ∷ es) s h = steps-Tracked es (step e s) (step-Tracked e s h)

find?_id :
    (id expected : ℕ) (ts : List Task) (t : Task)
    → find? (claimable id expected) ts ≡ some t
    → t.id ≡ id
find?_id id expected [] t h = ground arith
find?_id id expected (u ∷ us) t h = ground (arith, find?_id id expected us t)

-- A claimed row has the id of the task that was claimed.
abbrev Named : ℕ → Option (Task × ℕ) → Type 0
Named id none = Unit
Named id (some (c, at)) = c.id ≡ id

claimed-Named :
    (id at next : ℕ) (active : Bool) (day : ℕ) (count_run : Bool) (found : Option Task)
    → ((t : Task) → found ≡ some t → t.id ≡ id)
    → let claimed : Option Task = elim found [
      | none ↦ none
      | some t ↦ some (claim_row next active day count_run t)
    ] in
      Named id (elim claimed [ none ↦ none | some c ↦ some (c, at) ])
claimed-Named id at next active day count_run none h = tt
claimed-Named id at next active day count_run (some t) h = h t refl

claim_run-Named :
    (env : Env) (t : Task) (over : Bool) (s : Tasks) → Named t.id (claim_run env t over s).1
unfolding claim_run claim_scheduled_task
claim_run-Named env t over s = elim (Option-cases (next_run env t over)) [
  | inl e ↦ rw (e, claim_run) tt
  | inr ((at, active), e) ↦
      rw (e, claim_run)
        (if_both (λ (out : Tasks × Option (Task × ℕ)). Named t.id out.1) (env.claim_ok t.id)
          (λ _.
            claimed-Named t.id at at active (day_of env) (not over)
              (find? (claimable t.id t.next_at) s.rows) (λ u. find?_id t.id t.next_at s.rows u))
          (λ _. tt))
]

left-Tracked :
    (id : ℕ) (s : State)
    → Tracked s
    → Tracked (discard id (record s { inflight = id ∷ s.inflight }))
unfolding discard
left-Tracked id s h =
    discard-Tracked id s.queue (id ∷ s.inflight)
      (ground arith, All-map_imp (λ n c. ground arith) s.inflight h)

queued-Tracked :
    (job : Job) (s : State) → Tracked s → Tracked (record s { queue = s.queue ++ job ∷ [] })
queued-Tracked job s h = All-map_imp (λ n c. contains-job n s.queue job c) s.inflight h

after_claim-Tracked :
    (env : Env) (t : Task) (over : Bool) (out : Option (Task × ℕ)) (s : State) (k : Tick)
    → Tracked s
    → Named t.id out
    → Tracked (after_claim env t over out (record s { inflight = t.id ∷ s.inflight }) k).state
unfolding after_claim finish
after_claim-Tracked env t over none s k h same = left-Tracked t.id s h
after_claim-Tracked env t true (some (c, at)) s k h same =
    queued-Tracked (Job.notify _) (discard t.id (record s { inflight = t.id ∷ s.inflight }))
      (left-Tracked t.id s h)
after_claim-Tracked env t false (some (c, at)) s k h same =
    let run : Task = record c { next_at = t.next_at } in
    let there = contains_added s.queue run in
    (rw (← same) there, queued-Tracked (Job.process_task run) s h)

take_rows-Tracked :
    (env : Env) (ts : List Task) (k : Tick) → Tracked k.state → Tracked (take_rows env ts k).state
unfolding take_rows take_row
take_rows-Tracked env [] k h = h
take_rows-Tracked env (t ∷ ts) k h =
    let s = steps (env.meanwhile t.id) k.state in
    let before = steps-Tracked (env.meanwhile t.id) k.state h in
    let over = leb max_runs_per_day k.used in
    let (tasks, claimed) = claim_run env t over s.tasks in
    take_rows-Tracked env ts (take_row env t k) (
      if_both (λ (out : Tick). Tracked out.state) (contains t.id s.inflight) (λ _. before)
        (λ _.
          after_claim-Tracked env t over claimed (record s { tasks = tasks }) k before
            (claim_run-Named env t over s.tasks)))

-- A tick keeps every run in flight in the queue, whatever raises and whatever others do meanwhile.
run_due-Tracked : (env : Env) (s : State) → Tracked s → Tracked (run_due env s).0
unfolding run_due
run_due-Tracked env s h =
    if_both (λ (out : State × Counts). Tracked out.0) (env.enabled && env.due_ok)
      (λ _. take_rows-Tracked env (due_scheduled_tasks env.now 20 s.tasks) (first_tick env s) h)
      (λ _. h)

length-work :
    (o : Outcome) (jobs : List Job) (s : State)
    → length (work o (record s { queue = jobs })).queue ≤ length jobs - 1
unfolding work process discard
length-work o [] s = omega arith
length-work o (Job.process_task t ∷ jobs) s =
    let same = settle_inflight o t o.answer (record s { queue = jobs }) in rw same.1 (omega arith)
length-work o (Job.notify text ∷ jobs) s = omega arith

-- The worker's steps alone.
abbrev pub outcomes : List Outcome → List Event
outcomes [] = []
outcomes (o ∷ os) = Event.worker o ∷ outcomes os

none_left :
    (jobs : List Job) (inflight : List ℕ)
    → length jobs ≤ 0
    → All (λ id. contains id (job_ids jobs) ≡ true) inflight
    → (inflight ≡ []) × (jobs ≡ [])
none_left [] [] l h = (refl, refl)
none_left [] (n ∷ ns) l h = ground (arith, h.0)
none_left (j ∷ jobs) ns l h = ground arith

worker_frees :
    (os : List Outcome) (s : State)
    → Tracked s
    → length s.queue ≤ length os
    → let s' = steps (outcomes os) s in (s'.inflight ≡ []) × (s'.queue ≡ [])
unfolding steps step
worker_frees [] s h l = none_left s.queue s.inflight l h
worker_frees (o ∷ os) s h l =
    worker_frees os (work o s) (work-Tracked o s.queue s h)
      (omega (arith, length-work o s.queue s, l))

-- From a state in which every run in flight stands in the queue, after a tick, whatever raises in it and
-- whatever others do meanwhile, a worker that ends as many jobs as the queue then holds leaves no job and
-- no run in flight, whatever the runs, the sends and the database give.
pub tick_frees :
    (env : Env) (os : List Outcome) (s : State)
    → Tracked s
    → length (run_due env s).0.queue ≤ length os
    → let s' = steps (outcomes os) (run_due env s).0 in (s'.inflight ≡ []) × (s'.queue ≡ [])
tick_frees env os s h l = worker_frees os (run_due env s).0 (run_due-Tracked env s h) l
