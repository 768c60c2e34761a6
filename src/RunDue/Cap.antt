-- ===== src/RunDue/Cap.antt =====
-- The daily limit of runs.
use evi.Common.{
  ℕ, ◌+◌, ◌≤◌, ◌≡◌, refl, Bool, true, false, not, ◌&&◌, Option, none, some, List, [], ◌∷◌, arith,
  leb, max, if_both, Option-cases, inl, inr, if◌then◌else◌, contains,
}
use evi.ScheduledTask.{
  Task, Tasks, runs_on, scheduled_runs_on, claim_scheduled_task, due_scheduled_tasks,
}
use evi.ScheduledTask.Ops.{Op, apply, IsValid, apply-IsValid}
use evi.ScheduledTask.Claims.{added, scheduled_runs_on-claim}
use evi.RunDue.{
  State, Env, Tick, Counts, steps, day_of, next_run, first_tick, claim_run, after_claim, take_row,
  take_rows, run_due, discard, max_runs_per_day,
}
use evi.RunDue.Quiet.{Quiet, finish-Kept, steps-Kept}

-- How many runs of the day a claim in the tick adds.
abbrev taken : Bool → Option (Task × ℕ) → ℕ
taken over none = 0
taken over (some c) = if over then 0 else 1

record Claimed (day : ℕ) (over : Bool) (before : Tasks) (out : Tasks × Option (Task × ℕ))
    : Type 0 where
  valid : IsValid out.0
  runs : runs_on day out.0.rows ≡ runs_on day before.rows + taken over out.1

claimed-taken :
    (over : Bool) (at : ℕ) (c : Option Task)
    → added (not over) c ≡ taken over (elim c [ none ↦ none | some t ↦ some (t, at) ])
claimed-taken over at none = refl
claimed-taken true at (some t) = refl
claimed-taken false at (some t) = refl

claim_run-Claimed :
    (env : Env) (t : Task) (over : Bool) (s : Tasks)
    → IsValid s
    → Claimed (day_of env) over s (claim_run env t over s)
unfolding claim_run scheduled_runs_on apply
claim_run-Claimed env t over s v = elim (Option-cases (next_run env t over)) [
  | inl e ↦ rw (e, claim_run) (record { valid = v; runs = omega arith })
  | inr ((at, active), e) ↦
      let day = day_of env in
      let (s', claimed) = claim_scheduled_task t.id t.next_at at active day (not over) s in
      rw (e, claim_run)
        (if_both (λ out. Claimed day over s out) (env.claim_ok t.id)
          (λ _. record {
            valid = apply-IsValid (Op.claim t.id t.next_at at active day (not over)) s v;
            runs = omega (
              arith,
              claimed-taken over at claimed,
              scheduled_runs_on-claim t.id t.next_at at active day (not over) s v,
            );
          })
          (λ _. record { valid = v; runs = omega arith }))
]

-- Where a tick stands that found `base` runs.
record Counted (day base : ℕ) (k : Tick) : Type 0 where
  valid : IsValid k.state.tasks
  same : runs_on day k.state.tasks.rows ≡ k.used
  grown : k.used ≡ base + k.counts.started
  bounded : k.used ≤ max max_runs_per_day base

after_claim-Counted :
    (env : Env) (t : Task) (over : Bool) (c : Option (Task × ℕ)) (s : State) (k : Tick) (base : ℕ)
    → leb max_runs_per_day k.used ≡ over
    → Counted (day_of env) base k
    → Claimed (day_of env) over k.state.tasks (s.tasks, c)
    → Counted (day_of env) base (after_claim env t over c s k)
unfolding after_claim discard
after_claim-Counted env t over none s k base e h g = record {
  valid = g.valid;
  same = omega (arith, g.runs, h.same);
  grown = h.grown;
  bounded = h.bounded;
}
after_claim-Counted env t true (some (c, at)) s k base e h g =
    let kept = finish-Kept (day_of env) (env.finish_ok t.id) t.id "capped" none (discard t.id s) in
    record {
      valid = kept.valid g.valid;
      same = omega (arith, g.runs, h.same, kept.runs);
      grown = h.grown;
      bounded = h.bounded;
    }
after_claim-Counted env t false (some (c, at)) s k base e h g = record {
  valid = g.valid;
  same = omega (arith, g.runs, h.same);
  grown = omega (arith, h.grown);
  bounded = ground (arith, h.bounded);
}

take_row-Counted :
    (env : Env) (t : Task) (k : Tick) (base : ℕ)
    → Quiet env
    → Counted (day_of env) base k
    → Counted (day_of env) base (take_row env t k)
unfolding take_row
take_row-Counted env t k base q h =
    let day = day_of env in
    let s = steps (env.meanwhile t.id) k.state in
    let over = leb max_runs_per_day k.used in
    let kept = steps-Kept day (env.meanwhile t.id) k.state (q t.id) in
    let claim = claim_run-Claimed env t over s.tasks (kept.valid h.valid) in
    if_both (λ out. Counted day base out) (contains t.id s.inflight)
      (λ _. record {
        valid = kept.valid h.valid;
        same = omega (arith, kept.runs, h.same);
        grown = h.grown;
        bounded = h.bounded;
      })
      (λ _.
        after_claim-Counted env t over _ _ k base refl h
          (record { valid = claim.valid; runs = omega (arith, claim.runs, kept.runs) }))

take_rows-Counted :
    (env : Env) (ts : List Task) (k : Tick) (base : ℕ)
    → Quiet env
    → Counted (day_of env) base k
    → Counted (day_of env) base (take_rows env ts k)
unfolding take_rows
take_rows-Counted env [] k base q h = h
take_rows-Counted env (t ∷ ts) k base q h =
    take_rows-Counted env ts (take_row env t k) base q (take_row-Counted env t k base q h)

due-Counted :
    (env : Env) (s : State)
    → Quiet env
    → IsValid s.tasks
    → Counted
        (day_of env)
        (scheduled_runs_on (day_of env) s.tasks)
        (take_rows env (due_scheduled_tasks env.now 20 s.tasks) (first_tick env s))
unfolding scheduled_runs_on
due-Counted env s q v =
    take_rows-Counted env _ _ _ q
      (record { valid = v; same = refl; grown = omega arith; bounded = ground arith })

-- On a table with unique ids below its counter, where nothing but the tick claims tasks, a tick adds
-- to the runs of its day as many as it starts, and leaves no more than six, or as many as it found
-- where they were more.
pub run_due_cap :
    (env : Env) (s : State)
    → Quiet env
    → IsValid s.tasks
    → let (s', counts) = run_due env s in
      let before = scheduled_runs_on (day_of env) s.tasks in
      let after = scheduled_runs_on (day_of env) s'.tasks in
      (after ≡ before + counts.started) × (after ≤ max max_runs_per_day before)
unfolding run_due scheduled_runs_on
run_due_cap env s q v =
    let day = day_of env in
    let k = due-Counted env s q v in
    let before = runs_on day s.tasks.rows in
    if_both
      (λ (out : State × Counts).
        let after = runs_on day out.0.tasks.rows in
        (after ≡ before + out.1.started) × (after ≤ max max_runs_per_day before))
      (env.enabled && env.due_ok)
      (λ _. (omega (arith, k.same, k.grown), omega (arith, k.same, k.bounded)))
      (λ _. (omega arith, ground arith))

abbrev handled : Counts → ℕ
handled c = c.started + c.capped + c.skipped
