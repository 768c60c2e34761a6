-- ===== src/ScheduledTask/Claims.antt =====
-- The compare-and-swap of `claim_scheduled_task`, and the day's counter.
use evi.Common.{
  ℕ, ◌+◌, ◌≡◌, ◌≢◌, ◌⊎◌, inl, inr, Bool, false, Option, some, none, List, [], ◌∷◌, arith,
  if◌then◌else◌, refl, update, find?, All, Bool-cases,
}
use evi.Common.Keyed.{Unique}
use evi.ScheduledTask.{
  Task, Tasks, claimable, claim_row, claim_scheduled_task, runs_on, scheduled_runs_on,
}
use evi.ScheduledTask.Ops.{IsValid}

-- How many runs a claim adds to the day.
abbrev pub added : Bool → Option Task → ℕ
added count_run none = 0
added count_run (some t) = if count_run then 1 else 0

module _ (id expected next : ℕ) (active : Bool) (day : ℕ) (count_run : Bool) where
  none_left :
      (rows : List Task)
      → (next ≢ expected) ⊎ (active ≡ false)
      → find?
          (claimable id expected)
          (update (claimable id expected) (claim_row next active day count_run) rows)
        ≡ none
  none_left [] h = refl
  none_left (t ∷ ts) h = ground (arith, none_left ts h)

  -- After a claim that moves the time or closes the task, the claim of the same task at the same
  -- time finds nothing, whatever it would write.
  pub claim_once :
      (next' : ℕ) (active' : Bool) (day' : ℕ) (count_run' : Bool) (s : Tasks)
      → (next ≢ expected) ⊎ (active ≡ false)
      → (claim_scheduled_task id expected next' active' day' count_run'
          (claim_scheduled_task id expected next active day count_run s).0).1
        ≡ none
  unfolding claim_scheduled_task
  claim_once next' active' day' count_run' s h =
      rw (claim_scheduled_task, claim_scheduled_task, none_left s.rows h)

  absent :
      (rows : List Task)
      → All (λ t. t.id ≢ id) rows
      → update (claimable id expected) (claim_row next active day count_run) rows ≡ rows
  absent [] a = refl
  absent (t ∷ ts) a = ground (arith, a.0, absent ts a.1)

  runs_on-claim :
      (rows : List Task)
      → Unique (λ (t : Task). t.id) rows
      → runs_on day (update (claimable id expected) (claim_row next active day count_run) rows)
        ≡ runs_on day rows + added count_run (find? (claimable id expected) rows)
  unfolding runs_on
  runs_on-claim [] u = omega arith
  runs_on-claim (t ∷ ts) u = elim (Bool-cases (claimable id expected t)) [
    | inl e ↦
        let k : t.id ≡ id = ground arith in
        let rest = absent ts (rw k at u.0) in rw (e, rest) (ground arith)
    | inr e ↦ rw e (omega (arith, runs_on-claim ts u.1))
  ]

  added-claimed :
      (t? : Option Task)
      → added count_run
          (elim t? [ none ↦ none | some t ↦ some (claim_row next active day count_run t) ])
        ≡ added count_run t?
  added-claimed none = refl
  added-claimed (some t) = refl

  -- On a table with unique ids, a claim that takes a task and counts the run adds one to the runs of
  -- its day, and any other adds nothing.
  pub scheduled_runs_on-claim :
      (s : Tasks)
      → IsValid s
      → let (s', claimed) = claim_scheduled_task id expected next active day count_run s in
        scheduled_runs_on day s' ≡ scheduled_runs_on day s + added count_run claimed
  unfolding claim_scheduled_task scheduled_runs_on
  scheduled_runs_on-claim s v =
      rw (added-claimed (find? (claimable id expected) s.rows)) (runs_on-claim s.rows v.unique)
