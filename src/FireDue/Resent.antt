-- ===== src/FireDue/Resent.antt =====
-- A reminder that was delivered and could not be closed, in a tick that cannot close it either.
use evi.Common.{ℕ, ◌≡◌, List, ◌∷◌, ◌++◌, length}
use evi.Reminder.{Reminder, Store, pending, claim_row, claim_due}
use evi.FireDue.{Env, Process, Counts, fire_rows, no_counts, prepare}

-- A list where a row with the id stands.
record Split (P : Reminder → Type 0) (i : ℕ) (rows : List Reminder) : Type 0 where
  sooner : List Reminder
  this : Reminder
  later : List Reminder
  whole : rows ≡ sooner ++ this ∷ later
  own : this.id ≡ i
  known : P this

module _ (env : Env) (p : Process) where
  abbrev ready : Process
  ready = prepare env p

  abbrev taken : Store × List Reminder
  taken = claim_due env.locked env.db_now env.now 20 ready.store

  -- The row as the claim hands it to the loop, and the state in which the loop meets it.
  abbrev pub claimed_again : Reminder → Reminder
  claimed_again x = claim_row env.db_now (record x { status = pending })

  abbrev pub met : List Reminder → Process × Counts
  met sooner =
      fire_rows env sooner
        (record ready { store = taken.0 }, record no_counts { claimed = length taken.1 })
