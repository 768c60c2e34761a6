-- ===== src/FireDue/Ticks.antt =====
-- A tick keeps the ids of the table unique.
use evi.Common.{ℕ, zero, suc, Bool, List, [], ◌∷◌, length, if_both, Bool-cases, inl, inr}
use evi.Reminder.{Reminder, Store, effective, finish_fired, claim_due}
use evi.Reminder.Lifecycle.{claim, finish, release, fail, requeue, apply, IsValid}
use evi.Reminder.Runs.{apply-IsValid, run-IsValid}
use evi.FireDue.{
  Env, Process, Counts, Pending, is_delivered, is_not_configured, finish_with_retry,
  finish_attempts, flush_pending_finish, fire_row, fire_rows, no_counts, prepare, fire_due,
  format_reminder,
}

finish_with_retry-IsValid :
    (works : ℕ → Bool) (left attempt : ℕ) (p : Pending) (s : Store)
    → IsValid s
    → IsValid (finish_with_retry works left attempt p s).0
unfolding finish_with_retry apply
finish_with_retry-IsValid works zero attempt p s v = v
finish_with_retry-IsValid works (suc left) attempt p s v = elim (Bool-cases (works attempt)) [
  | inl e ↦ rw e (apply-IsValid (finish p.id p.fired_at p.drift_s p.next_due_at) s v)
  | inr e ↦ rw e (finish_with_retry-IsValid works left (suc attempt) p s v)
]

pub flush-IsValid :
    (works : Pending → Bool) (ps : List Pending) (s : Store)
    → IsValid s
    → IsValid (flush_pending_finish works ps s).0
unfolding flush_pending_finish apply
flush-IsValid works [] s v = v
flush-IsValid works (p ∷ ps) s v = elim (Bool-cases (works p)) [
  | inl e ↦ rw e (
      flush-IsValid works ps (finish_fired p.id p.fired_at p.drift_s p.next_due_at s).0
        (apply-IsValid (finish p.id p.fired_at p.drift_s p.next_due_at) s v))
  | inr e ↦ rw e (flush-IsValid works ps s v)
]

pub prepare-IsValid : (env : Env) (p : Process) → IsValid p.store → IsValid (prepare env p).store
unfolding prepare apply
prepare-IsValid env p v =
    let flushed = flush-IsValid env.flush_ok p.pending_finish p.store v in
    if_both IsValid env.requeue_ok (λ _. apply-IsValid (requeue env.db_now 5) _ flushed)
      (λ _. flushed)

fire_row-IsValid :
    (env : Env) (r : Reminder) (p : Process) (c : Counts)
    → IsValid p.store
    → IsValid (fire_row env r (p, c)).0.store
unfolding fire_row apply
fire_row-IsValid env r p c v =
    let now_there = run-IsValid (env.during r.id) p.store v in
    let text = format_reminder env.clock r.text (effective r) env.now in
    if_both (λ (out : Process × Counts). IsValid out.0.store) (is_delivered (env.send r text))
      (λ _. finish_with_retry-IsValid (env.finish_ok r.id) finish_attempts 0 _ _ now_there)
      (λ _.
        if_both IsValid (env.give_back_ok r.id)
          (λ _.
            if_both IsValid (is_not_configured (env.send r text))
              (λ _. apply-IsValid (fail r.id) _ now_there)
              (λ _. apply-IsValid (release r.id) _ now_there))
          (λ _. now_there))

fire_rows-IsValid :
    (env : Env) (rs : List Reminder) (p : Process) (c : Counts)
    → IsValid p.store
    → IsValid (fire_rows env rs (p, c)).0.store
unfolding fire_rows
fire_rows-IsValid env [] p c v = v
fire_rows-IsValid env (r ∷ rs) p c v =
    let (p', c') = fire_row env r (p, c) in
    fire_rows-IsValid env rs p' c' (fire_row-IsValid env r p c v)

-- A tick keeps the table's ids unique, whatever fails and whatever others do meanwhile.
pub fire_due-IsValid :
    (env : Env) (p : Process) → IsValid p.store → IsValid (fire_due env p).0.store
unfolding fire_due apply
fire_due-IsValid env p v =
    let ready = prepare env p in
    let claimed = claim_due env.locked env.db_now env.now 20 ready.store in
    if_both (λ (out : Process × Counts). IsValid out.0.store) env.claim_ok
      (λ _.
        fire_rows-IsValid env claimed.1 (record ready { store = claimed.0 })
          (record no_counts { claimed = length claimed.1 })
          (apply-IsValid (claim env.locked env.db_now env.now 20) ready.store
            (prepare-IsValid env p v)))
      (λ _. prepare-IsValid env p v)
