-- ===== src/Commitment/Stale.antt =====
-- No promise waits longer than 48 hours for its evaluation.
use evi.Common.{
  ℕ, ◌+◌, ◌-◌, ◌≤◌, ◌≡◌, refl, true, false, ◌&&◌, ◌==◌, some, List, [], ◌∷◌, arith, ltb, leb,
  if◌then◌else◌, if_both, Bool-cases, inl, inr, count, contains,
}
use evi.Common.Keyed.{keys, get-key, meets-chosen}
use evi.Commitment.{Commitment, Commitments, pending, is_waiting, done}
use evi.Commitment.Queue.{
  Verdict, evaluated, promise_waits, age_from, by_id, finish_promise_evaluation,
  list_stale_needs_eval, list_promises_to_evaluate, waits,
}
use evi.Commitment.Ops.{run}
use evi.Commitment.Closed.{row}
use evi.Commitment.Worker.{
  Env, Answer, Counts, expiry, expire_rows, expire_stale, process_due_evaluations, each,
  promise_row, judge_promise, refusal, count_expired, count_dismissed, count_done, count_kept,
  end_row, no_counts, plain, eval_give_up, eval_retry,
}
use evi.Commitment.Waiting.{AllOnward, Left, run-Left, finish-Left, bump-Left, finished_row}

finished-Left :
    (i id : ℕ) (v : Verdict) (s : Commitments) (r : Commitment)
    → is_waiting v.status ≡ false
    → row i s ≡ some r
    → id ≡ i
    → Left i (finish_promise_evaluation id v s).0
finished-Left i id v s r w h k = (
  if waits id r then evaluated v r else r,
  finished_row i id v s r h,
  ground (arith, get-key (λ r. r.id) i s.rows r h),
)

module _ (today i : ℕ) where
  -- The loop of the fallback, where each call returns.
  expired-Left :
      (rs : List Commitment) (s : Commitments) (c : Counts)
      → Left i s
      → Left i (expire_rows (expiry today) (λ id. true) rs (s, c)).0
  unfolding expire_rows
  expired-Left [] s c l = l
  expired-Left (t ∷ rs) s c l =
      expired-Left rs (finish_promise_evaluation t.id (expiry today t) s).0 _
        (finish-Left i t.id (expiry today t) s refl l)

  expires-Left :
      (rs : List Commitment) (s : Commitments) (c : Counts) (r : Commitment)
      → row i s ≡ some r
      → contains i (keys (λ r. r.id) rs) ≡ true
      → Left i (expire_rows (expiry today) (λ id. true) rs (s, c)).0
  unfolding expire_rows
  expires-Left [] s c r h m = absurd (ground arith)
  expires-Left (t ∷ rs) s c r h m = elim (Bool-cases (i == t.id)) [
    | inl e ↦
        expired-Left rs (finish_promise_evaluation t.id (expiry today t) s).0 _
          (finished-Left i t.id (expiry today t) s r refl h (ground arith))
    | inr e ↦
        expires-Left rs (finish_promise_evaluation t.id (expiry today t) s).0 _
          (if waits t.id r then evaluated (expiry today t) r else r)
          (finished_row i t.id (expiry today t) s r h) (rw e at m)
  ]

module _ (env : Env) (i : ℕ) where
  end_row-Left :
      (t : Commitment) (v : Verdict) (count : Counts → Counts) (s : Commitments) (c : Counts)
      → is_waiting v.status ≡ false
      → Left i s
      → Left i (end_row env t v count (s, c)).0
  end_row-Left t v count s c w l =
      if_both (λ (k : Commitments × Counts). Left i k.0) (env.finish_ok t.id)
        (λ _. finish-Left i t.id v s w l)
        (λ _.
          if_both (Left i) (env.bump_ok t.id) (λ _. bump-Left i t.id (env.now + eval_retry) s l)
            (λ _. l))

  judge_promise-Left :
      (t : Commitment) (a : Answer) (s : Commitments) (c : Counts)
      → Left i s
      → Left i (judge_promise env t a (s, c)).0
  unfolding judge_promise
  judge_promise-Left t Answer.raises s c l =
      if_both (Left i) (env.bump_ok t.id) (λ _. bump-Left i t.id (env.now + eval_retry) s l)
        (λ _. l)
  judge_promise-Left t Answer.fails s c l =
      if_both (λ (k : Commitments × Counts). Left i k.0) (leb (age_from t + eval_give_up) env.now)
        (λ _. end_row-Left t (expiry env.today t) count_expired s c refl l)
        (λ _.
          if_both (λ (k : Commitments × Counts). Left i k.0) (env.bump_ok t.id)
            (λ _. bump-Left i t.id (env.now + eval_retry) s l) (λ _. l))
  judge_promise-Left t Answer.refuses s c l = end_row-Left t refusal count_dismissed s c refl l
  judge_promise-Left t Answer.fulfilled s c l = end_row-Left t (plain done) count_done s c refl l
  judge_promise-Left t (Answer.keeps title due) s c l =
      end_row-Left t (record (plain pending) { title = title; due_date = due }) count_kept s c refl
        l

  each-Left :
      (ts : List Commitment) (s : Commitments) (c : Counts)
      → ((id : ℕ) → AllOnward (env.meanwhile id))
      → Left i s
      → Left i (each (promise_row env) ts (s, c)).0
  unfolding each
  each-Left [] s c on l = l
  each-Left (t ∷ ts) s c on l =
      let (s', c') = promise_row env t (s, c) in
      each-Left ts s' c' on (
        judge_promise-Left t (env.answer t) (run (env.meanwhile t.id) s) c
          (run-Left (env.meanwhile t.id) s i (on t.id) l))

expire_stale-Left :
    (env : Env) (s : Commitments) (i : ℕ) (r : Commitment)
    → env.stale_ok ≡ true
    → env.expire_ok ≡ (λ id. true)
    → count (λ t. promise_waits t && ltb (age_from t) (env.now - eval_give_up)) s.rows ≤ 100
    → row i s ≡ some r
    → (promise_waits r && ltb (age_from r) (env.now - eval_give_up)) ≡ true
    → Left i (expire_stale env s).0
unfolding expire_stale list_stale_needs_eval
expire_stale-Left env s i r ok all few h old = rw ok (
    rw all (
      expires-Left env.today i (list_stale_needs_eval (env.now - eval_give_up) 100 s) s no_counts r
        h
        (meets-chosen (λ t. t.id) by_id
          (λ t. promise_waits t && ltb (age_from t) (env.now - eval_give_up)) 100 i s.rows r h old
          few)))

-- Where the calls of the fallback return, no more than a hundred promises are too old, and others
-- give no row back to the queue, a promise that was captured more than 48 hours before a tick does
-- not wait for its evaluation any more after it.
pub stale-Left :
    (env : Env) (limit : ℕ) (s : Commitments) (i : ℕ) (r : Commitment)
    → env.stale_ok ≡ true
    → env.expire_ok ≡ (λ id. true)
    → ((id : ℕ) → AllOnward (env.meanwhile id))
    → count (λ t. promise_waits t && ltb (age_from t) (env.now - eval_give_up)) s.rows ≤ 100
    → row i s ≡ some r
    → (promise_waits r && ltb (age_from r) (env.now - eval_give_up)) ≡ true
    → Left i (process_due_evaluations env limit s).0
unfolding process_due_evaluations
stale-Left env limit s i r ok all on few h old =
    each-Left env i (list_promises_to_evaluate env.now limit (expire_stale env s).0)
      (expire_stale env s).0 (expire_stale env s).1 on
      (expire_stale-Left env s i r ok all few h old)
