-- ===== src/Commitment/Worker.antt =====
-- The workers of the evaluation queue: `process_due_evaluations` of agent/services/promise_context.py
-- and `process_due_task_evaluations` of agent/services/task_judge.py. What the language model answers
-- about a row, which calls of the database return, and what others do to the table during the
-- evaluation of a row stand in `Env`.
use evi.Common.{
  ℕ, suc, ◌+◌, ◌-◌, ◌*◌, String, Bool, false, not, ◌&&◌, ◌||◌, Option, none, some, List, [], ◌∷◌,
  leb, if◌then◌else◌, is_some,
}
use evi.Commitment.{Commitment, Commitments, Status, pending, undated, dismissed, done, is_past}
use evi.Commitment.Queue.{
  Verdict, list_promises_to_evaluate, list_stale_needs_eval, list_tasks_to_evaluate,
  list_stale_task_evals, finish_promise_evaluation, bump_promise_eval, age_from, unless_past,
  hour_us,
}
use evi.Commitment.Ops.{Op, run}

-- EVAL_RETRY and EVAL_GIVE_UP, in microseconds
abbrev pub eval_retry : ℕ
eval_retry = 1800000000

abbrev pub eval_give_up : ℕ
eval_give_up = 48 * hour_us

-- What `evaluate_promise` and `evaluate_task` give: they raise, give None, refuse the row, find it
-- fulfilled, or keep it with a title and a due date where there is one.
pub data Answer : Type 0 where
  raises : Answer
  fails : Answer
  refuses : Answer
  fulfilled : Answer
  keeps : Option String → Option ℕ → Answer

pub record Env : Type 0 where
  pub now : ℕ
  -- the local date of `now`
  pub today : ℕ
  pub reply_debts : Bool
  pub stale_ok : Bool
  -- whether the calls for a row return: its expiry, its end, and its next attempt
  pub expire_ok : ℕ → Bool
  pub finish_ok : ℕ → Bool
  pub bump_ok : ℕ → Bool
  pub answer : Commitment → Answer
  pub meanwhile : ℕ → List Op

pub record Counts : Type 0 where
  pub kept : ℕ
  pub dismissed : ℕ
  pub done : ℕ
  pub retry : ℕ
  pub expired : ℕ
  pub error : ℕ

abbrev pub no_counts : Counts
no_counts = record { kept = 0; dismissed = 0; done = 0; retry = 0; expired = 0; error = 0 }

abbrev pub plain : Status → Verdict
plain status = record {
  status = status;
  title = none;
  due_date = none;
  clear_due = false;
  clear_event = false;
  confirmed_via = none;
}

-- `_expire`: back to pending, a past due date cleared
abbrev pub expiry : ℕ → Commitment → Verdict
expiry today r = record (plain pending) { clear_due = is_past today r.due_date }

-- `final_status`
abbrev pub final_status : Bool → ℕ → Commitment → Status
final_status reply_debts today r =
    if reply_debts
      && not (is_some (unless_past today r.event_date) || is_some (unless_past today r.due_date))
    then undated
    else pending

-- `_fallback`
abbrev pub fallback : Bool → ℕ → Commitment → Verdict
fallback reply_debts today r = record (plain (final_status reply_debts today r)) {
  clear_due = is_past today r.due_date;
  clear_event = is_past today r.event_date;
}

abbrev pub refusal : Verdict
refusal = record (plain dismissed) { confirmed_via = some "auto-eval" }

-- The loop over the rows that are too old; a row counts where it was still waiting.
unfoldable pub expire_rows :
    (Commitment → Verdict)
    → (ℕ → Bool)
    → List Commitment
    → Commitments × Counts
    → Commitments × Counts
expire_rows verdict ok [] k = k
expire_rows verdict ok (r ∷ rs) (s, c) =
    let (s', found) = finish_promise_evaluation r.id (verdict r) s in
    expire_rows verdict ok rs (
      if ok r.id
      then (s', if found then record c { expired = suc c.expired } else c)
      else (s, record c { error = suc c.error }))

-- The handler of an exception in the loop: the row is tried again later.
abbrev pub after_error : Env → Commitment → Commitments × Counts → Commitments × Counts
after_error env r (s, c) = (
  if env.bump_ok r.id then (bump_promise_eval r.id (env.now + eval_retry) s).0 else s,
  record c { error = suc c.error },
)

-- A call that ends the row and counts, or raises.
abbrev pub end_row :
    Env → Commitment → Verdict → (Counts → Counts) → Commitments × Counts → Commitments × Counts
end_row env r v count (s, c) =
    if env.finish_ok r.id
    then ((finish_promise_evaluation r.id v s).0, count c)
    else after_error env r (s, c)

abbrev pub try_later : Env → Commitment → Commitments × Counts → Commitments × Counts
try_later env r (s, c) =
    if env.bump_ok r.id
    then ((bump_promise_eval r.id (env.now + eval_retry) s).0, record c { retry = suc c.retry })
    else (s, record c { error = suc c.error })

abbrev pub count_kept : Counts → Counts
count_kept c = record c { kept = suc c.kept }

abbrev pub count_dismissed : Counts → Counts
count_dismissed c = record c { dismissed = suc c.dismissed }

abbrev pub count_done : Counts → Counts
count_done c = record c { done = suc c.done }

abbrev pub count_expired : Counts → Counts
count_expired c = record c { expired = suc c.expired }

-- One promise. Empty titles count as none.
unfoldable pub judge_promise :
    Env → Commitment → Answer → Commitments × Counts → Commitments × Counts
judge_promise env r raises k = after_error env r k
judge_promise env r fails k =
    if leb (age_from r + eval_give_up) env.now
    then end_row env r (expiry env.today r) count_expired k
    else try_later env r k
judge_promise env r refuses k = end_row env r refusal count_dismissed k
judge_promise env r fulfilled k = end_row env r (plain done) count_done k
judge_promise env r (keeps title due) k =
    end_row env r (record (plain pending) { title = title; due_date = due }) count_kept k

-- MAX_ATTEMPTS
abbrev pub max_attempts : ℕ
max_attempts = 6

abbrev pub count_if : Bool → (Counts → Counts) → Counts → Counts
count_if b f c = if b then f c else c

-- The end of a task, counted where the row was still waiting.
abbrev pub end_task :
    Env → Commitment → Verdict → (Counts → Counts) → Commitments × Counts → Commitments × Counts
end_task env r v count (s, c) =
    end_row env r v (count_if (finish_promise_evaluation r.id v s).1 count) (s, c)

-- One task. `evaluate_task` never finds a task fulfilled; such an answer would keep it as it is.
unfoldable pub judge_task : Env → Commitment → Answer → Commitments × Counts → Commitments × Counts
judge_task env r raises k = after_error env r k
judge_task env r fails k = try_later env r k
judge_task env r refuses k = end_row env r refusal count_dismissed k
judge_task env r (keeps title due) k =
    end_task env r (record (fallback env.reply_debts env.today r) { title = title }) count_kept k
judge_task env r fulfilled k = end_task env r (fallback env.reply_debts env.today r) count_kept k

abbrev pub others : Env → Commitment → Commitments × Counts → Commitments × Counts
others env r (s, c) = (run (env.meanwhile r.id) s, c)

-- After six attempts a task is not judged any more.
abbrev pub task_row : Env → Commitment → Commitments × Counts → Commitments × Counts
task_row env r k =
    if leb max_attempts r.eval_attempts
    then end_task env r (fallback env.reply_debts env.today r) count_expired k
    else judge_task env r (env.answer r) (others env r k)

abbrev pub promise_row : Env → Commitment → Commitments × Counts → Commitments × Counts
promise_row env r k = judge_promise env r (env.answer r) (others env r k)

unfoldable pub each :
    (Commitment → Commitments × Counts → Commitments × Counts)
    → List Commitment
    → Commitments × Counts
    → Commitments × Counts
each f [] k = k
each f (r ∷ rs) k = each f rs (f r k)

-- The 48-hour fallback, before any row is judged.
unfoldable pub expire_stale : Env → Commitments → Commitments × Counts
unfolding expire_rows
expire_stale env s =
    if env.stale_ok
    then expire_rows (expiry env.today) env.expire_ok
        (list_stale_needs_eval (env.now - eval_give_up) 100 s) (s, no_counts)
    else (s, no_counts)

unfoldable pub process_due_evaluations : Env → ℕ → Commitments → Commitments × Counts
unfolding expire_stale judge_promise each
process_due_evaluations env limit s =
    let (s', c) = expire_stale env s in
    each (promise_row env) (list_promises_to_evaluate env.now limit s') (s', c)

unfoldable pub expire_stale_tasks : Env → Commitments → Commitments × Counts
unfolding expire_rows
expire_stale_tasks env s =
    if env.stale_ok
    then expire_rows (fallback env.reply_debts env.today) env.expire_ok
        (list_stale_task_evals (env.now - eval_give_up) 100 s) (s, no_counts)
    else (s, no_counts)

unfoldable pub process_due_task_evaluations : Env → ℕ → Commitments → Commitments × Counts
unfolding expire_stale_tasks judge_task each
process_due_task_evaluations env batch s =
    let (s', c) = expire_stale_tasks env s in
    each (task_row env) (list_tasks_to_evaluate env.now batch s') (s', c)
