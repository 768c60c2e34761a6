-- ===== src/Commitment/Waiting.antt =====
-- How a row leaves the evaluation queue.
use evi.Common.{
  ℕ, ◌≡◌, refl, ap, ◌∙◌, ◌⊎◌, Bool, true, false, not, Option, none, some, List, [], ◌∷◌, arith,
  if◌then◌else◌, if_both, any, count, contains, ◌≤◌, inl, inr,
}
use evi.Common.Keyed.{get-update, get-append, get-key, keys, meets-chosen}
use evi.Commitment.{
  Commitment, Commitments, undated, is_waiting, is_listed, insert_pending_commitment, is_from,
  list_pending_commitments, listed_before,
}
use evi.Commitment.Queue.{
  Verdict, evaluated, released_task, finish_promise_evaluation, bump_promise_eval, waits,
  task_waits, release_needs_eval_tasks,
}
use evi.Commitment.Ops.{
  Op, capture, settle, evaluate, bump, finish, apply, run, Change, change_of, Changes, IfChange,
  apply-Changes, KeepsSame, change_of-KeepsSame,
}
use evi.Commitment.Closed.{row}
use evi.Commitment.Worker.{fallback}

released_same :
    (reply_debts : Bool) (today : ℕ) (r : Commitment)
    → evaluated (fallback reply_debts today r) r ≡ released_task reply_debts today r
released_same reply_debts today r = ground arith

released_shown :
    (reply_debts : Bool) (today : ℕ) (r : Commitment)
    → ((released_task reply_debts today r).status ≡ undated)
      ⊎ (is_listed false today (released_task reply_debts today r) ≡ true)
released_shown reply_debts today r = ground arith

-- A call that gives no row the status of a waiting one.
abbrev pub is_onward : Op → Bool
is_onward (settle id status via db_now) = not (is_waiting status)
is_onward (evaluate id v) = not (is_waiting v.status)
is_onward (finish id status via) = not (is_waiting status)
is_onward _ = true

abbrev pub AllOnward : List Op → Type 0
AllOnward [] = Unit
AllOnward (op ∷ ops) = (is_onward op ≡ true) × AllOnward ops

-- The row is there and does not wait for an evaluation.
abbrev pub Left : ℕ → Commitments → Type 0
Left i s = (r : Commitment) × (row i s ≡ some r) × (is_waiting r.status ≡ false)

abbrev Onward : Option Change → Type 0
Onward none = Unit
Onward (some c) =
    (r : Commitment)
    → is_waiting r.status ≡ false
    → is_waiting (if c.which r then c.to r else r).status ≡ false

change_of-Onward : (op : Op) → is_onward op ≡ true → Onward (change_of op)
unfolding change_of
change_of-Onward (capture cut c db_now) h = tt
change_of-Onward (settle id status via db_now) h = λ r d. ground arith
change_of-Onward _ h = λ r d. ground arith

changed-Left :
    (ch : Option Change) (s s' : Commitments) (i : ℕ)
    → Changes ch s s'
    → KeepsSame ch
    → Onward ch
    → Left i s
    → IfChange ch (Left i s')
changed-Left none s s' i e same on l = tt
changed-Left (some c) s s' i e same on (r, h, w) = (
  if c.which r then c.to r else r,
  ap (row i) e ∙ get-update (λ r. r.id) c.which c.to i s.rows (λ t. (same t).id) ∙ rw h refl,
  on r w,
)

apply-Left :
    (op : Op) (s : Commitments) (i : ℕ) → is_onward op ≡ true → Left i s → Left i (apply op s)
unfolding apply change_of insert_pending_commitment
apply-Left (capture cut c db_now) s i on (r, h, w) =
    if_both (λ (out : Commitments × Option ℕ). Left i out.0)
      (any (is_from c.source c.source_id) s.rows) (λ _. (r, h, w))
      (λ _. (r, get-append (λ r. r.id) i s.rows _ r h, w))
apply-Left op s i on l =
    changed-Left (change_of op) s (apply op s) i (apply-Changes op s) (change_of-KeepsSame op)
      (change_of-Onward op on) l

pub run-Left :
    (ops : List Op) (s : Commitments) (i : ℕ) → AllOnward ops → Left i s → Left i (run ops s)
unfolding run
run-Left [] s i on l = l
run-Left (op ∷ ops) s i on l = run-Left ops (apply op s) i on.1 (apply-Left op s i on.0 l)

-- The call of an evaluation, as the worker makes it.
pub finish-Left :
    (i id : ℕ) (v : Verdict) (s : Commitments)
    → is_waiting v.status ≡ false
    → Left i s
    → Left i (finish_promise_evaluation id v s).0
unfolding apply
finish-Left i id v s w l = apply-Left (evaluate id v) s i (ground arith) l

pub bump-Left : (i id at : ℕ) (s : Commitments) → Left i s → Left i (bump_promise_eval id at s).0
unfolding apply
bump-Left i id at s l = apply-Left (bump id at) s i refl l

pub finished_row :
    (i id : ℕ) (v : Verdict) (s : Commitments) (r : Commitment)
    → row i s ≡ some r
    → row i (finish_promise_evaluation id v s).0 ≡ some (if waits id r then evaluated v r else r)
unfolding finish_promise_evaluation
finished_row i id v s r h =
    get-update (λ r. r.id) (waits id) (evaluated v) i s.rows (λ t. refl) ∙ rw h refl

-- Where a task waits for its evaluation, the fallback of the task worker makes of its row exactly what
-- the release of all waiting tasks makes of it on the same day. After the release, the row is undated,
-- or it stands in the listing of that day, where the rows that meet the listing's condition are no more
-- than its limit.
pub fallback-released :
    (reply_debts : Bool) (today limit i : ℕ) (s : Commitments) (r : Commitment)
    → row i s ≡ some r
    → task_waits r ≡ true
    → count (is_listed false today) (release_needs_eval_tasks reply_debts today s).0.rows ≤ limit
    → let s' = (release_needs_eval_tasks reply_debts today s).0 in
      let r' = released_task reply_debts today r in
      (row i (finish_promise_evaluation i (fallback reply_debts today r) s).0 ≡ some r')
      × (row i s' ≡ some r')
      × ((r'.status ≡ undated)
          ⊎ (contains i (keys (λ r. r.id) (list_pending_commitments limit false today s')) ≡ true))
unfolding release_needs_eval_tasks list_pending_commitments
fallback-released reply_debts today limit i s r h w room =
    let r' = released_task reply_debts today r in
    let s' = (release_needs_eval_tasks reply_debts today s).0 in
    let k = get-key (λ (r : Commitment). r.id) i s.rows r h in
    let own : waits i r ≡ true = ground (arith, k, w) in
    let moved : row i s' ≡ some r' =
      get-update (λ r. r.id) task_waits (released_task reply_debts today) i s.rows (λ t. refl)
      ∙ rw (h, w) refl in
    (
      finished_row i i (fallback reply_debts today r) s r h
          ∙ rw (own, released_same reply_debts today r) refl,
      moved,
      elim (released_shown reply_debts today r) [
        | inl e ↦ inl e
        | inr e ↦ inr (
            meets-chosen (λ r. r.id) listed_before (is_listed false today) limit i s'.rows r' moved
              e room)
      ],
    )
