-- ===== src/Commitment/Ops.antt =====
-- The calls that change the table, as data.
use evi.Common.{
  ℕ, String, Bool, ◌==◌, Option, some, none, List, [], ◌∷◌, update, arith, refl, ◌≡◌, contains,
}
use evi.Commitment.{
  Commitment, Commitments, Status, Capture, insert_pending_commitment, update_commitment_status,
  settled, mark_pending_notified, is_open,
}
use evi.Commitment.Queue.{
  Verdict, finish_promise_evaluation, release_needs_eval, release_needs_eval_tasks,
  bump_promise_eval, mark_promise_swept, mark_promise_done_by_sweep, update_pending_promise,
  finish_pending_promise, waits, evaluated, released, promise_waits, task_waits, released_task,
  bumped, done_by_sweep, is_open_promise, redated, finished,
}

pub data Op : Type 0 where
  capture : (String → String) → Capture → ℕ → Op
  settle : ℕ → Status → Option String → ℕ → Op
  notified : List ℕ → ℕ → Op
  evaluate : ℕ → Verdict → Op
  release : ℕ → Op
  release_tasks : Bool → ℕ → Op
  bump : ℕ → ℕ → Op
  swept : ℕ → ℕ → Op
  done_by : ℕ → Op
  redate : ℕ → Option String → Option ℕ → Bool → Op
  finish : ℕ → Status → String → Op

unfoldable pub apply : Op → Commitments → Commitments
apply (capture cut c db_now) s = (insert_pending_commitment cut c db_now s).0
apply (settle id status via db_now) s = (update_commitment_status id status via db_now s).0
apply (notified ids db_now) s = mark_pending_notified ids db_now s
apply (evaluate id v) s = (finish_promise_evaluation id v s).0
apply (release today) s = (release_needs_eval today s).0
apply (release_tasks reply_debts today) s = (release_needs_eval_tasks reply_debts today s).0
apply (bump id at) s = (bump_promise_eval id at s).0
apply (swept id ts) s = (mark_promise_swept id ts s).0
apply (done_by id) s = (mark_promise_done_by_sweep id s).0
apply (redate id title due clear) s = (update_pending_promise id title due clear s).0
apply (finish id status via) s = (finish_pending_promise id status via s).0

unfoldable pub run : List Op → Commitments → Commitments
run [] s = s
run (op ∷ ops) s = run ops (apply op s)

-- Every call that captures nothing is one update of the rows: which rows, and to what.
pub record Change : Type 0 where
  pub which : Commitment → Bool
  pub to : Commitment → Commitment

unfoldable pub change_of : Op → Option Change
change_of (capture cut c db_now) = none
change_of (settle id status via db_now) =
    some (record { which = is_open id; to = settled status via db_now })
change_of (notified ids db_now) =
    some
      (record { which = λ r. contains r.id ids; to = λ r. record r { notified_at = some db_now } })
change_of (evaluate id v) = some (record { which = waits id; to = evaluated v })
change_of (release today) = some (record { which = promise_waits; to = released today })
change_of (release_tasks reply_debts today) =
    some (record { which = task_waits; to = released_task reply_debts today })
change_of (bump id at) = some (record { which = waits id; to = bumped at })
change_of (swept id ts) =
    some (record { which = λ r. r.id == id; to = λ r. record r { last_swept_at = some ts } })
change_of (done_by id) = some (record { which = is_open id; to = done_by_sweep })
change_of (redate id title due clear) =
    some (record { which = is_open_promise id; to = redated title due clear })
change_of (finish id status via) =
    some (record { which = is_open_promise id; to = finished status via })

-- What such a call does to the table.
abbrev pub Changes : Option Change → Commitments → Commitments → Type 0
Changes none s s' = Unit
Changes (some c) s s' = s' ≡ record s { rows = update c.which c.to s.rows }

pub apply-Changes : (op : Op) (s : Commitments) → Changes (change_of op) s (apply op s)
unfolding apply change_of update_commitment_status mark_pending_notified finish_promise_evaluation
    release_needs_eval release_needs_eval_tasks bump_promise_eval mark_promise_swept
    mark_promise_done_by_sweep update_pending_promise finish_pending_promise
apply-Changes (capture cut c db_now) s = tt
apply-Changes _ s = refl

-- What stays of every row, whatever the call: the identity and what was captured.
pub record Same (r r' : Commitment) : Type 0 where
  pub id : r'.id ≡ r.id
  pub source : r'.source ≡ r.source
  pub source_id : r'.source_id ≡ r.source_id
  pub kind : r'.kind ≡ r.kind
  pub raw_text : r'.raw_text ≡ r.raw_text
  pub source_chat : r'.source_chat ≡ r.source_chat
  pub created_at : r'.created_at ≡ r.created_at
  pub msg_ts : r'.msg_ts ≡ r.msg_ts

abbrev pub KeepsSame : Option Change → Type 0
KeepsSame none = Unit
KeepsSame (some c) = (r : Commitment) → Same r (c.to r)

pub change_of-KeepsSame : (op : Op) → KeepsSame (change_of op)
unfolding change_of
change_of-KeepsSame (capture cut c db_now) = tt
change_of-KeepsSame (settle id status via db_now) = λ r. ground arith
change_of-KeepsSame _ = λ r. ground arith

-- What is claimed of a call that captures nothing.
abbrev pub IfChange : Option Change → Type 0 → Type 0
IfChange none P = Unit
IfChange (some c) P = P
