-- ===== src/Examples/Promises.antt =====
-- A promise that a message makes, captured, evaluated and captured again.
use evi.Common.{
  ◌≡◌, ◌≤◌, ◌⊎◌, ◌*◌, ◌&&◌, ◌-◌, contains, refl, true, false, some, none, [], ◌∷◌, arith, ltb,
  count,
}
use evi.Commitment.{
  Capture, Commitment, Commitments, promise, task, list_pending_commitments, needs_eval, dismissed,
  captured, insert_pending_commitment, undated, is_listed,
}
use evi.Commitment.Queue.{
  Verdict, released_task, evaluated, promise_waits, age_from, hour_us, finish_promise_evaluation,
  release_needs_eval_tasks,
}
use evi.Commitment.Ops.{evaluate, release, notified, run, apply}
use evi.Commitment.Closed.{Stays, decided-Stays, row}
use evi.Common.Keyed.{keys}
use evi.Commitment.Captures.{captured_once}
use evi.Commitment.Worker.{Env, Answer, process_due_evaluations, eval_give_up, fallback}
use evi.Commitment.Waiting.{Left, fallback-released}
use evi.Commitment.Stale.{stale-Left}

abbrev vow : Capture
vow = record {
  source = "whatsapp_from_me";
  source_id = "m1";
  kind = promise;
  title = "mandar o contrato";
  event_date = none;
  event_time = "";
  due_date = none;
  priority = "work";
  raw_text = "amanhã mando o contrato";
  source_chat = "ana";
  source_label = "Ana";
  status = needs_eval;
  next_eval_at = some 700;
  msg_ts = some 90;
}

abbrev no_commitments : Commitments
no_commitments = record { rows = []; next_id = 1 }

abbrev one_vow : Commitments
unfolding insert_pending_commitment
one_vow = (insert_pending_commitment (λ text. text) vow 100 no_commitments).0

abbrev vow_row : Commitment
vow_row = captured (λ text. text) vow 1 100

abbrev no_promise : Verdict
no_promise = record {
  status = dismissed;
  title = none;
  due_date = none;
  clear_due = false;
  clear_event = false;
  confirmed_via = some "auto-eval";
}

abbrev dropped_row : Commitment
dropped_row = evaluated no_promise vow_row

abbrev dropped : Commitments
dropped = record { rows = dropped_row ∷ []; next_id = 2 }

vow_dropped : run (evaluate 1 no_promise ∷ []) one_vow ≡ dropped
unfolding run one_vow apply finish_promise_evaluation
vow_dropped = refl

decided-Stays_example : Stays 1 dropped_row (run (release 40 ∷ notified (1 ∷ []) 900 ∷ []) dropped)
decided-Stays_example =
    decided-Stays (release 40 ∷ notified (1 ∷ []) 900 ∷ []) dropped 1 dropped_row refl refl

captured_once_example :
    let s' =
      run
        (evaluate 1 no_promise ∷ [])
        (insert_pending_commitment (λ text. text) vow 100 no_commitments).0 in
    ((insert_pending_commitment (λ text. text) (record vow { title = "outro" }) 200 s').1 ≡ none)
    × ((insert_pending_commitment (λ text. text) (record vow { title = "outro" }) 200 s').0.rows
        ≡ s'.rows)
captured_once_example =
    captured_once (λ text. text) vow (record vow { title = "outro" }) 100 200
      (evaluate 1 no_promise ∷ []) no_commitments refl refl

-- A task that waits, without a date.
abbrev chore : Commitment
chore = record vow_row { kind = task }

abbrev one_chore : Commitments
one_chore = record { rows = chore ∷ []; next_id = 2 }

room_for_one : count (is_listed false 40) (release_needs_eval_tasks false 40 one_chore).0.rows ≤ 50
unfolding release_needs_eval_tasks
room_for_one = omega arith

fallback-released_example :
    let s' = (release_needs_eval_tasks false 40 one_chore).0 in
    let r' = released_task false 40 chore in
    (row 1 (finish_promise_evaluation 1 (fallback false 40 chore) one_chore).0 ≡ some r')
    × (row 1 s' ≡ some r')
    × ((r'.status ≡ undated)
        ⊎ (contains 1 (keys (λ r. r.id) (list_pending_commitments 50 false 40 s')) ≡ true))
fallback-released_example = fallback-released false 40 50 1 one_chore chore refl refl room_for_one

-- Three days later, with a model that answers nothing.
abbrev later : Env
later = record {
  now = 72 * hour_us;
  today = 3;
  reply_debts = true;
  stale_ok = true;
  expire_ok = λ id. true;
  finish_ok = λ id. false;
  bump_ok = λ id. false;
  answer = λ r. Answer.fails;
  meanwhile = λ id. [];
}

one_waits :
    count (λ t. promise_waits t && ltb (age_from t) (later.now - eval_give_up)) one_vow.rows ≤ 100
unfolding one_vow
one_waits = omega arith

stale-Left_example : Left 1 (process_due_evaluations later 10 one_vow).0
unfolding one_vow
stale-Left_example = stale-Left later 10 one_vow 1 vow_row refl refl (λ id. tt) one_waits refl refl
