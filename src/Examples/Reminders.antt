-- ===== src/Examples/Reminders.antt =====
-- A one-off reminder and a daily one, claimed, sent and closed.
use evi.Common.{
  not, select, ◌==◌, ◌*◌, ◌≡◌, ◌≢◌, refl, none, some, true, false, List, [], ◌∷◌, All, arith,
}
use evi.Common.Int.{pos}
use evi.Examples.Series.{sao_paulo, at_nine}
use evi.Reminder.{
  Reminder, Store, daily, pending, firing, cancelled, create_reminder, claim_due, claim_row,
  due_ids, finish_row, is_due,
}
use evi.Reminder.Lifecycle.{Op, create, claim, snooze, complete, apply, run, row, IsValid, Changes}
use evi.Reminder.Runs.{apply-Changes, closed_stays, run-IsValid}
use evi.Reminder.Claims.{claims_exclusive, due_claimed}
use evi.SendResult
use evi.SendResult.{
  SendResult, http_error, transport_error, answered, post_with_retry, attempt_from, judge,
  transport,
}
use evi.FireDue.{
  Env, Process, Pending, fire_row, no_counts, prepare, next_or_tomorrow, seconds_between,
}
use evi.FireDue.Fates.{delivered_closed}
use evi.FireDue.Flushed.{flush_closes}

abbrev empty : Store
empty = record { reminders = []; fires = []; next_id = 1 }

empty-IsValid : IsValid empty
empty-IsValid = record { unique = tt; below = tt }

-- Reminder 1 is due once, and reminder 2 daily.
abbrev script : List Op
script =
    create (λ t. 1) "água" (at_nine 31) none "c" "chat" none 5
    ∷ create (λ t. 1) "remédio" (at_nine 40) (some daily) "c" "chat" none 5
    ∷ []

abbrev water : Reminder
water = record {
  id = 1;
  text = "água";
  due_at = at_nine 31;
  repeat = none;
  status = pending;
  chat_id = "c";
  created_from = "chat";
  created_at = 5;
  claimed_at = none;
  fired_at = none;
  drift_s = none;
  anchor_day = none;
  snooze_until = none;
}

abbrev fresh : Store
fresh = record {
  reminders =
      water
      ∷ record water { id = 2; text = "remédio"; due_at = at_nine 40; repeat = some daily }
      ∷ [];
  fires = [];
  next_id = 3;
}

fresh-run : run script empty ≡ fresh
unfolding run apply create_reminder
fresh-run = refl

fresh-IsValid : IsValid fresh
unfolding run apply create_reminder
fresh-IsValid = run-IsValid script empty empty-IsValid

abbrev claimed : Store
claimed = record fresh {
  reminders =
      record water { status = firing; claimed_at = some 7 }
      ∷ record water { id = 2; text = "remédio"; due_at = at_nine 40; repeat = some daily }
      ∷ [];
}

claim_one : (claim_due (λ i. false) 7 (at_nine 31) 20 fresh).0 ≡ claimed
unfolding claim_due due_ids
claim_one = refl

claimed-IsValid : IsValid claimed
unfolding run apply claim_due create_reminder due_ids
claimed-IsValid = run-IsValid (claim (λ i. false) 7 (at_nine 31) 20 ∷ []) fresh fresh-IsValid

apply-Changes_example : Changes water 1 (apply (claim (λ i. false) 7 (at_nine 31) 20) fresh)
apply-Changes_example =
    apply-Changes (claim (λ i. false) 7 (at_nine 31) 20) 1 fresh water fresh-IsValid refl

abbrev cancelled_water : Reminder
cancelled_water = record water { status = cancelled }

closed_stays_example :
    row 1 (
      run
        (snooze 1 (at_nine 50) none ∷ complete 1 none 9 ∷ [])
        (record fresh { reminders = cancelled_water ∷ [] }))
    ≡ some cancelled_water
closed_stays_example =
    closed_stays (snooze 1 (at_nine 50) none ∷ complete 1 none 9 ∷ []) 1
      (record fresh { reminders = cancelled_water ∷ [] }) cancelled_water
      (record { unique = (tt, tt); below = (omega arith, tt) }) refl refl

claims_exclusive_example :
    All
      (λ a.
        All
          (λ b. b.id ≢ a.id)
          (claim_due
            (λ i. false)
            8
            (at_nine 41)
            20
            (claim_due (λ i. false) 7 (at_nine 31) 20 fresh).0).1)
      (claim_due (λ i. false) 7 (at_nine 31) 20 fresh).1
claims_exclusive_example =
    claims_exclusive (λ i. false) (λ i. false) 7 (at_nine 31) 20 8 (at_nine 41) 20 fresh
      fresh-IsValid

due_claimed_example :
    row 1 (claim_due (λ i. false) 7 (at_nine 31) 20 fresh).0 ≡ some (claim_row 7 water)
due_claimed_example =
    due_claimed (λ i. false) 7 (at_nine 31) 20 fresh fresh-IsValid 1 water refl refl refl
      (omega arith)

abbrev held : Reminder
held = record water { status = firing; claimed_at = some 7 }

-- A tick in which every call of the database returns and every send is delivered.
abbrev env : Env
env = record {
  clock = record { zone = sao_paulo; hour_minute = λ l. "06:00"; day_month = λ l. "31/01" };
  now = at_nine 31;
  pinned = true;
  db_now = 2 * at_nine 31;
  locked = λ i. false;
  flush_ok = λ p. true;
  requeue_ok = true;
  claim_ok = true;
  give_back_ok = λ i. true;
  finish_ok = λ i attempt. true;
  send = λ r text. some (SendResult.ok 1 none);
  clock_after = λ i. at_nine 31;
  during = λ i. [];
}

abbrev start : Process
start = record { store = fresh; pending_finish = []; warned_not_configured = false }

abbrev taken : Process
taken = record { store = claimed; pending_finish = []; warned_not_configured = false }

delivered_closed_example :
    let out = (fire_row env held (taken, no_counts)).0 in
    (row 1 out.store
      ≡ some (
          finish_row
            (at_nine 31)
            (seconds_between (at_nine 31) (at_nine 31))
            (next_or_tomorrow sao_paulo held (at_nine 31))
            held))
    × (is_due (at_nine 31) (
          finish_row
            (at_nine 31)
            (seconds_between (at_nine 31) (at_nine 31))
            (next_or_tomorrow sao_paulo held (at_nine 31))
            held)
        ≡ false)
    × (out.pending_finish ≡ [])
unfolding run
delivered_closed_example =
    delivered_closed env held taken no_counts claimed-IsValid held refl refl refl refl

abbrev no_network : Env
no_network = record env { send = λ r text. some (SendResult.fail transport 2) }

abbrev item : Pending
item = record {
  id = 1;
  fired_at = at_nine 31;
  drift_s = pos 0;
  next_due_at = next_or_tomorrow sao_paulo held (at_nine 31);
}

-- Two items are kept: the first is of another reminder, and its call raises again.
abbrev other_item : Pending
other_item = record item { id = 2 }

abbrev half_flushed : Env
half_flushed = record env { flush_ok = λ p. p.id == 1 }

abbrev waiting : Process
waiting = record taken { pending_finish = other_item ∷ item ∷ [] }

flush_closes_example :
    let closed =
      finish_row (at_nine 31) (pos 0) (next_or_tomorrow sao_paulo held (at_nine 31)) held in
    (row 1 (prepare half_flushed waiting).store ≡ some closed)
    × (is_due (at_nine 31) closed ≡ false)
    × ((prepare half_flushed waiting).pending_finish
        ≡ select (λ q. not (half_flushed.flush_ok q)) waiting.pending_finish)
flush_closes_example =
    flush_closes half_flushed waiting held held (at_nine 31) (pos 0) (other_item ∷ []) []
      claimed-IsValid refl refl refl ((λ e. cc), tt) refl

abbrev no_flush : Env
no_flush = record env { flush_ok = λ p. false }
