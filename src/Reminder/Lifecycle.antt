-- ===== src/Reminder/Lifecycle.antt =====
-- The life of a reminder under every function of the table: the statuses that it passes through,
-- and what the end of it means.
use evi.Common.{
  ℕ, ◌<◌, String, ◌≡◌, refl, ◌∙◌, Bool, true, false, not, ◌&&◌, Option, none, some, List, [], ◌∷◌,
  arith, ◌⊎◌, inl, inr, if◌then◌else◌, All, update, All-update, Bool-cases,
}
use evi.Common.Int.{ℤ}
use evi.Common.Keyed.{get, Unique, get-update, Unique-update}
use evi.Reminder.{
  Reminder, Store, Status, Repeat, pending, firing, sent, done, cancelled, failed, is_recurring,
  is_due, claim_row, is_firing, finish_row, is_stuck, may_leave, delivered_or_pending,
  open_statuses, drop_snooze, create_reminder, claim_due, finish_fired, release_reminder,
  fail_reminder, requeue_stuck, snooze_reminder, complete_reminder, cancel_reminder,
}

-- The calls that the program makes on the table.
pub data Op : Type 0 where
  create : (ℕ → ℕ) → String → ℕ → Option Repeat → String → String → Option ℕ → ℕ → Op
  claim : (ℕ → Bool) → ℕ → ℕ → ℕ → Op
  finish : ℕ → ℕ → ℤ → Option ℕ → Op
  release : ℕ → Op
  fail : ℕ → Op
  requeue : ℕ → ℕ → Op
  snooze : ℕ → ℕ → Option String → Op
  complete : ℕ → Option String → ℕ → Op
  cancel : ℕ → Option String → Op

unfoldable pub apply : Op → Store → Store
apply (create day text due repeat chat from anchor now) s =
    (create_reminder day text due repeat chat from anchor now s).0
apply (claim locked db_now now limit) s = (claim_due locked db_now now limit s).0
apply (finish id fired_at drift_s next) s = (finish_fired id fired_at drift_s next s).0
apply (release id) s = release_reminder id s
apply (fail id) s = fail_reminder id s
apply (requeue db_now minutes) s = requeue_stuck db_now minutes s
apply (snooze id until chat) s = (snooze_reminder id until chat s).0
apply (complete id chat db_now) s = (complete_reminder id chat db_now s).0
apply (cancel id chat) s = (cancel_reminder id chat s).0

unfoldable pub run : List Op → Store → Store
run [] s = s
run (op ∷ ops) s = run ops (apply op s)

abbrev pub row : ℕ → Store → Option Reminder
row i s = get (λ (r : Reminder). r.id) i s.reminders

-- Ids are unique and below the counter (SERIAL PRIMARY KEY).
pub record IsValid (s : Store) : Type 0 where
  pub unique : Unique (λ (r : Reminder). r.id) s.reminders
  pub below : All (λ (r : Reminder). r.id < s.next_id) s.reminders

module _ (p : Reminder → Bool) (f : Reminder → Reminder)
    (keep : (r : Reminder) → (f r).id ≡ r.id) where
  pub update-IsValid :
      (s : Store) → IsValid s → IsValid (record s { reminders = update p f s.reminders })
  update-IsValid s v = record {
    unique = Unique-update (λ r. r.id) p f s.reminders keep v.unique;
    below = All-update (λ r. r.id < s.next_id) p f s.reminders (λ r _ h. rw (keep r) h) v.below;
  }

-- The diagram of statuses.
pub data Edge : Status → Status → Type 0 where
  take_up : Edge pending firing
  deliver : Edge firing sent
  give_back : Edge firing pending
  give_up : Edge firing failed
  again : Edge sent pending
  done_pending : Edge pending done
  done_firing : Edge firing done
  done_sent : Edge sent done
  cancel_pending : Edge pending cancelled
  cancel_sent : Edge sent cancelled

ruleset edges = (
  take_up, deliver, give_back, give_up, again, done_pending, done_firing, done_sent, cancel_pending,
  cancel_sent,
)

abbrev pub is_closed : Status → Bool
is_closed Status.done = true
is_closed Status.cancelled = true
is_closed Status.failed = true
is_closed _ = false

-- How one call may change one row.
pub record Change (r r' : Reminder) : Type 0 where
  pub edge : (r'.status ≡ r.status) ⊎ Edge r.status r'.status
  pub closed : is_closed r.status ≡ true → r' ≡ r
  pub same_text : r'.text ≡ r.text
  pub same_chat : r'.chat_id ≡ r.chat_id
  pub same_repeat : r'.repeat ≡ r.repeat

pub Change-refl : (r : Reminder) → Change r r
Change-refl r = record {
  edge = inl refl;
  closed = λ _. refl;
  same_text = refl;
  same_chat = refl;
  same_repeat = refl;
}

abbrev pub Changes : Reminder → ℕ → Store → Type 0
Changes r i s = (r' : Reminder) × (row i s ≡ some r') × Change r r'

module _ (p : Reminder → Bool) (f : Reminder → Reminder)
    (keep : (r : Reminder) → (f r).id ≡ r.id) where
  pub row-update :
      (i : ℕ) (s : Store) (r : Reminder)
      → row i s ≡ some r
      → row i (record s { reminders = update p f s.reminders }) ≡ some (if p r then f r else r)
  row-update i s r h = get-update (λ r. r.id) p f i s.reminders keep ∙ rw h refl

  pub update-Changes :
      (i : ℕ) (s : Store) (r : Reminder)
      → row i s ≡ some r
      → (p r ≡ true → Change r (f r))
      → Changes r i (record s { reminders = update p f s.reminders })
  update-Changes i s r h c = elim (Bool-cases (p r)) [
    | inl e ↦ (f r, row-update i s r h ∙ rw e refl, c e)
    | inr e ↦ (r, row-update i s r h ∙ rw e refl, Change-refl r)
  ]

pub claim-Change :
    (locked : ℕ → Bool) (db_now now : ℕ) (r : Reminder)
    → (is_due now r && not (locked r.id)) ≡ true
    → Change r (claim_row db_now r)
claim-Change locked db_now now r h = grind (arith, edges)

pub finish-Change :
    (id fired_at : ℕ) (drift_s : ℤ) (next : Option ℕ) (r : Reminder)
    → is_firing id r ≡ true
    → Change r (finish_row fired_at drift_s next r)
finish-Change id fired_at drift_s none r h = grind (arith, edges)
finish-Change id fired_at drift_s (some t) r h = grind (arith, edges)

pub release-Change :
    (id : ℕ) (r : Reminder) → is_firing id r ≡ true → Change r (record r { status = pending })
release-Change id r h = grind (arith, edges)

pub fail-Change :
    (id : ℕ) (r : Reminder) → is_firing id r ≡ true → Change r (record r { status = failed })
fail-Change id r h = grind (arith, edges)

pub requeue-Change :
    (db_now minutes : ℕ) (r : Reminder)
    → is_stuck db_now minutes r ≡ true
    → Change r (record r { status = pending })
requeue-Change db_now minutes r h = grind (arith, edges)

pub snooze-Change :
    (id until : ℕ) (chat : Option String) (r : Reminder)
    → may_leave id delivered_or_pending chat r ≡ true
    → Change r (record r { status = pending; snooze_until = some until })
snooze-Change id until none r h = grind (arith, edges)
snooze-Change id until (some c) r h = grind (arith, edges)

pub done-Change :
    (id : ℕ) (chat : Option String) (r : Reminder)
    → (not (is_recurring r) && may_leave id open_statuses chat r) ≡ true
    → Change r (record r { status = done; snooze_until = none })
done-Change id none r h = grind (arith, edges)
done-Change id (some c) r h = grind (arith, edges)

pub drop-Change :
    (id db_now : ℕ) (chat : Option String) (r : Reminder)
    → (is_recurring r && may_leave id open_statuses chat r) ≡ true
    → Change r (drop_snooze db_now r)
drop-Change id db_now none r h = ground arith
drop-Change id db_now (some c) r h = ground arith

pub cancel-Change :
    (id : ℕ) (chat : Option String) (r : Reminder)
    → may_leave id (pending ∷ sent ∷ []) chat r ≡ true
    → Change r (record r { status = cancelled })
cancel-Change id none r h = grind (arith, edges)
cancel-Change id (some c) r h = grind (arith, edges)
