-- ===== src/Reminder/Runs.antt =====
-- What holds of the table after any sequence of calls.
use evi.Common.{
  ℕ, suc, ◌<◌, ◌≡◌, refl, true, not, ◌&&◌, Option, none, some, List, [], ◌∷◌, arith, inl, inr, any,
  All-append, All-map_imp, Bool-cases, contains,
}
use evi.Common.Keyed.{get-append, Unique-append, chosen-meets, get-key}
use evi.Reminder.{
  Reminder, Store, sent, pending, failed, is_recurring, is_due, due_ids, claim_row, is_firing,
  finish_row, is_stuck, may_leave, delivered_or_pending, open_statuses, drop_snooze,
  create_reminder, claim_due, finish_fired, release_reminder, fail_reminder, requeue_stuck,
  snooze_reminder, complete_reminder, cancel_reminder, done, cancelled,
}
use evi.Reminder.Lifecycle.{
  Op, create, claim, finish, release, fail, requeue, snooze, complete, cancel, apply, run, row,
  IsValid, update-IsValid, update-Changes, Change-refl, Changes, is_closed, claim-Change,
  finish-Change, release-Change, fail-Change, requeue-Change, snooze-Change, done-Change,
  drop-Change, cancel-Change,
}

pub keep_finish : (t : ℕ) (d : _) (n : Option ℕ) (r : Reminder) → (finish_row t d n r).id ≡ r.id
keep_finish t d none r = refl
keep_finish t d (some n) r = refl

keep_drop : (t : ℕ) (r : Reminder) → (drop_snooze t r).id ≡ r.id
keep_drop t r = ground arith

-- Every call keeps the ids unique and below the counter.
pub apply-IsValid : (op : Op) (s : Store) → IsValid s → IsValid (apply op s)
unfolding apply create_reminder claim_due finish_fired release_reminder fail_reminder requeue_stuck
    snooze_reminder complete_reminder cancel_reminder
apply-IsValid (create day text due repeat chat from anchor now) s v = record {
  unique = Unique-append (λ r. r.id) s.reminders _ v.below v.unique;
  below =
      All-append (λ r. r.id < suc s.next_id) s.reminders _
        (All-map_imp (λ r h. omega arith) s.reminders v.below) (omega arith, tt);
}
apply-IsValid (claim locked db_now now limit) s v =
    update-IsValid (λ r. contains r.id (due_ids locked now limit s.reminders)) (claim_row db_now)
      (λ r. refl) s v
apply-IsValid (finish id t d n) s v = elim (Bool-cases (any (is_firing id) s.reminders)) [
  | inl e ↦
      rw (e, apply, finish_fired)
        (record {
          unique =
              (update-IsValid (is_firing id) (finish_row t d n) (keep_finish t d n) s v).unique;
          below = (update-IsValid (is_firing id) (finish_row t d n) (keep_finish t d n) s v).below;
        })
  | inr e ↦ rw (e, apply, finish_fired) v
]
apply-IsValid (release id) s v =
    update-IsValid (is_firing id) (λ r. record r { status = pending }) (λ r. refl) s v
apply-IsValid (fail id) s v =
    update-IsValid (is_firing id) (λ r. record r { status = failed }) (λ r. refl) s v
apply-IsValid (requeue db_now minutes) s v =
    update-IsValid (is_stuck db_now minutes) (λ r. record r { status = pending }) (λ r. refl) s v
apply-IsValid (snooze id until chat) s v =
    update-IsValid (may_leave id delivered_or_pending chat)
      (λ r. record r { status = pending; snooze_until = some until }) (λ r. refl) s v
apply-IsValid (complete id chat db_now) s v =
    elim (Bool-cases
      (any (λ r. not (is_recurring r) && may_leave id open_statuses chat r) s.reminders)) [
        | inl e ↦
            rw (e, apply, complete_reminder)
              (update-IsValid (λ r. not (is_recurring r) && may_leave id open_statuses chat r)
                (λ r. record r { status = done; snooze_until = none }) (λ r. refl) s v)
        | inr e ↦
            rw (e, apply, complete_reminder)
              (update-IsValid (λ r. is_recurring r && may_leave id open_statuses chat r)
                (drop_snooze db_now) (keep_drop db_now) s v)
      ]
apply-IsValid (cancel id chat) s v =
    update-IsValid (may_leave id (pending ∷ sent ∷ []) chat) (λ r. record r { status = cancelled })
      (λ r. refl) s v

-- A row stays in the table under every call, and its status moves along an edge of the diagram or
-- not at all.
pub apply-Changes :
    (op : Op) (i : ℕ) (s : Store) (r : Reminder)
    → IsValid s
    → row i s ≡ some r
    → Changes r i (apply op s)
unfolding apply create_reminder claim_due finish_fired release_reminder fail_reminder requeue_stuck
    snooze_reminder complete_reminder cancel_reminder due_ids
apply-Changes (create day text due repeat chat from anchor now) i s r v h =
    (r, get-append (λ r. r.id) i s.reminders _ r h, Change-refl r)
apply-Changes (claim locked db_now now limit) i s r v h =
    update-Changes (λ r. contains r.id (due_ids locked now limit s.reminders)) (claim_row db_now)
      (λ r. refl) i s r h
      (λ c. claim-Change locked db_now now r (
        chosen-meets (λ r. r.id) _ (λ r. is_due now r && not (locked r.id)) limit i s.reminders
          v.unique h (rw (get-key (λ r. r.id) i s.reminders r h) at c)))
apply-Changes (finish id t d n) i s r v h = elim (Bool-cases (any (is_firing id) s.reminders)) [
  | inl e ↦
      rw (e, apply, finish_fired)
        (update-Changes (is_firing id) (finish_row t d n) (keep_finish t d n) i s r h
          (finish-Change id t d n r))
  | inr e ↦ rw (e, apply, finish_fired) (r, h, Change-refl r)
]
apply-Changes (release id) i s r v h =
    update-Changes (is_firing id) (λ r. record r { status = pending }) (λ r. refl) i s r h
      (release-Change id r)
apply-Changes (fail id) i s r v h =
    update-Changes (is_firing id) (λ r. record r { status = failed }) (λ r. refl) i s r h
      (fail-Change id r)
apply-Changes (requeue db_now minutes) i s r v h =
    update-Changes (is_stuck db_now minutes) (λ r. record r { status = pending }) (λ r. refl) i s r
      h (requeue-Change db_now minutes r)
apply-Changes (snooze id until chat) i s r v h =
    update-Changes (may_leave id delivered_or_pending chat)
      (λ r. record r { status = pending; snooze_until = some until }) (λ r. refl) i s r h
      (snooze-Change id until chat r)
apply-Changes (complete id chat db_now) i s r v h =
    elim (Bool-cases
      (any (λ r. not (is_recurring r) && may_leave id open_statuses chat r) s.reminders)) [
        | inl e ↦
            rw (e, apply, complete_reminder)
              (update-Changes (λ r. not (is_recurring r) && may_leave id open_statuses chat r)
                (λ r. record r { status = done; snooze_until = none }) (λ r. refl) i s r h
                (done-Change id chat r))
        | inr e ↦
            rw (e, apply, complete_reminder)
              (update-Changes (λ r. is_recurring r && may_leave id open_statuses chat r)
                (drop_snooze db_now) (keep_drop db_now) i s r h (drop-Change id db_now chat r))
      ]
apply-Changes (cancel id chat) i s r v h =
    update-Changes (may_leave id (pending ∷ sent ∷ []) chat) (λ r. record r { status = cancelled })
      (λ r. refl) i s r h (cancel-Change id chat r)

pub run-IsValid : (ops : List Op) (s : Store) → IsValid s → IsValid (run ops s)
unfolding run
run-IsValid [] s v = v
run-IsValid (op ∷ ops) s v = run-IsValid ops (apply op s) (apply-IsValid op s v)

-- A reminder that is done, cancelled or failed is never changed again, by any calls.
pub closed_stays :
    (ops : List Op) (i : ℕ) (s : Store) (r : Reminder)
    → IsValid s
    → row i s ≡ some r
    → is_closed r.status ≡ true
    → row i (run ops s) ≡ some r
unfolding run
closed_stays [] i s r v h c = h
closed_stays (op ∷ ops) i s r v h c =
    let (r', h', change) = apply-Changes op i s r v h in
    let same = change.closed c in
    closed_stays ops i (apply op s) r (apply-IsValid op s v) (rw same at h') c
