-- ===== src/FireDue/Flushed.antt =====
-- The flush at the start of a tick, `_flush_pending_finish`: what it closes and what it keeps.
use evi.Common.{
  ℕ, ◌≡◌, ◌≢◌, refl, ◌∙◌, Bool, true, false, Option, none, some, [], ◌∷◌, ◌++◌, arith,
  if◌then◌else◌, if_both, Bool-cases, inl, inr, List, not, ap, All, All-map_imp, any, select,
}
use evi.Common.Int.{ℤ}
use evi.Common.Keyed.{get-key}
use evi.Calendar.Zone.{Zone}
use evi.Reminder.{
  Reminder, Store, firing, is_due, is_firing, finish_row, finish_fired, log_reminder_fire,
}
use evi.Reminder.Lifecycle.{row, IsValid, row-update}
use evi.Reminder.Runs.{keep_finish}
use evi.FireDue.Ticks.{flush-IsValid}
use evi.FireDue.{Env, Process, Pending, next_or_tomorrow, flush_pending_finish, prepare}
use evi.FireDue.Fates.{closed_not_due, row-finish, requeue_passes}

finished_status :
    (t : ℕ) (d : ℤ) (next : Option ℕ) (x : Reminder) → (finish_row t d next x).status ≢ firing
finished_status t d none x e = cc
finished_status t d (some n) x e = cc

finished_not_firing :
    (t : ℕ) (d : ℤ) (next : Option ℕ) (id : ℕ) (x : Reminder)
    → is_firing id (finish_row t d next x) ≡ false
finished_not_firing t d none id x = ground arith
finished_not_firing t d (some n) id x = ground arith

-- A finish passes over a row that it does not find being fired under its id.
finish_passes :
    (id t : ℕ) (d : ℤ) (next : Option ℕ) (i : ℕ) (s : Store) (x : Reminder)
    → row i s ≡ some x
    → is_firing id x ≡ false
    → row i (finish_fired id t d next s).0 ≡ some x
unfolding finish_fired log_reminder_fire
finish_passes id t d next i s x h no_hit =
    let moved = row-update (is_firing id) (finish_row t d next) (keep_finish t d next) i s x h in
    if_both (λ (out : Store × Bool). row i out.0 ≡ some x) (any (is_firing id) s.reminders)
      (λ _. moved ∙ rw no_hit refl) (λ _. h)

All-of : {A : Type 0} (P : A → Type 0) → ((x : A) → P x) → (xs : List A) → All P xs
All-of P f [] = tt
All-of P f (x ∷ xs) = (f x, All-of P f xs)

module _ (works : Pending → Bool) where
  -- What is kept are the items whose call raised.
  flush-kept :
      (ps : List Pending) (s : Store)
      → (flush_pending_finish works ps s).1 ≡ select (λ q. not (works q)) ps
  unfolding flush_pending_finish
  flush-kept [] s = refl
  flush-kept (q ∷ qs) s = elim (Bool-cases (works q)) [
    | inl e ↦ rw e (flush-kept qs (finish_fired q.id q.fired_at q.drift_s q.next_due_at s).0)
    | inr e ↦ rw e (ap (λ l. q ∷ l) (flush-kept qs s))
  ]

  flush-append :
      (ps qs : List Pending) (s : Store)
      → (flush_pending_finish works (ps ++ qs) s).0
        ≡ (flush_pending_finish works qs (flush_pending_finish works ps s).0).0
  unfolding flush_pending_finish
  flush-append [] qs s = refl
  flush-append (p ∷ ps) qs s =
      flush-append ps qs
        (if works p then (finish_fired p.id p.fired_at p.drift_s p.next_due_at s).0 else s)

  -- The items of a flush pass over a row that none of them finds being fired under its id.
  flush_passes :
      (i : ℕ) (x : Reminder) (ps : List Pending) (s : Store)
      → All (λ q. is_firing q.id x ≡ false) ps
      → row i s ≡ some x
      → row i (flush_pending_finish works ps s).0 ≡ some x
  unfolding flush_pending_finish
  flush_passes i x [] s a h = h
  flush_passes i x (p ∷ ps) s a h =
      flush_passes i x ps
        (if works p then (finish_fired p.id p.fired_at p.drift_s p.next_due_at s).0 else s) a.1
        (if_both (λ (t : Store). row i t ≡ some x) (works p)
          (λ _. finish_passes p.id p.fired_at p.drift_s p.next_due_at i s x h a.0) (λ _. h))

  -- An item whose call returns, met before any other of its id, closes its row, and the items after it
  -- leave it closed.
  flush-closed :
      (item : Pending) (x : Reminder) (before after : List Pending) (s : Store)
      → IsValid s
      → row item.id s ≡ some x
      → x.status ≡ firing
      → All (λ q. q.id ≢ item.id) before
      → works item ≡ true
      → row item.id (flush_pending_finish works (before ++ item ∷ after) s).0
        ≡ some (finish_row item.fired_at item.drift_s item.next_due_at x)
  unfolding flush_pending_finish
  flush-closed item x before after s v h f others returns =
      let k = get-key (λ (r : Reminder). r.id) item.id s.reminders x h in
      let there = (flush_pending_finish works before s).0 in
      let passed =
        flush_passes item.id x before s
          (All-map_imp (λ q other. ground (arith, other, k)) before others) h in
      let y = finish_row item.fired_at item.drift_s item.next_due_at x in
      let shut =
        row-finish item.id item.fired_at item.drift_s item.next_due_at there x
          (flush-IsValid works before s v) passed f in
      rw (flush-append before (item ∷ after) s, returns)
        (flush_passes item.id y after
          (finish_fired item.id item.fired_at item.drift_s item.next_due_at there).0
          (All-of (λ q. is_firing q.id y ≡ false)
            (λ q. finished_not_firing item.fired_at item.drift_s item.next_due_at q.id x) after)
          shut)

-- The item of a delivered row that could not be closed.
abbrev pub kept_item : Zone → Reminder → ℕ → ℤ → Pending
kept_item z r fired_at drift_s = record {
  id = r.id;
  fired_at = fired_at;
  drift_s = drift_s;
  next_due_at = next_or_tomorrow z r fired_at;
}

-- On a valid table, where delivered rows were kept, one of which is still being fired, no item of its
-- id was kept before its own, and the call of the database for its item returns, the next tick closes
-- it as it was fired, before any claim, wherever its item stands among those that are kept; it is not
-- due at the instant of its delivery. Of the items, exactly those for which the call raises are kept
-- again.
pub flush_closes :
    (env : Env) (p : Process) (r x : Reminder) (fired_at : ℕ) (drift_s : ℤ)
    (before after : List Pending)
    → IsValid p.store
    → row r.id p.store ≡ some x
    → x.status ≡ firing
    → p.pending_finish ≡ before ++ kept_item env.clock.zone r fired_at drift_s ∷ after
    → All (λ q. q.id ≢ r.id) before
    → env.flush_ok (kept_item env.clock.zone r fired_at drift_s) ≡ true
    → let closed = finish_row fired_at drift_s (next_or_tomorrow env.clock.zone r fired_at) x in
      (row r.id (prepare env p).store ≡ some closed)
      × (is_due fired_at closed ≡ false)
      × ((prepare env p).pending_finish ≡ select (λ q. not (env.flush_ok q)) p.pending_finish)
unfolding prepare
flush_closes env p r x fired_at drift_s before after v h f kept others works =
    let next = next_or_tomorrow env.clock.zone r fired_at in
    let item = kept_item env.clock.zone r fired_at drift_s in
    let closed = finish_row fired_at drift_s next x in
    let flushed = (flush_pending_finish env.flush_ok p.pending_finish p.store).0 in
    let shut : row r.id flushed ≡ some closed =
      rw kept (flush-closed env.flush_ok item x before after p.store v h f others works) in
    (
      if_both (λ (t : Store). row r.id t ≡ some closed) env.requeue_ok
          (λ _.
            requeue_passes env.db_now r.id flushed closed shut
              (finished_status fired_at drift_s next x))
          (λ _. shut),
      closed_not_due env.clock.zone r x fired_at drift_s,
      flush-kept env.flush_ok p.pending_finish p.store,
    )
