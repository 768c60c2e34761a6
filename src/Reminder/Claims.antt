-- ===== src/Reminder/Claims.antt =====
-- Ownership of due reminders: what `claim_due` hands out, and what `finish_fired` records.
use mathlib.Core.Option.{some-injective}
use evi.Common.{
  ℕ, ◌≤◌, ◌≡◌, ◌≢◌, refl, sym, ◌∙◌, Bool, true, false, not, ◌&&◌, Option, some, [], ◌∷◌, ◌++◌,
  arith, if◌then◌else◌, All, All-both, All-map_imp, All-select, All-sort, update, count, contains,
  update-All, select-meets,
}
use evi.Common.Int.{ℤ}
use evi.Common.Keyed.{All-found, chosen-meets, meets-chosen, any-get-some, select-get, get-key}
use evi.Reminder.{
  Reminder, Store, firing, same_status, effective, by_effective, is_due, due_ids, claim_row,
  claim_due, is_firing, finish_row, finish_fired, by_effective_id,
}
use evi.Reminder.Lifecycle.{row, IsValid, row-update, update-IsValid}

module _ (locked : ℕ → Bool) (db_now now limit : ℕ) (s : Store) (v : IsValid s) where
  abbrev after : Store
  after = (claim_due locked db_now now limit s).0

  abbrev is_chosen : Reminder → Bool
  is_chosen r = contains r.id (due_ids locked now limit s.reminders)

  -- What is known of a row that the claim returns.
  pub record WasDue (c : Reminder) : Type 0 where
    pub before : Reminder
    pub found : row c.id s ≡ some before
    pub due : is_due now before ≡ true
    pub unlocked : locked before.id ≡ false
    pub claimed : c ≡ claim_row db_now before
    pub held : row c.id after ≡ some c

  row-claim :
      (i : ℕ) (r : Reminder)
      → row i s ≡ some r
      → row i after ≡ some (if is_chosen r then claim_row db_now r else r)
  unfolding claim_due
  row-claim i r h = row-update is_chosen (claim_row db_now) (λ r. refl) i s r h

  chosen_due :
      (r : Reminder)
      → row r.id s ≡ some r
      → is_chosen r ≡ true
      → (is_due now r && not (locked r.id)) ≡ true
  unfolding due_ids
  chosen_due r h c =
      chosen-meets (λ (x : Reminder). x.id) _ (λ r. is_due now r && not (locked r.id)) limit r.id
        s.reminders v.unique h c

  pub claimed-WasDue : All WasDue (claim_due locked db_now now limit s).1
  unfolding claim_due
  claimed-WasDue = All-sort WasDue by_effective_id _ (
      All-both (λ c e w. w e) _ (select-meets is_chosen _)
        (All-select (λ c. is_chosen c ≡ true → WasDue c) is_chosen _
          (update-All (λ r. row r.id s ≡ some r) (λ c. is_chosen c ≡ true → WasDue c) is_chosen
            (claim_row db_now) s.reminders
            (λ r e h _.
              let d = chosen_due r h e in
              record {
                before = r;
                found = h;
                due = ground arith;
                unlocked = ground arith;
                claimed = refl;
                held = row-claim r.id r h ∙ rw e;
              })
            (λ r e h e'. cc) (All-found (λ r. r.id) s.reminders v.unique))))

  after-IsValid : IsValid after
  unfolding claim_due
  after-IsValid = update-IsValid is_chosen (claim_row db_now) (λ r. refl) s v

  -- While the limit leaves room for every due row that nobody holds, each of them is taken.
  pub due_claimed :
      (i : ℕ) (r : Reminder)
      → row i s ≡ some r
      → is_due now r ≡ true
      → locked r.id ≡ false
      → count (λ x. is_due now x && not (locked x.id)) s.reminders ≤ limit
      → row i after ≡ some (claim_row db_now r)
  unfolding due_ids
  due_claimed i r h d u room =
      let k = get-key (λ (x : Reminder). x.id) i s.reminders r h in
      let c =
        meets-chosen (λ (x : Reminder). x.id) by_effective (λ r. is_due now r && not (locked r.id))
          limit i s.reminders r h (ground arith) room in
      row-claim i r h ∙ rw (k, c)

-- A row that one claim returned is not returned by the next, whatever their clocks and limits.
pub claims_exclusive :
    (locked locked' : ℕ → Bool) (db_now now limit db_now' now' limit' : ℕ) (s : Store)
    → IsValid s
    → All
        (λ a.
          All
            (λ b. b.id ≢ a.id)
            (claim_due locked' db_now' now' limit' (claim_due locked db_now now limit s).0).1)
        (claim_due locked db_now now limit s).1
claims_exclusive locked locked' db_now now limit db_now' now' limit' s v =
    let s' = (claim_due locked db_now now limit s).0 in
    let v' = after-IsValid locked db_now now limit s v in
    All-map_imp
      (λ a w.
        All-map_imp
          (λ b w' e.
            let same : a ≡ w'.before =
              some-injective a w'.before (sym w.held ∙ rw (← e) w'.found) in
            let d = w'.due in ground (arith, w.claimed))
          _ (claimed-WasDue locked' db_now' now' limit' s' v'))
      _ (claimed-WasDue locked db_now now limit s v)

-- `finish_fired` on a row that is being fired: one entry of the log with the time for which the
-- delivery was scheduled, and the row closed or moved on. All else stays.
pub finish_firing :
    (id fired_at : ℕ) (drift_s : ℤ) (next : Option ℕ) (s : Store) (r : Reminder)
    → IsValid s
    → row id s ≡ some r
    → r.status ≡ firing
    → finish_fired id fired_at drift_s next s ≡ (
      record s {
        reminders = update (is_firing id) (finish_row fired_at drift_s next) s.reminders;
        fires =
            s.fires
            ++ record {
              reminder_id = id;
              due_at = effective r;
              fired_at = fired_at;
              drift_s = drift_s;
            }
              ∷ [];
      },
      true,
    )
unfolding finish_fired
finish_firing id t d n s r v h f = rw (
  any-get-some (λ (x : Reminder). x.id) (λ x. same_status x.status firing) id s.reminders r v.unique
      h,
  f,
  select-get (λ (x : Reminder). x.id) id s.reminders r v.unique h,
  get-key (λ (x : Reminder). x.id) id s.reminders r h,
)

-- On a row in any other status it changes nothing, logs nothing and says so.
pub finish_refused :
    (id fired_at : ℕ) (drift_s : ℤ) (next : Option ℕ) (s : Store) (r : Reminder)
    → IsValid s
    → row id s ≡ some r
    → r.status ≢ firing
    → finish_fired id fired_at drift_s next s ≡ (s, false)
unfolding finish_fired
finish_refused id t d n s r v h f =
    rw
      (any-get-some (λ (x : Reminder). x.id) (λ x. same_status x.status firing) id s.reminders r
        v.unique h)
      (ground (arith, f))
