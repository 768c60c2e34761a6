-- ===== src/Briefing/Ops.antt =====
-- The calls that change the log of the briefings, as data, and what a briefing that was sent keeps.
use evi.Common.{
  any-append, ℕ, suc, update-All, String, Bool, true, false, ◌&&◌, ◌||◌, Option, none, List, [],
  ◌∷◌, ◌++◌, ◌≡◌, refl, ◌∙◌, arith, All, All-append, All-update, any, update, find?, if_both,
  Bool-cases, inl, inr, str_eq, eq_iff,
}
use evi.Briefing.{
  Report, Entry, Log, entry, is_for, is_abandoned, recorded, replied, in_window, claim_briefing,
  record_briefing, briefing_sent_today, mark_briefing_replied_window, mark_briefing_replied,
  set_briefing_feedback,
}

pub data Op : Type 0 where
  claim : ℕ → String → ℕ → ℕ → Op
  recording : ℕ → String → Bool → List Report → ℕ → Op
  answer_window : ℕ → ℕ → Op
  answer : ℕ → String → ℕ → Op
  feedback : ℕ → String → String → Op

unfoldable pub apply : Op → Log → Log
apply (claim day kind stale db_now) s = (claim_briefing day kind stale db_now s).0
apply (recording day kind ok sections db_now) s = (record_briefing day kind ok sections db_now s).0
apply (answer_window hours db_now) s = (mark_briefing_replied_window hours db_now s).0
apply (answer day kind db_now) s = (mark_briefing_replied day kind db_now s).0
apply (feedback day kind value) s = (set_briefing_feedback day kind value s).0

unfoldable pub run : List Op → Log → Log
run [] s = s
run (op ∷ ops) s = run ops (apply op s)

-- There is a row of the day and kind, and every such row was sent.
abbrev pub Sent : ℕ → String → Log → Type 0
Sent day kind s =
    (any (is_for day kind) s.rows ≡ true) × All (λ r. is_for day kind r ≡ true → r.ok ≡ true) s.rows

-- An update that keeps the key of a row and whether it was sent.
abbrev KeepsSent : (Entry → Entry) → Type 0
KeepsSent f =
    (r : Entry) → ((f r).day ≡ r.day) × ((f r).kind ≡ r.kind) × (r.ok ≡ true → (f r).ok ≡ true)

-- Every row of the day and kind is ok, then there is one that is.
any-sent :
    (day : ℕ) (kind : String) (xs : List Entry)
    → any (is_for day kind) xs ≡ true
    → All (λ r. is_for day kind r ≡ true → r.ok ≡ true) xs
    → any (λ r. is_for day kind r && r.ok) xs ≡ true
any-sent day kind [] e h = e
any-sent day kind (x ∷ xs) e h = elim (Bool-cases (is_for day kind x)) [
  | inl i ↦ rw (i, h.0 i) refl
  | inr i ↦ rw i (any-sent day kind xs (rw i at e) h.1)
]

pub Sent-briefing_sent_today :
    (day : ℕ) (kind : String) (s : Log) → Sent day kind s → briefing_sent_today day kind s ≡ true
unfolding briefing_sent_today
Sent-briefing_sent_today day kind s (e, h) = any-sent day kind s.rows e h

key_of :
    (day : ℕ) (kind : String) (r : Entry)
    → is_for day kind r ≡ true
    → (r.day ≡ day) × (r.kind ≡ kind)
key_of day kind r i = (ground (arith, eq_iff r.kind kind, i), ground (arith, eq_iff r.kind kind, i))

module _ (day : ℕ) (kind : String) where
  any-update :
      (p : Entry → Bool) (f : Entry → Entry) (xs : List Entry)
      → KeepsSent f
      → any (is_for day kind) (update p f xs) ≡ any (is_for day kind) xs
  any-update p f [] keep = refl
  any-update p f (x ∷ xs) keep = elim (Bool-cases (p x)) [
    | inl e ↦ rw (e, (keep x).0, (keep x).1, any-update p f xs keep) refl
    | inr e ↦ rw (e, any-update p f xs keep) refl
  ]

  update-Sent :
      (p : Entry → Bool) (f : Entry → Entry) (n : ℕ) (s : Log)
      → KeepsSent f
      → Sent day kind s
      → Sent day kind (record s { rows = update p f s.rows; next_id = n })
  update-Sent p f n s keep (e, h) = (
    rw (any-update p f s.rows keep) e,
    All-update (λ r. is_for day kind r ≡ true → r.ok ≡ true) p f s.rows
        (λ x _ k i. (keep x).2 (k (rw ((keep x).0, (keep x).1) at i))) h,
  )

  -- A row that is new to its own key is not of a key that is there.
  append-Sent :
      (r : Entry) (n : ℕ) (s : Log)
      → any (is_for r.day r.kind) s.rows ≡ false
      → Sent day kind s
      → Sent day kind (record s { rows = s.rows ++ r ∷ []; next_id = n })
  append-Sent r n s new (e, h) = (
    any-append (is_for day kind) s.rows _ ∙ rw e refl,
    All-append (λ r. is_for day kind r ≡ true → r.ok ≡ true) s.rows _ h
        ((λ i. absurd (clash i)), tt),
  )
    where
      clash : is_for day kind r ≡ true → ⊥
      clash i =
          let (d, k) = key_of day kind r i in
          let found : any (is_for r.day r.kind) s.rows ≡ true = rw (d, k) e in
          ground (arith, found, new)

-- What each call leaves of a briefing that was sent.
module _ (day : ℕ) (kind : String) where
  pub claim-Sent :
      (d : ℕ) (k : String) (stale db_now : ℕ) (s : Log)
      → Sent day kind s
      → Sent day kind (claim_briefing d k stale db_now s).0
  unfolding claim_briefing
  claim-Sent d k stale db_now s h =
      if_both (λ (out : Log × Option ℕ). Sent day kind out.0) (any (is_for d k) s.rows)
        (λ _.
          update-Sent day kind _ (λ r. record r { sent_at = db_now }) (suc s.next_id) s
            (λ r. (refl, refl, λ o. o)) h)
        (λ new. append-Sent day kind (entry s.next_id d k false [] db_now) (suc s.next_id) s new h)

  record-Sent :
      (d : ℕ) (k : String) (ok : Bool) (sections : List Report) (db_now : ℕ) (s : Log)
      → Sent day kind s
      → Sent day kind (record_briefing d k ok sections db_now s).0
  unfolding record_briefing
  record-Sent d k ok sections db_now s h =
      if_both (λ (out : Log × Option ℕ). Sent day kind out.0) (any (is_for d k) s.rows)
        (λ _.
          update-Sent day kind _ (recorded ok sections db_now) (suc s.next_id) s
            (λ r. (refl, refl, λ o. rw o refl)) h)
        (λ new.
          append-Sent day kind (entry s.next_id d k ok sections db_now) (suc s.next_id) s new h)

  apply-Sent : (op : Op) (s : Log) → Sent day kind s → Sent day kind (apply op s)
  unfolding apply mark_briefing_replied_window mark_briefing_replied set_briefing_feedback
  apply-Sent (claim d k stale db_now) s h = claim-Sent d k stale db_now s h
  apply-Sent (recording d k ok sections db_now) s h = record-Sent d k ok sections db_now s h
  apply-Sent (answer_window hours db_now) s h =
      update-Sent day kind (in_window hours db_now) (replied db_now) s.next_id s
        (λ r. (refl, refl, λ o. o)) h
  apply-Sent (answer d k db_now) s h =
      update-Sent day kind _ (replied db_now) s.next_id s (λ r. (refl, refl, λ o. o)) h
  apply-Sent (feedback d k value) s h =
      if_both (λ (out : Log × Bool). Sent day kind out.0) (str_eq value "up" || str_eq value "down")
        (λ _. update-Sent day kind (is_for d k) _ s.next_id s (λ r. (refl, refl, λ o. o)) h)
        (λ _. h)

  pub run-Sent : (ops : List Op) (s : Log) → Sent day kind s → Sent day kind (run ops s)
  unfolding run
  run-Sent [] s h = h
  run-Sent (op ∷ ops) s h = run-Sent ops (apply op s) (apply-Sent op s h)

  none-found :
      (xs : List Entry)
      → any (is_for day kind) xs ≡ false
      → All (λ r. is_for day kind r ≡ true → r.ok ≡ true) xs
  none-found [] e = tt
  none-found (x ∷ xs) e = ((λ i. ground (arith, i, e)), none-found xs (ground (arith, e)))

  All-Unit : (xs : List Entry) → All {0, 0} (λ r. Unit) xs
  All-Unit [] = tt
  All-Unit (x ∷ xs) = (tt, All-Unit xs)

  -- A delivery that is recorded as ok.
  pub recorded-Sent :
      (sections : List Report) (db_now : ℕ) (s : Log)
      → Sent day kind (record_briefing day kind true sections db_now s).0
  unfolding record_briefing
  recorded-Sent sections db_now s =
      if_both (λ (out : Log × Option ℕ). Sent day kind out.0) (any (is_for day kind) s.rows)
        (λ e. (
          any-update day kind (is_for day kind) (recorded true sections db_now) s.rows
                (λ r. (refl, refl, λ o. rw o refl))
              ∙ e,
          update-All (λ r. Unit) (λ r. is_for day kind r ≡ true → r.ok ≡ true) (is_for day kind)
              (recorded true sections db_now) s.rows (λ r _ _ _. ground arith)
              (λ r miss _ i. ground (arith, miss, i)) (All-Unit s.rows),
        ))
        (λ e. (
          any-append (is_for day kind) s.rows _ ∙ ground (arith, eq_iff kind kind),
          All-append (λ r. is_for day kind r ≡ true → r.ok ≡ true) s.rows _ (none-found s.rows e)
              ((λ _. refl), tt),
        ))

  -- A claim finds nothing to take of a briefing that was sent.
  unclaimed :
      (stale db_now : ℕ) (xs : List Entry)
      → All (λ r. is_for day kind r ≡ true → r.ok ≡ true) xs
      → find? (λ r. is_for day kind r && is_abandoned stale db_now r) xs ≡ none
  unclaimed stale db_now [] h = refl
  unclaimed stale db_now (x ∷ xs) h = ground (arith, h.0, unclaimed stale db_now xs h.1)

  pub claim_finds_none :
      (stale db_now : ℕ) (s : Log)
      → Sent day kind s
      → (claim_briefing day kind stale db_now s).1 ≡ none
  unfolding claim_briefing
  claim_finds_none stale db_now s (e, h) = rw e (rw (unclaimed stale db_now s.rows h) refl)
