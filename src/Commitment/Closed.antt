-- ===== src/Commitment/Closed.antt =====
-- What has been decided stays decided: rows that are neither pending nor waiting for an evaluation.
use evi.Common.{
  ℕ, ◌≡◌, refl, ◌∙◌, Bool, true, not, ◌||◌, Option, none, some, String, List, [], ◌∷◌, arith,
  update, if◌then◌else◌, if_both, any,
}
use evi.Common.Keyed.{get, get-update, get-append}
use evi.Commitment.{
  Commitment, Commitments, Status, is_pending, is_waiting, Capture, insert_pending_commitment,
  is_from,
}
use evi.Commitment.Ops.{
  Op, capture, settle, apply, run, Change, change_of, Changes, IfChange, apply-Changes, KeepsSame,
  change_of-KeepsSame,
}

abbrev pub is_decided : Status → Bool
is_decided s = not (is_pending s || is_waiting s)

-- All but the marks of a notification and of a sweep.
pub record Frozen (r r' : Commitment) : Type 0 where
  pub status : r'.status ≡ r.status
  pub title : r'.title ≡ r.title
  pub event_date : r'.event_date ≡ r.event_date
  pub due_date : r'.due_date ≡ r.due_date
  pub confirmed_at : r'.confirmed_at ≡ r.confirmed_at
  pub confirmed_via : r'.confirmed_via ≡ r.confirmed_via
  pub next_eval_at : r'.next_eval_at ≡ r.next_eval_at
  pub eval_attempts : r'.eval_attempts ≡ r.eval_attempts

abbrev Freezes : Option Change → Type 0
Freezes none = Unit
Freezes (some c) =
    (r : Commitment) → is_decided r.status ≡ true → Frozen r (if c.which r then c.to r else r)

change_of-Freezes : (op : Op) → Freezes (change_of op)
unfolding change_of
change_of-Freezes (capture cut c db_now) = tt
change_of-Freezes (settle id status via db_now) = λ r d. ground arith
change_of-Freezes _ = λ r d. ground arith

abbrev pub row : ℕ → Commitments → Option Commitment
row i s = get (λ (r : Commitment). r.id) i s.rows

Frozen-refl : (r : Commitment) → Frozen r r
Frozen-refl r = ground arith

Frozen-trans : (r t u : Commitment) → Frozen r t → Frozen t u → Frozen r u
Frozen-trans r t u f g = ground arith

-- The row of an id, unchanged in what counts.
abbrev pub Stays : ℕ → Commitment → Commitments → Type 0
Stays i r s = (r' : Commitment) × (row i s ≡ some r') × Frozen r r'

change-Stays :
    (c : Change) (s : Commitments) (i : ℕ) (r : Commitment)
    → KeepsSame (some c)
    → Freezes (some c)
    → row i s ≡ some r
    → is_decided r.status ≡ true
    → Stays i r (record s { rows = update c.which c.to s.rows })
change-Stays c s i r same f h d = (
  if c.which r then c.to r else r,
  get-update (λ r. r.id) c.which c.to i s.rows (λ t. (same t).id) ∙ rw h refl,
  f r d,
)

capture-Stays :
    (cut : String → String) (c : Capture) (db_now : ℕ) (s : Commitments) (i : ℕ) (r : Commitment)
    → row i s ≡ some r
    → Stays i r (insert_pending_commitment cut c db_now s).0
unfolding insert_pending_commitment
capture-Stays cut c db_now s i r h =
    if_both (λ (out : Commitments × Option ℕ). Stays i r out.0)
      (any (is_from c.source c.source_id) s.rows) (λ _. (r, h, Frozen-refl r))
      (λ _. (r, get-append (λ r. r.id) i s.rows _ r h, Frozen-refl r))

changed-Stays :
    (ch : Option Change) (s s' : Commitments) (i : ℕ) (r : Commitment)
    → Changes ch s s'
    → KeepsSame ch
    → Freezes ch
    → row i s ≡ some r
    → is_decided r.status ≡ true
    → IfChange ch (Stays i r s')
changed-Stays none s s' i r e same f h d = tt
changed-Stays (some c) s s' i r e same f h d = rw e (change-Stays c s i r same f h d)

apply-Stays :
    (op : Op) (s : Commitments) (i : ℕ) (r : Commitment)
    → row i s ≡ some r
    → is_decided r.status ≡ true
    → Stays i r (apply op s)
unfolding apply change_of
apply-Stays (capture cut c db_now) s i r h d = capture-Stays cut c db_now s i r h
apply-Stays op s i r h d =
    changed-Stays (change_of op) s (apply op s) i r (apply-Changes op s) (change_of-KeepsSame op)
      (change_of-Freezes op) h d

-- A commitment that is undated, scheduled, dismissed or done keeps its status, its title, its dates
-- and who confirmed it and when, by any sequence of calls, whatever they are given.
pub decided-Stays :
    (ops : List Op) (s : Commitments) (i : ℕ) (r : Commitment)
    → row i s ≡ some r
    → is_decided r.status ≡ true
    → Stays i r (run ops s)
unfolding run
decided-Stays [] s i r h d = (r, h, Frozen-refl r)
decided-Stays (op ∷ ops) s i r h d =
    let (t, k, f) = apply-Stays op s i r h d in
    let (u, l, g) = decided-Stays ops (apply op s) i t k (ground (arith, f.status)) in
    (u, l, Frozen-trans r t u f g)
