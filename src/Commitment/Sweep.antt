-- ===== src/Commitment/Sweep.antt =====
-- `sweep_fulfilled` and `reevaluate_pending_promises` of agent/services/promise_context.py.
use evi.Common.{
  ℕ, suc, ◌==◌, String, Bool, true, false, not, ◌||◌, Option, none, some, List, [], ◌∷◌, str_eq,
  if◌then◌else◌, get_or,
}
use evi.Commitment.{Commitment, Commitments, dismissed, done}
use evi.Commitment.Queue.{
  list_promises_to_sweep, mark_promise_swept, mark_promise_done_by_sweep, list_pending_promises,
  update_pending_promise, finish_pending_promise,
}
use evi.Commitment.Worker.{Answer, raises, fails, refuses, fulfilled, keeps}

-- What happens to a row in a sweep: whether its context can be read and has a later message of the
-- user, what the language model answers, and which calls of the database return.
pub record Reading : Type 0 where
  pub context_ok : Bool
  pub has_later : Bool
  pub answer : Answer
  pub swept_ok : Bool
  pub done_ok : Bool

pub record SweepCounts : Type 0 where
  pub checked : ℕ
  pub done : ℕ
  pub unchanged : ℕ
  pub skipped : ℕ
  pub error : ℕ

abbrev pub sweep_error : SweepCounts → SweepCounts
sweep_error c = record c { error = suc c.error }

abbrev pub is_fulfilled : Answer → Bool
is_fulfilled fulfilled = true
is_fulfilled _ = false

abbrev pub has_answer : Answer → Bool
has_answer raises = false
has_answer fails = false
has_answer _ = true

abbrev pub swept : ℕ → ℕ → Commitments → Commitments
swept now id s = (mark_promise_swept id now s).0

-- The end of a row that was judged. An exception in the last call leaves the row swept.
abbrev pub settle_swept : ℕ → Reading → ℕ → Commitments × SweepCounts → Commitments × SweepCounts
settle_swept now e id (s, c) =
    let (s', found) = mark_promise_done_by_sweep id s in
    if not (is_fulfilled e.answer)
    then (s, record c { unchanged = suc c.unchanged })
    else if not e.done_ok
    then (s, sweep_error c)
    else if found
    then (s', record c { done = suc c.done })
    else (s', record c { unchanged = suc c.unchanged })

abbrev pub sweep_row : ℕ → Reading → ℕ → Commitments × SweepCounts → Commitments × SweepCounts
sweep_row now e id (s, c) =
    if not e.context_ok
    then (s, sweep_error c)
    else if not e.has_later
    then if e.swept_ok
      then (swept now id s, record c { skipped = suc c.skipped })
      else (s, sweep_error c)
    else if not (has_answer e.answer) || not e.swept_ok
    then (s, sweep_error c)
    else settle_swept now e id (swept now id s, c)

unfoldable pub sweep_each :
    ℕ → (ℕ → Reading) → List Commitment → Commitments × SweepCounts → Commitments × SweepCounts
unfolding mark_promise_swept mark_promise_done_by_sweep
sweep_each now reading [] k = k
sweep_each now reading (r ∷ rs) (s, c) =
    sweep_each now reading rs
      (sweep_row now (reading r.id) r.id (s, record c { checked = suc c.checked }))

-- SWEEP_MAX_AGE_DAYS and SWEEP_MIN_GAP_HOURS
abbrev pub sweep_max_age_days : ℕ
sweep_max_age_days = 14

abbrev pub sweep_min_gap_hours : ℕ
sweep_min_gap_hours = 20

unfoldable pub sweep_fulfilled : ℕ → (ℕ → Reading) → ℕ → Commitments → Commitments × SweepCounts
unfolding sweep_each list_promises_to_sweep
sweep_fulfilled now reading limit s =
    sweep_each now reading
      (list_promises_to_sweep now limit sweep_max_age_days sweep_min_gap_hours s)
      (s, record { checked = 0; done = 0; unchanged = 0; skipped = 0; error = 0 })

pub data Decision : Type 0 where
  dismiss update keep finish error : Decision

pub record Record : Type 0 where
  pub id : ℕ
  pub old_title : String
  pub decision : Decision
  pub new_title : Option String
  pub new_due : Option ℕ

abbrev pub record_of : Commitment → Decision → Option String → Option ℕ → Record
record_of r decision title due = record {
  id = r.id;
  old_title = r.title;
  decision = decision;
  new_title = title;
  new_due = due;
}

abbrev pub other_title : Option String → String → Bool
other_title none old = false
other_title (some title) old = not (str_eq title old)

abbrev pub other_due : Option ℕ → Option ℕ → Bool
other_due none old = false
other_due (some due) none = true
other_due (some due) (some old) = not (due == old)

-- A write that raises makes the decision an error.
abbrev pub written :
    Bool → Bool → Commitments → Record → Record → Commitments → Commitments × Record
written false ok s' rec failed s = (s, rec)
written true true s' rec failed s = (s', rec)
written true false s' rec failed s = (s, failed)

abbrev pub reevaluate_row : Bool → Answer → Bool → Commitment → Commitments → Commitments × Record
reevaluate_row writes raises ok r s = (s, record_of r error none none)
reevaluate_row writes fails ok r s = (s, record_of r error none none)
reevaluate_row writes refuses ok r s =
    written writes ok (finish_pending_promise r.id dismissed "auto-eval" s).0
      (record_of r dismiss none none) (record_of r error none none) s
reevaluate_row writes fulfilled ok r s =
    written writes ok (finish_pending_promise r.id done "auto-eval" s).0
      (record_of r finish none none) (record_of r error none none) s
reevaluate_row writes (keeps title due) ok r s =
    if other_title title r.title || other_due due r.due_date
    then written writes ok (update_pending_promise r.id title due false s).0
        (record_of r update title due) (record_of r error title due) s
    else (s, record_of r keep title due)

abbrev pub has_chat : Commitment → Bool
has_chat r = not (str_eq (get_or r.source_chat "") "")

unfoldable pub reevaluate_each :
    Bool
    → (Commitment → Answer)
    → (ℕ → Bool)
    → List Commitment
    → Commitments
    → Commitments × List Record
unfolding finish_pending_promise update_pending_promise
reevaluate_each writes answer ok [] s = (s, [])
reevaluate_each writes answer ok (r ∷ rs) s =
    let (s', rec) = reevaluate_row writes (if has_chat r then answer r else fails) (ok r.id) r s in
    let (end, recs) = reevaluate_each writes answer ok rs s' in (end, rec ∷ recs)

-- `writes` is the argument `apply`; a row without a chat is not judged.
unfoldable pub reevaluate_pending_promises :
    Bool → (Commitment → Answer) → (ℕ → Bool) → ℕ → Commitments → Commitments × List Record
unfolding reevaluate_each list_pending_promises
reevaluate_pending_promises writes answer ok limit s =
    reevaluate_each writes answer ok (list_pending_promises limit s) s
