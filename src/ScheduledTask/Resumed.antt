-- ===== src/ScheduledTask/Resumed.antt =====
-- What the commands on tasks do to the table.
use evi.Common.{
  ℕ, ◌<◌, ◌≡◌, refl, ◌∙◌, ap, String, Bool, true, false, not, ◌&&◌, ◌||◌, Option, none, some, List,
  [], ◌∷◌, leb, ◌==◌, str_eq, if_both, All, All-both, All-select, All-sort, select-meets, select,
  find?, find-update, arith, Bool-cases, inl, inr, ◌⊎◌, count,
}
use evi.Common.Keyed.{Unique, get, All-found}
use mathlib.Core.Option.{some-injective}
use evi.Reminder.{Repeat}
use evi.Recurrence.{next_occurrence}
use evi.Recurrence.Total.{next_occurrence-later}
use evi.ScheduledTask.{
  Task, Tasks, is_kept, kept_row, set_row, by_next, get_scheduled_task, list_scheduled_tasks,
  is_full, is_live, set_scheduled_task_active,
}
use evi.ScheduledTask.Ops.{max_active}
use evi.ScheduledTask.Commands.{
  Wording, Env, Answer, Found, one_hit, or_else, number_hit, by_number, by_reference, find_in, find,
  Resumption, from_next, from_repeat, resumption, after_set, resume_at, resume_found, resume,
}

-- What holds of the row that is found.
abbrev FoundHas : (Task → Type 0) → Found → Type 0
FoundHas P (Found.task t) = P t
FoundHas P (Found.error e) = Unit

module _ (P : Task → Type 0) where
  one_hit-FoundHas : (ts : List Task) → All P ts → FoundHas P (one_hit ts)
  one_hit-FoundHas [] a = tt
  one_hit-FoundHas (t ∷ []) a = a.0
  one_hit-FoundHas (t ∷ u ∷ ts) a = tt

  by_number-FoundHas : (want : ℕ) (ts : List Task) → All P ts → FoundHas P (by_number want ts)
  by_number-FoundHas want [] a = tt
  by_number-FoundHas want (t ∷ ts) a =
      let Hit = λ (o : Option Task). FoundHas P (number_hit o) in
      if_both Hit (t.id == want) (λ _. a.0) (λ _. by_number-FoundHas want ts a.1)

  or_else-All : (xs ys : List Task) → All P xs → All P ys → All P (or_else xs ys)
  or_else-All [] ys a b = b
  or_else-All (x ∷ xs) ys a b = a

  find_in-FoundHas :
      (w : Wording) (ref : String) (o : Option ℕ) (ts : List Task)
      → All P ts
      → FoundHas P (by_reference w ref ts o)
  find_in-FoundHas w ref none ts a =
      one_hit-FoundHas _ (or_else-All _ _ (All-select P _ ts a) (All-select P _ ts a))
  find_in-FoundHas w ref (some want) ts a = by_number-FoundHas want ts a

  find-FoundHas :
      (w : Wording) (env : Env) (ref : String) (s : Tasks)
      → All P (list_scheduled_tasks false s)
      → FoundHas P (find w env ref s)
  unfolding find find_in
  find-FoundHas w env ref s a =
      if_both (FoundHas P) (str_eq (w.strip ref) "") (λ _. tt)
        (λ _.
          if_both (FoundHas P) (not (env.init_ok && env.list_ok)) (λ _. tt)
            (λ _. find_in-FoundHas w (w.strip ref) (w.digits (w.strip ref)) _ a))

-- The row that stands under its own id, among those that are kept.
abbrev Own : Tasks → Task → Type 0
Own s t = get_scheduled_task t.id s ≡ some t

find-kept :
    (i : ℕ) (ts : List Task) (t : Task)
    → get (λ x. x.id) i ts ≡ some t
    → is_kept t ≡ true
    → find? (λ x. x.id == i && is_kept x) ts ≡ some t
find-kept i [] t e kept = absurd (ground arith)
find-kept i (x ∷ ts) t e kept = elim (Bool-cases (x.id == i)) [
  | inl hit ↦
      let same : x ≡ t = some-injective x t (rw hit at e) in
      let shown : is_kept x ≡ true = rw same kept in rw (hit, shown) (ap some same)
  | inr miss ↦ rw miss (find-kept i ts t (rw miss at e) kept)
]

listed-Own :
    (s : Tasks) → Unique (λ (t : Task). t.id) s.rows → All (Own s) (list_scheduled_tasks false s)
unfolding list_scheduled_tasks get_scheduled_task
listed-Own s u =
    let shown = λ (t : Task). is_kept t && (not false || t.active) in
    All-sort (Own s) by_next _ (
      All-both (λ t shows found. find-kept t.id s.rows t found (ground (arith, shows)))
        (select shown s.rows) (select-meets shown s.rows)
        (All-select (λ t. get (λ x. x.id) t.id s.rows ≡ some t) shown s.rows
          (All-found (λ x. x.id) s.rows u)))

-- The task was active and the table stays, or it is active from now on, at a time that is to come.
abbrev pub IsResumed : Env → Task → Tasks → Tasks → Type 0
IsResumed env t s s' =
    ((t.active ≡ true) × (s' ≡ s))
    ⊎ ((next : ℕ) × (env.now < next)
        × (get_scheduled_task t.id s' ≡ some (record t { active = true; next_at = next })))

abbrev at_of : Resumption → ℕ
at_of (Resumption.at next) = next
at_of _ = 0

from_repeat-later :
    (env : Env) (t : Task) (o : Option Repeat) (next : ℕ)
    → from_repeat env t o ≡ Resumption.at next
    → env.now < next
from_repeat-later env t none next e = cc
from_repeat-later env t (some repeat) next e =
    go (next_occurrence env.zone t.next_at repeat env.now none) refl e
  where
    go :
        (o : Option ℕ)
        → next_occurrence env.zone t.next_at repeat env.now none ≡ o
        → from_next o ≡ Resumption.at next
        → env.now < next
    go none found h = cc
    go (some at) found h =
        let same : at ≡ next = ap at_of h in
        rw⁻¹ same (next_occurrence-later env.zone t.next_at repeat env.now none at found).0

-- A task is resumed for a time that is to come.
resumption-later :
    (env : Env) (t : Task) (next : ℕ) → resumption env t ≡ Resumption.at next → env.now < next
resumption-later env t next e = elim (Bool-cases (leb t.next_at env.now)) [
  | inl past ↦ from_repeat-later env t t.repeat next (rw past at e)
  | inr ahead ↦
      let same : t.next_at ≡ next = ap at_of (rw ahead at e) in ground (arith, same, ahead)
]

find-meets : (p : Task → Bool) (ts : List Task) (t : Task) → find? p ts ≡ some t → p t ≡ true
find-meets p [] t e = absurd (ground arith)
find-meets p (x ∷ ts) t e = elim (Bool-cases (p x)) [
  | inl hit ↦ let same : x ≡ t = some-injective x t (rw hit at e) in rw⁻¹ same hit
  | inr miss ↦ find-meets p ts t (rw miss at e)
]

-- A row that is set is found with its new values.
set-found :
    (t : Task) (next : ℕ) (s : Tasks)
    → Own s t
    → (set_scheduled_task_active t.id true (some next) (some max_active) s).1 ≡ true
    → get_scheduled_task t.id
        (set_scheduled_task_active t.id true (some next) (some max_active) s).0
      ≡ some (record t { active = true; next_at = next })
unfolding set_scheduled_task_active get_scheduled_task
set-found t next s own =
    let p = kept_row t.id in
    let Set = λ (out : Tasks × Bool).
      out.1 ≡ true
      → get_scheduled_task t.id out.0 ≡ some (record t { active = true; next_at = next }) in
    if_both Set (is_full (some max_active) (count (λ x. is_live x && not (x.id == t.id)) s.rows))
      (λ _ no. absurd (ground (arith, no)))
      (λ _ done.
        find-update p p (set_row true (some next)) s.rows t (λ x. refl) own
        ∙ rw (find-meets p s.rows t own) refl)

resume_at-IsResumed :
    (env : Env) (t : Task) (o : Resumption) (s : Tasks)
    → Own s t
    → resumption env t ≡ o
    → (resume_at env t o s).1 ≡ true
    → IsResumed env t s (resume_at env t o s).0
resume_at-IsResumed env t Resumption.passed s own e done = absurd (ground (arith, done))
resume_at-IsResumed env t Resumption.raised s own e done = absurd (ground (arith, done))
resume_at-IsResumed env t (Resumption.at next) s own e done =
    let P = λ (out : Tasks × Bool × Answer). out.1 ≡ true → IsResumed env t s out.0 in
    if_both P env.write_ok
      (λ _.
        set (set_scheduled_task_active t.id true (some next) (some max_active) s)
          (set-found t next s own))
      (λ _ no. absurd (ground (arith, no))) done
  where
    set :
        (out : Tasks × Bool)
        → (out.1 ≡ true
            → get_scheduled_task t.id out.0 ≡ some (record t { active = true; next_at = next }))
        → (after_set t.id next out).1 ≡ true
        → IsResumed env t s (after_set t.id next out).0
    set (s', true) found done = inr (next, resumption-later env t next e, found refl)
    set (s', false) found done = absurd (ground (arith, done))

-- What a command that resumed has resumed.
abbrev pub Resumes : Env → Found → Tasks → Tasks → Type 0
Resumes env (Found.error e) s s' = ⊥
Resumes env (Found.task t) s s' = IsResumed env t s s'

resume_found-Resumes :
    (env : Env) (f : Found) (s : Tasks)
    → FoundHas (Own s) f
    → (resume_found env f s).1 ≡ true
    → Resumes env f s (resume_found env f s).0
resume_found-Resumes env (Found.error e) s own done = absurd (ground (arith, done))
resume_found-Resumes env (Found.task t) s own done =
    let P = λ (out : Tasks × Bool × Answer). out.1 ≡ true → IsResumed env t s out.0 in
    if_both P t.active (λ active _. inl (active, refl))
      (λ _. resume_at-IsResumed env t (resumption env t) s own refl) done

-- On a table with unique ids, a command to resume that says it was done has found a task, which was
-- active already, the table then as it was, or which is active from now on, under its id and otherwise as
-- it was, at a time after the present one.
pub resumed_later :
    (w : Wording) (env : Env) (ref : String) (s : Tasks)
    → Unique (λ (t : Task). t.id) s.rows
    → (resume w env ref s).1 ≡ true
    → Resumes env (find w env ref s) s (resume w env ref s).0
unfolding resume
resumed_later w env ref s u =
    let P =
      λ (out : Tasks × Bool × Answer). out.1 ≡ true → Resumes env (find w env ref s) s out.0 in
    if_both P (not env.enabled) (λ _ no. absurd (ground (arith, no)))
      (λ _.
        resume_found-Resumes env (find w env ref s) s
          (find-FoundHas (Own s) w env ref s (listed-Own s u)))
