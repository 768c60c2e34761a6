-- ===== src/ScheduledTask/Served.antt =====
-- What each command on tasks does to the table: the call of agent/db.py that it makes, with the task
-- that was found and the time that was read.
use evi.Common.{
  ℕ, ◌≡◌, refl, String, Bool, true, false, not, ◌&&◌, Option, none, some, str_eq, if_both, inl, inr,
  ◌⊎◌, if◌then◌else◌, is_some,
}
use evi.ScheduledTask.{Task, Tasks}
use evi.ScheduledTask.Ops.{Op, apply}
use evi.ScheduledTask.Commands.{
  Wording, Env, Answer, Found, find, Resumption, resumption, after_set, resume_at, resume_found,
  resume, cancel, cancel_found, pause, pause_found, create, insert_task, after_insert,
  after_validation, validate_new, repeat_of,
}

-- A command, with what surrounds it: of a new task the prompt, the time that was read, the repetition
-- and the title.
pub data Command : Type 0 where
  new : Wording → Env → String → Option ℕ → String → String → Command
  cancelling : Wording → Env → String → Command
  pausing : Wording → Env → String → Command
  resuming : Wording → Env → String → Command

-- The table after a command, and whether it says that it was done.
unfoldable pub serve : Command → Tasks → Tasks × Bool
unfolding create cancel pause resume
serve (new w env prompt due_at repeat title) s =
    let (s', made, answer) = create w env prompt due_at repeat title s in (s', is_some made)
serve (cancelling w env ref) s = let (s', done, answer) = cancel w env ref s in (s', done)
serve (pausing w env ref) s = let (s', done, answer) = pause w env ref s in (s', done)
serve (resuming w env ref) s = let (s', done, answer) = resume w env ref s in (s', done)

-- The title of a new task: the one that is given, cut, or one from the prompt.
abbrev pub name_for : Wording → String → String → String
name_for w title prompt =
    let short = w.cut (w.strip title) in if str_eq short "" then w.title_of prompt else short

-- Not done, and the table as it was.
abbrev pub Refused : Tasks → Tasks × Bool → Type 0
Refused s out = (out.0 ≡ s) × (out.1 ≡ false)

-- What a command that is not refused does: the row is made of the command's own prompt, time,
-- repetition and title, which were found valid; and a reference was found to mean one task, which is
-- the one that is deleted, paused, or resumed at the time that is computed for it.
abbrev pub Makes : Command → Tasks → Tasks × Bool → Type 0
Makes (new w env prompt due_at repeat title) s out =
    let text = w.strip prompt in
    let rep = w.lower (w.strip repeat) in
    (due : ℕ) × (due_at ≡ some due)
    × (validate_new w text (some due) rep env.now ≡ none)
    × (out.0 ≡ apply (Op.create (name_for w title text) text due (repeat_of rep) env.db_now) s)
Makes (cancelling w env ref) s out =
    (t : Task) × (find w env ref s ≡ Found.task t) × (out.0 ≡ apply (Op.delete t.id env.db_now) s)
Makes (pausing w env ref) s out =
    (t : Task) × (find w env ref s ≡ Found.task t) × (out.0 ≡ apply (Op.pause t.id) s)
Makes (resuming w env ref) s out =
    (t : Task) × (find w env ref s ≡ Found.task t)
    × (((t.active ≡ true) × (out.0 ≡ s))
        ⊎ ((t.active ≡ false)
            × ((next : ℕ) × (resumption env t ≡ Resumption.at next)
                × (out.0 ≡ apply (Op.resume t.id next) s))))

abbrev pub Calls : Command → Tasks → Tasks × Bool → Type 0
Calls c s out = Refused s out ⊎ Makes c s out

abbrev done_of : Tasks × Bool × Answer → Tasks × Bool
done_of (s, done, answer) = (s, done)

abbrev made_of : Tasks × Option Task × Answer → Tasks × Bool
made_of (s, made, answer) = (s, is_some made)

module _ (w : Wording) (env : Env) (prompt repeat title : String) (s : Tasks) where
  abbrev text : String
  text = w.strip prompt

  abbrev rep : String
  rep = w.lower (w.strip repeat)

  abbrev Created : Option ℕ → Tasks × Option Task × Answer → Type 0
  Created due_at out = Calls (new w env prompt due_at repeat title) s (made_of out)

  after_insert-table : (p : Tasks × Option ℕ) → (after_insert env p).0 ≡ p.0
  after_insert-table (t, none) = refl
  after_insert-table (t, some id) =
      if_both (λ (out : Tasks × Option Task × Answer). out.0 ≡ t) env.read_ok (λ _. refl)
        (λ _. refl)

  insert_task-Calls :
      (due : ℕ)
      → validate_new w text (some due) rep env.now ≡ none
      → Created (some due) (insert_task w env text rep title due s)
  unfolding insert_task apply
  insert_task-Calls due v =
      if_both (Created (some due)) (not (env.init_ok && env.write_ok)) (λ _. inl (refl, refl))
        (λ _. inr (due, refl, v, after_insert-table _))

  after_validation-Calls :
      (error : Option Answer) (due_at : Option ℕ)
      → validate_new w text due_at rep env.now ≡ error
      → Created due_at (after_validation w env text rep title error due_at s)
  after_validation-Calls (some error) due_at v = inl (refl, refl)
  after_validation-Calls none none v = inl (refl, refl)
  after_validation-Calls none (some due) v = insert_task-Calls due v

  create-Calls : (due_at : Option ℕ) → Created due_at (create w env prompt due_at repeat title s)
  unfolding create
  create-Calls due_at =
      if_both (Created due_at) (not env.enabled) (λ _. inl (refl, refl))
        (λ _.
          if_both (Created due_at) (str_eq text "") (λ _. inl (refl, refl))
            (λ _. after_validation-Calls (validate_new w text due_at rep env.now) due_at refl))

after_set-table : (id next : ℕ) (p : Tasks × Bool) → (after_set id next p).0 ≡ p.0
after_set-table id next (t, true) = refl
after_set-table id next (t, false) = refl

module _ (w : Wording) (env : Env) (ref : String) (s : Tasks) where
  abbrev Answered : Command → Tasks × Bool × Answer → Type 0
  Answered c out = Calls c s (done_of out)

  cancel_found-Calls :
      (f : Found) → find w env ref s ≡ f → Answered (cancelling w env ref) (cancel_found env f s)
  unfolding apply
  cancel_found-Calls (Found.error e) h = inl (refl, refl)
  cancel_found-Calls (Found.task t) h =
      if_both (Answered (cancelling w env ref)) env.write_ok (λ _. inr (t, h, refl))
        (λ _. inl (refl, refl))

  pause_found-Calls :
      (f : Found) → find w env ref s ≡ f → Answered (pausing w env ref) (pause_found env f s)
  unfolding apply
  pause_found-Calls (Found.error e) h = inl (refl, refl)
  pause_found-Calls (Found.task t) h =
      if_both (Answered (pausing w env ref)) env.write_ok (λ _. inr (t, h, refl))
        (λ _. inl (refl, refl))

  resume_at-Calls :
      (t : Task) (o : Resumption)
      → find w env ref s ≡ Found.task t
      → t.active ≡ false
      → resumption env t ≡ o
      → Answered (resuming w env ref) (resume_at env t o s)
  unfolding apply
  resume_at-Calls t Resumption.passed h f e = inl (refl, refl)
  resume_at-Calls t Resumption.raised h f e = inl (refl, refl)
  resume_at-Calls t (Resumption.at next) h f e =
      if_both (Answered (resuming w env ref)) env.write_ok
        (λ _. inr (t, h, inr (f, (next, e, after_set-table t.id next _)))) (λ _. inl (refl, refl))

  resume_found-Calls :
      (f : Found) → find w env ref s ≡ f → Answered (resuming w env ref) (resume_found env f s)
  resume_found-Calls (Found.error e) h = inl (refl, refl)
  resume_found-Calls (Found.task t) h =
      if_both (Answered (resuming w env ref)) t.active (λ on. inr (t, h, inl (on, refl)))
        (λ off. resume_at-Calls t (resumption env t) h off refl)

-- Every command on tasks, whatever its texts, what it finds, and what raises, is refused, the table as
-- it was, or makes of the table exactly this: a new task is created with the prompt, the time, the
-- repetition and the title of the command, where these are valid; the one task that the reference is
-- found to mean is deleted or paused; or that task is resumed at the time computed for it, or was active
-- already and the table stays.
pub serve-Calls : (c : Command) (s : Tasks) → Calls c s (serve c s)
unfolding serve create cancel pause resume
serve-Calls (new w env prompt due_at repeat title) s =
    create-Calls w env prompt repeat title s due_at
serve-Calls (cancelling w env ref) s =
    if_both (Answered w env ref s (cancelling w env ref)) (not env.enabled) (λ _. inl (refl, refl))
      (λ _. cancel_found-Calls w env ref s (find w env ref s) refl)
serve-Calls (pausing w env ref) s =
    if_both (Answered w env ref s (pausing w env ref)) (not env.enabled) (λ _. inl (refl, refl))
      (λ _. pause_found-Calls w env ref s (find w env ref s) refl)
serve-Calls (resuming w env ref) s =
    if_both (Answered w env ref s (resuming w env ref)) (not env.enabled) (λ _. inl (refl, refl))
      (λ _. resume_found-Calls w env ref s (find w env ref s) refl)
