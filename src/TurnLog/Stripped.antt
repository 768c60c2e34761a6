-- ===== src/TurnLog/Stripped.antt =====
-- What the job reads of the turns does not hang on the signals that they have.
use evi.Common.{
  ℕ, ◌+◌, ◌||◌, ◌≡◌, ◌≢◌, refl, sym, ap, ◌∙◌, String, Bool, true, false, not, ◌&&◌, Option, none,
  some, List, [], ◌∷◌, ltb, leb, select, insert, sort, find?, map, Bool-cases, inl, inr, All,
  if_both,
}
use evi.Common.Keyed.{Unique}
use evi.TurnLog.{Signals, no_signals, Turn, Turns, before, list_turns}
use evi.TurnLog.Usage.{
  Wording, compute_signals, is_command_turn, says_cant, is_of_session, links, is_user_turn,
  rows_until, next_turn_window,
}

abbrev pub id_of : Turn → ℕ
id_of r = r.id

-- A row but for its signals.
abbrev pub strip : Turn → Turn
strip r = record r { signals = no_signals }

abbrev pub strip_all : List Turn → List Turn
strip_all = map strip

strip-select :
    (p : Turn → Bool) (xs : List Turn)
    → ((r : Turn) → p (strip r) ≡ p r)
    → strip_all (select p xs) ≡ select p (strip_all xs)
strip-select p [] same = refl
strip-select p (x ∷ xs) same = elim (Bool-cases (p x)) [
  | inl e ↦ rw (same x, e) (ap (λ ys. strip x ∷ ys) (strip-select p xs same))
  | inr e ↦ rw (same x, e) (strip-select p xs same)
]

strip-insert :
    (x : Turn) (xs : List Turn)
    → strip_all (insert before x xs) ≡ insert before (strip x) (strip_all xs)
strip-insert x [] = refl
strip-insert x (y ∷ ys) = elim (Bool-cases (before y x)) [
  | inl e ↦ rw (e) (ap (λ zs. strip y ∷ zs) (strip-insert x ys))
  | inr e ↦ rw (e) refl
]

strip-sort : (xs : List Turn) → strip_all (sort before xs) ≡ sort before (strip_all xs)
strip-sort [] = refl
strip-sort (x ∷ xs) = strip-insert x (sort before xs) ∙ ap (insert before (strip x)) (strip-sort xs)

abbrev chosen : (Turn → Bool) → List Turn → List Turn
chosen p rows = select is_user_turn (sort before (select p rows))

strip-chosen :
    (p : Turn → Bool) (rows : List Turn)
    → ((r : Turn) → p (strip r) ≡ p r)
    → strip_all (chosen p rows) ≡ chosen p (strip_all rows)
strip-chosen p rows same =
    strip-select is_user_turn (sort before (select p rows)) (λ r. refl)
    ∙ ap (select is_user_turn)
        (strip-sort (select p rows) ∙ ap (sort before) (strip-select p rows same))

-- The rows of a job hang on the stripped table alone.
pub strip-rows_until :
    (since until : ℕ) (s s' : Turns)
    → strip_all s.rows ≡ strip_all s'.rows
    → strip_all (rows_until since until s) ≡ strip_all (rows_until since until s')
unfolding rows_until list_turns
strip-rows_until since until s s' e =
    let p : Turn → Bool =
      λ x. (leb since x.ts && ltb x.ts (until + next_turn_window)) && (false || not x.is_test) in
    strip-chosen p s.rows (λ r. refl) ∙ (ap (chosen p) e ∙ sym (strip-chosen p s'.rows (λ r. refl)))

abbrev strip_next : Option Turn → Option Turn
strip_next none = none
strip_next (some r) = some (strip r)

abbrev strip_pair : Turn × Option Turn → Turn × Option Turn
strip_pair (r, next) = (strip r, strip_next next)

module _ (w : Wording) where
  compute-strip :
      (r : Turn) (next : Option Turn)
      → compute_signals w (strip r) (strip_next next) ≡ compute_signals w r next
  unfolding compute_signals is_command_turn says_cant
  compute-strip r none = refl
  compute-strip r (some n) = refl

  find-strip :
      (sid : String) (rs : List Turn)
      → find? (is_of_session sid) (strip_all rs) ≡ strip_next (find? (is_of_session sid) rs)
  find-strip sid [] = refl
  find-strip sid (r ∷ rs) = elim (Bool-cases (is_of_session sid r)) [
    | inl e ↦ rw e refl
    | inr e ↦ rw e (find-strip sid rs)
  ]

  links-strip :
      (rs : List Turn)
      → ((links w (strip_all rs)).0 ≡ map strip_pair (links w rs).0)
        × ((links w (strip_all rs)).1 ≡ strip_all (links w rs).1)
  unfolding links is_command_turn
  links-strip [] = (refl, refl)
  links-strip (r ∷ rs) =
      let (out, last) = links-strip rs in
      elim (Bool-cases (is_command_turn w r)) [
        | inl e ↦
            let e' : is_command_turn w (strip r) ≡ true = e in
            rw e' (ap (λ ps. (strip r, none) ∷ ps) out, last)
        | inr e ↦
            let e' : is_command_turn w (strip r) ≡ false = e in
            let next : find? (is_of_session r.session_id) (links w (strip_all rs)).1
                ≡ strip_next (find? (is_of_session r.session_id) (links w rs).1) =
              rw last (find-strip r.session_id (links w rs).1) in
            rw (e', next)
              (
                ap (λ ps. strip_pair (r, find? (is_of_session r.session_id) (links w rs).1) ∷ ps)
                    out,
                ap (λ qs. strip r ∷ qs) last,
              )
      ]

  -- The id of a row, its time, and the signals that are computed for it.
  abbrev pub job : Turn × Option Turn → ℕ × ℕ × Signals
  job (r, next) = (r.id, r.ts, compute_signals w r next)

  job-strip : (ps : List (Turn × Option Turn)) → map job (map strip_pair ps) ≡ map job ps
  job-strip [] = refl
  job-strip ((r, next) ∷ ps) = rw (compute-strip r next, job-strip ps) refl

  -- Rows that differ in their signals give the same signals.
  pub jobs-strip :
      (rs rs' : List Turn)
      → strip_all rs ≡ strip_all rs'
      → map job (links w rs).0 ≡ map job (links w rs').0
  jobs-strip rs rs' e =
      let of_stripped =
        λ (xs : List Turn). ap (map job) (links-strip xs).0 ∙ job-strip (links w xs).0 in
      sym (of_stripped rs) ∙ (ap (λ xs. map job (links w xs).0) e ∙ of_stripped rs')

  pub links-All :
      (P : Turn → Type 0) (rs : List Turn)
      → All P rs
      → All (λ (p : Turn × Option Turn). P p.0) (links w rs).0
  unfolding links
  links-All P [] a = tt
  links-All P (r ∷ rs) a =
      if_both (λ (out : List (Turn × Option Turn) × List Turn). All (λ p. P p.0) out.0)
        (is_command_turn w r) (λ _. (a.0, links-All P rs a.1)) (λ _. (a.0, links-All P rs a.1))

  pub links-Unique :
      (rs : List Turn)
      → Unique id_of rs
      → Unique (λ (p : Turn × Option Turn). p.0.id) (links w rs).0
  unfolding links
  links-Unique [] u = tt
  links-Unique (r ∷ rs) u =
      let apart = links-All (λ x. x.id ≢ r.id) rs u.0 in
      if_both
        (λ (out : List (Turn × Option Turn) × List Turn).
          Unique (λ (p : Turn × Option Turn). p.0.id) out.0)
        (is_command_turn w r) (λ _. (apart, links-Unique rs u.1))
        (λ _. (apart, links-Unique rs u.1))
