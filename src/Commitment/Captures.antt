-- ===== src/Commitment/Captures.antt =====
-- A message is captured once.
use evi.Common.{
  any-append, ℕ, ◌≡◌, refl, ◌∙◌, Bool, true, Option, none, some, String, List, [], ◌∷◌, arith,
  update, any, eq_iff, if_both, Bool-cases, inl, inr,
}
use evi.Commitment.{Commitment, Commitments, Capture, captured, insert_pending_commitment, is_from}
use evi.Commitment.Ops.{
  Op, capture, apply, run, Change, change_of, Changes, IfChange, apply-Changes, KeepsSame,
  change_of-KeepsSame,
}

module _ (source source_id : String) where
  any-update :
      (p : Commitment → Bool) (f : Commitment → Commitment) (xs : List Commitment)
      → KeepsSame (some (record { which = p; to = f }))
      → any (is_from source source_id) (update p f xs) ≡ any (is_from source source_id) xs
  any-update p f [] same = refl
  any-update p f (x ∷ xs) same = elim (Bool-cases (p x)) [
    | inl e ↦ rw (e, (same x).source, (same x).source_id, any-update p f xs same) refl
    | inr e ↦ rw (e, any-update p f xs same) refl
  ]

  -- The table holds the message.
  abbrev Holds : Commitments → Type 0
  Holds s = any (is_from source source_id) s.rows ≡ true

  changed-Holds :
      (ch : Option Change) (s s' : Commitments)
      → Changes ch s s'
      → KeepsSame ch
      → Holds s
      → IfChange ch (Holds s')
  changed-Holds none s s' e same h = tt
  changed-Holds (some c) s s' e same h = rw e (any-update c.which c.to s.rows same ∙ h)

  capture-Holds :
      (cut : String → String) (c : Capture) (db_now : ℕ) (s : Commitments)
      → Holds s
      → Holds (insert_pending_commitment cut c db_now s).0
  unfolding insert_pending_commitment
  capture-Holds cut c db_now s h =
      if_both (λ (out : Commitments × Option ℕ). Holds out.0)
        (any (is_from c.source c.source_id) s.rows) (λ _. h)
        (λ _. any-append (is_from source source_id) s.rows _ ∙ rw h refl)

  run-Holds : (ops : List Op) (s : Commitments) → Holds s → Holds (run ops s)
  unfolding run apply change_of
  run-Holds [] s h = h
  run-Holds (capture cut c db_now ∷ ops) s h =
      run-Holds ops (insert_pending_commitment cut c db_now s).0 (capture-Holds cut c db_now s h)
  run-Holds (op ∷ ops) s h =
      run-Holds ops (apply op s) (
        changed-Holds (change_of op) s (apply op s) (apply-Changes op s) (change_of-KeepsSame op) h)

inserted-Holds :
    (cut : String → String) (c : Capture) (db_now : ℕ) (s : Commitments)
    → Holds c.source c.source_id (insert_pending_commitment cut c db_now s).0
unfolding insert_pending_commitment
inserted-Holds cut c db_now s =
    let own : is_from c.source c.source_id (captured cut c s.next_id db_now) ≡ true =
      ground (arith, eq_iff c.source c.source, eq_iff c.source_id c.source_id) in
    if_both (λ (out : Commitments × Option ℕ). Holds c.source c.source_id out.0)
      (any (is_from c.source c.source_id) s.rows) (λ e. e)
      (λ _. any-append (is_from c.source c.source_id) s.rows _ ∙ ground (arith, own))

-- Once a message was captured, whatever is then done to the table, capturing the same message again,
-- whatever is read in it, gives no id and adds no row.
pub captured_once :
    (cut : String → String) (c c' : Capture) (db_now again : ℕ) (ops : List Op) (s : Commitments)
    → c'.source ≡ c.source
    → c'.source_id ≡ c.source_id
    → let s' = run ops (insert_pending_commitment cut c db_now s).0 in
      ((insert_pending_commitment cut c' again s').1 ≡ none)
      × ((insert_pending_commitment cut c' again s').0.rows ≡ s'.rows)
unfolding insert_pending_commitment
captured_once cut c c' db_now again ops s e f =
    let held = run-Holds c.source c.source_id ops _ (inserted-Holds cut c db_now s) in
    let same : any (is_from c'.source c'.source_id)
          (run ops (insert_pending_commitment cut c db_now s).0).rows
        ≡ true =
      rw (e, f) held in
    (rw same refl, rw same refl)
