-- ===== src/Conversation/Debts.antt =====
-- A debt that is paid.
use evi.Common.{
  ℕ, ◌≤◌, ◌≡◌, refl, ◌⊎◌, String, true, false, Option, some, List, [], ◌∷◌, max, select, update,
  any, All, All-append, All-select, All-sort, All-take, select-meets, All-both, if_both, Bool-cases,
  Option-cases, inl, inr, arith,
}
use evi.Conversation.{
  Conversation, is_of, upsert, spoken, record_outbound, acknowledged, acknowledge, is_debt,
  heard_before, list_debt_candidates,
}

-- What the rows of one conversation have.
abbrev pub Has : String → (Conversation → Type 0) → List Conversation → Type 0
Has jid P rows = All (λ r. is_of jid r ≡ true → P r) rows

module _ (jid : String) (P Q : Conversation → Type 0) where
  update-Has :
      (f : Conversation → Conversation) (rs : List Conversation)
      → ((r : Conversation) → P r → Q (f r))
      → Has jid P rs
      → Has jid Q (update (is_of jid) f rs)
  update-Has f [] hit h = tt
  update-Has f (r ∷ rs) hit h = elim (Bool-cases (is_of jid r)) [
    | inl e ↦ rw e (λ _. hit r (h.0 e), update-Has f rs hit h.1)
    | inr e ↦ rw e (λ k. absurd (ground (arith, e, k)), update-Has f rs hit h.1)
  ]

  other-Has : (rs : List Conversation) → any (is_of jid) rs ≡ false → Has jid Q rs
  other-Has [] e = tt
  other-Has (r ∷ rs) e = (λ k. absurd (ground (arith, e, k)), other-Has rs (ground arith))

  pub upsert-Has :
      (row : Conversation) (f : Conversation → Conversation) (rows : List Conversation)
      → ((r : Conversation) → P r → Q (f r))
      → Q row
      → Has jid P rows
      → Has jid Q (upsert jid row f rows)
  upsert-Has row f rows hit new h =
      if_both (Has jid Q) (any (is_of jid) rows) (λ _. update-Has f rows hit h)
        (λ e.
          All-append (λ r. is_of jid r ≡ true → Q r) rows (row ∷ []) (other-Has rows e)
            (λ _. new, tt))

-- Nothing heard after an instant.
abbrev pub HeardBy : ℕ → Conversation → Type 0
HeardBy ts r = (t : ℕ) → r.last_in_at ≡ some t → t ≤ ts

module _ (now min_age max_age : ℕ) where
  -- A row that is no debt, in the form that its times give.
  no_debt :
      (r : Conversation) (ts u : ℕ)
      → HeardBy ts r
      → ts ≤ u
      → (r.last_out_at ≡ some u) ⊎ (r.acknowledged_at ≡ some u)
      → is_debt now min_age max_age r ≡ false
  no_debt r ts u h le at = elim (Option-cases r.last_in_at) [
    | inl e ↦ ground (arith, e)
    | inr (t, e) ↦ let early = h t e in ground (arith, e, early, le)
  ]

  not_listed :
      (jid : String) (limit : ℕ) (rows : List Conversation)
      → Has jid (λ r. is_debt now min_age max_age r ≡ false) rows
      → All (λ r. is_of jid r ≡ false) (list_debt_candidates now min_age max_age limit rows)
  unfolding list_debt_candidates
  not_listed jid limit rows h =
      let P : Conversation → Type 0 = λ r. is_of jid r ≡ false in
      let debt = is_debt now min_age max_age in
      All-take P limit _ (
        All-sort P heard_before (select debt rows) (
          All-both
            (λ r none_of yes_debt. elim (Bool-cases (is_of jid r)) [
              | inl e ↦ let n = none_of e in absurd (ground (arith, n, yes_debt))
              | inr e ↦ e
            ])
            (select debt rows)
            (All-select (λ r. is_of jid r ≡ true → is_debt now min_age max_age r ≡ false) debt rows
              h)
            (select-meets debt rows)))

  -- Where nothing of a conversation was heard after an answer, the conversation is no candidate for a
  -- debt once the answer is recorded, whatever the ages and the limit.
  pub answered_not_listed :
      (jid : String) (ts : ℕ) (preview : Option String) (db_now limit : ℕ)
      (rows : List Conversation)
      → Has jid (HeardBy ts) rows
      → All
          (λ r. is_of jid r ≡ false)
          (list_debt_candidates now min_age max_age limit
            (record_outbound jid ts preview db_now rows))
  unfolding record_outbound
  answered_not_listed jid ts preview db_now limit rows h = not_listed jid limit _ (
      upsert-Has jid (HeardBy ts) (λ r. is_debt now min_age max_age r ≡ false) _
        (spoken ts preview db_now) rows
        (λ r by. elim (Option-cases r.last_out_at) [
          | inl e ↦ no_debt (spoken ts preview db_now r) ts ts by (omega arith) (inl (rw e refl))
          | inr (t, e) ↦
              no_debt (spoken ts preview db_now r) ts (max t ts) by (omega arith) (inl (rw e refl))
        ])
        refl h)

  -- Where nothing of a conversation was heard after an instant, the conversation is no candidate for a
  -- debt once it is acknowledged at that instant, whatever the ages and the limit.
  pub acknowledged_not_listed :
      (jid : String) (ts db_now limit : ℕ) (rows : List Conversation)
      → Has jid (HeardBy ts) rows
      → All
          (λ r. is_of jid r ≡ false)
          (list_debt_candidates now min_age max_age limit (acknowledge jid ts db_now rows))
  unfolding acknowledge
  acknowledged_not_listed jid ts db_now limit rows h = not_listed jid limit _ (
      upsert-Has jid (HeardBy ts) (λ r. is_debt now min_age max_age r ≡ false) _
        (acknowledged ts db_now) rows
        (λ r by. elim (Option-cases r.acknowledged_at) [
          | inl e ↦ no_debt (acknowledged ts db_now r) ts ts by (omega arith) (inr (rw e refl))
          | inr (t, e) ↦
              no_debt (acknowledged ts db_now r) ts (max t ts) by (omega arith) (inr (rw e refl))
        ])
        refl h)
