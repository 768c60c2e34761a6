-- ===== src/ReplyDebts/Owed.antt =====
-- What the list of reply debts shows.
use evi.Common.{
  ℕ, ◌≤◌, max, ◌≡◌, refl, sym, ap, subst, String, Bool, true, false, Option, none, some, List, [],
  select, sort, get_or, All, All-map_imp, All-select, All-sort, All-take, All-both, select-meets,
  length, arith, Bool-cases, Option-cases, inl, inr,
}
use evi.Conversation.{Conversation, is_debt, heard_before, list_debt_candidates}
use evi.ReplyDebts.{
  Jids, Wording, Debt, fold_alias_states, latest, owed, debt_of, is_no_debt, list_debts,
}
use evi.ReplyDebts.Listing.{
  Apart, length-collect, All-collect, Apart-collect, All-latest, Apart-latest, Apart-sort,
}

-- The candidates are debts, and what holds of every row of the table holds of them.
pub candidates-All :
    (P : Conversation → Type 0) (now min_age max_age limit : ℕ) (rows : List Conversation)
    → All P rows
    → All
        (λ r. P r × (is_debt now min_age max_age r ≡ true))
        (list_debt_candidates now min_age max_age limit rows)
unfolding list_debt_candidates
candidates-All P now min_age max_age limit rows h =
    let Q : Conversation → Type 0 = λ r. P r × (is_debt now min_age max_age r ≡ true) in
    let debt = is_debt now min_age max_age in
    All-take Q limit _ (
      All-sort Q heard_before (select debt rows) (
        All-both (λ r p d. (p, d)) (select debt rows) (All-select P debt rows h)
          (select-meets debt rows)))

module _ (j : Jids) (w : Wording) (now min_age max_age : ℕ) (P : Conversation → Type 0) where
  -- The debt stands for a row of the table, under the contact's own id.
  pub record Owed (d : Debt) : Type 0 where
    pub row : Conversation
    pub of_table : P row
    pub contact : d.jid ≡ j.canonical row.jid
    pub heard : row.last_in_at ≡ some d.since
    pub unanswered : is_debt now min_age max_age row ≡ true
    pub listed : is_no_debt j w (record row { jid = j.canonical row.jid }) ≡ false

  -- A row after the collapse of the aliases.
  Collapsed : Conversation → Type 0
  Collapsed r =
      (t : Conversation) × P t
      × (is_debt now min_age max_age t ≡ true)
      × (r ≡ record t { jid = j.canonical t.jid })

  debt-heard :
      (r : Conversation)
      → is_debt now min_age max_age r ≡ true
      → r.last_in_at ≡ some (get_or r.last_in_at 0)
  debt-heard r h = elim (Option-cases r.last_in_at) [
    | inl e ↦ absurd (ground (arith, e, h))
    | inr (t, e) ↦ rw e refl
  ]

  debt_of-Owed :
      (t : Conversation) (d : Debt)
      → P t
      → is_debt now min_age max_age t ≡ true
      → owed j w now (record t { jid = j.canonical t.jid }) ≡ some d
      → Owed d
  debt_of-Owed t d p debt e =
      elim (Bool-cases (is_no_debt j w (record t { jid = j.canonical t.jid }))) [
        | inl f ↦ let clash : ◌≡◌ {A = Option Debt} none (some d) = rw f at e in absurd (cc clash)
        | inr f ↦
            let got : ◌≡◌ {A = Option Debt}
                (some (debt_of w now (record t { jid = j.canonical t.jid }))) (some d) =
              rw f at e in
            let same : debt_of w now (record t { jid = j.canonical t.jid }) ≡ d = cc got in
            subst Owed same (record {
              row = t;
              of_table = p;
              contact = refl;
              heard = debt-heard t debt;
              unanswered = debt;
              listed = f;
            })
      ]

  owed-Owed : (r : Conversation) (d : Debt) → owed j w now r ≡ some d → Collapsed r → Owed d
  unfolding Collapsed
  owed-Owed r d e (t, p, debt, same) = debt_of-Owed t d p debt (rw same at e)

  owed-jid : (r : Conversation) (d : Debt) → owed j w now r ≡ some d → d.jid ≡ r.jid
  owed-jid r d e = elim (Bool-cases (is_no_debt j w r)) [
    | inl f ↦ let clash : ◌≡◌ {A = Option Debt} none (some d) = rw f at e in absurd (cc clash)
    | inr f ↦
        let got : ◌≡◌ {A = Option Debt} (some (debt_of w now r)) (some d) = rw f at e in
        let same : debt_of w now r ≡ d = cc got in ap (λ x. x.jid) (sym same)
  ]

-- Whatever holds of every row of the table once the aliases are folded, every debt that is listed
-- stands for a row that it holds of: the contact's message was heard at `since`, later than the last
-- answer and the last acknowledgement, and within the ages; and the row, as the folding leaves it, is
-- none that `is_no_debt` excludes: no one-way sender, no closing or acknowledgement, and
-- no ambiguous message with a valid verdict on this row that refuses it. A contact is listed once, and
-- no more debts than the limit are listed, but one where the limit is 0.
pub list_debts-Owed :
    (j : Jids) (w : Wording) (ok : String → Bool) (now min_age max_age limit db_now : ℕ)
    (P : Conversation → Type 0) (rows : List Conversation)
    → All P (fold_alias_states j ok db_now rows)
    → let out = (list_debts j w ok now min_age max_age limit db_now rows).1 in
      All (Owed j w now min_age max_age P) out × Apart (λ d. d.jid) out × (length out ≤ max limit 1)
unfolding list_debts Collapsed
list_debts-Owed j w ok now min_age max_age limit db_now P rows h =
    let found = list_debt_candidates now min_age max_age 200 (fold_alias_states j ok db_now rows) in
    let shown = sort heard_before (latest (λ r. r.last_in_at) j.canonical found []) in
    (
      All-collect (owed j w now) limit (Owed j w now min_age max_age P)
          (Collapsed j w now min_age max_age P) 0 shown (owed-Owed j w now min_age max_age P)
          (All-sort (Collapsed j w now min_age max_age P) heard_before _ (
            All-latest (λ r. r.last_in_at) (Collapsed j w now min_age max_age P) j.canonical found
              []
              (All-map_imp (λ r h. (r, h.0, h.1, refl)) found
                (candidates-All P now min_age max_age 200 (fold_alias_states j ok db_now rows) h))
              tt)),
      Apart-collect (owed j w now) limit (λ d. d.jid) 0 shown (owed-jid j w now min_age max_age P)
          (Apart-sort heard_before _ (Apart-latest (λ r. r.last_in_at) j.canonical found [] tt)),
      omega (arith, length-collect (owed j w now) limit 0 shown),
    )
