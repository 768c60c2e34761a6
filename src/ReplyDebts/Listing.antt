-- ===== src/ReplyDebts/Listing.antt =====
-- The lists of reply debts as lists: their limit, their order of contacts, and where a row comes from.
use evi.Common.{
  ℕ, suc, ◌+◌, ◌≤◌, max, ◌≡◌, subst, String, Bool, false, Option, some, List, [], ◌∷◌, leb, str_eq,
  eq_iff, if_both, sort, insert, All, All-insert, All-sort, length, arith, Option-cases, inl, inr,
}
use evi.Conversation.{Conversation}
use evi.ReplyDebts.{keep, latest, collect}

-- Every element stands for another text than those after it.
abbrev pub Apart {ℓ} : {A : Type ℓ} → (A → String) → List A → Type 0
Apart key [] = Unit
Apart key (x ∷ xs) = All (λ y. str_eq (key y) (key x) ≡ false) xs × Apart key xs

str_eq_sym : (a b : String) → str_eq a b ≡ false → str_eq b a ≡ false
str_eq_sym a b e = ground (arith, eq_iff a b, eq_iff b a, e)

module _ {ℓ} {A : Type ℓ} (take_row : Conversation → Option A) (limit : ℕ) where
  pub length-collect :
      (n : ℕ) (rs : List Conversation)
      → length (collect take_row limit n rs) + n ≤ max limit (suc n)
  unfolding collect
  length-collect n [] = omega arith
  length-collect n (r ∷ rs) = elim (Option-cases (take_row r)) [
    | inl e ↦ rw e (length-collect n rs)
    | inr (a, e) ↦ rw e (ground (arith, length-collect (suc n) rs))
  ]

module _ {ℓ κ μ} {A : Type ℓ} (take_row : Conversation → Option A) (limit : ℕ) (P : A → Type κ)
    (Q : Conversation → Type μ) where
  pub All-collect :
      (n : ℕ) (rs : List Conversation)
      → ((r : Conversation) (a : A) → take_row r ≡ some a → Q r → P a)
      → All Q rs
      → All P (collect take_row limit n rs)
  unfolding collect
  All-collect n [] take h = tt
  All-collect n (r ∷ rs) take h = elim (Option-cases (take_row r)) [
    | inl e ↦ rw e (All-collect n rs take h.1)
    | inr (a, e) ↦ rw e (
      take r a e h.0,
      if_both (All P) (leb limit (suc n)) (λ _. tt) (λ _. All-collect (suc n) rs take h.1),
    )
  ]

module _ {ℓ} {A : Type ℓ} (take_row : Conversation → Option A) (limit : ℕ) (key : A → String) where
  -- Rows that stand apart give elements that stand apart, where an element keeps the text of its row.
  pub Apart-collect :
      (n : ℕ) (rs : List Conversation)
      → ((r : Conversation) (a : A) → take_row r ≡ some a → key a ≡ r.jid)
      → Apart (λ r. r.jid) rs
      → Apart key (collect take_row limit n rs)
  unfolding collect
  Apart-collect n [] same h = tt
  Apart-collect n (r ∷ rs) same h = elim (Option-cases (take_row r)) [
    | inl e ↦ rw e (Apart-collect n rs same h.1)
    | inr (a, e) ↦ rw e (
      if_both (All (λ b. str_eq (key b) (key a) ≡ false)) (leb limit (suc n)) (λ _. tt)
          (λ _.
            All-collect take_row limit (λ b. str_eq (key b) (key a) ≡ false)
              (λ t. str_eq t.jid r.jid ≡ false) (suc n) rs
              (λ t b f ne. rw (same t b f, same r a e) ne) h.0),
      if_both (Apart key) (leb limit (suc n)) (λ _. tt) (λ _. Apart-collect (suc n) rs same h.1),
    )
  ]

module _ (time : Conversation → Option ℕ) where
  All-keep :
      (P : Conversation → Type 0) (r : Conversation) (xs : List Conversation)
      → P r
      → All P xs
      → All P (keep time r xs)
  All-keep P r [] p h = (p, tt)
  All-keep P r (x ∷ xs) p h =
      if_both (All P) (str_eq x.jid r.jid) (λ _. (if_both P _ (λ _. p) (λ _. h.0), h.1))
        (λ _. (h.0, All-keep P r xs p h.1))

  Apart-keep :
      (r : Conversation) (xs : List Conversation)
      → Apart (λ r. r.jid) xs
      → Apart (λ r. r.jid) (keep time r xs)
  Apart-keep r [] h = (tt, tt)
  Apart-keep r (x ∷ xs) h =
      if_both (Apart (λ r. r.jid)) (str_eq x.jid r.jid)
        (λ e. (
          if_both (λ (t : Conversation). All (λ y. str_eq y.jid t.jid ≡ false) xs) _
              (λ _.
                subst (λ j. All (λ y. str_eq y.jid j ≡ false) xs) ((eq_iff x.jid r.jid).0 e) h.0)
              (λ _. h.0),
          h.1,
        ))
        (λ e. (
          All-keep (λ y. str_eq y.jid x.jid ≡ false) r xs (str_eq_sym x.jid r.jid e) h.0,
          Apart-keep r xs h.1,
        ))

  pub All-latest :
      (P : Conversation → Type 0) (canonical : String → String) (rs kept : List Conversation)
      → All (λ r. P (record r { jid = canonical r.jid })) rs
      → All P kept
      → All P (latest time canonical rs kept)
  unfolding latest
  All-latest P canonical [] kept h k = k
  All-latest P canonical (r ∷ rs) kept h k =
      All-latest P canonical rs (keep time (record r { jid = canonical r.jid }) kept) h.1
        (All-keep P (record r { jid = canonical r.jid }) kept h.0 k)

  pub Apart-latest :
      (canonical : String → String) (rs kept : List Conversation)
      → Apart (λ r. r.jid) kept
      → Apart (λ r. r.jid) (latest time canonical rs kept)
  unfolding latest
  Apart-latest canonical [] kept k = k
  Apart-latest canonical (r ∷ rs) kept k =
      Apart-latest canonical rs (keep time (record r { jid = canonical r.jid }) kept)
        (Apart-keep (record r { jid = canonical r.jid }) kept k)

module _ (before : Conversation → Conversation → Bool) where
  Apart-insert :
      (x : Conversation) (xs : List Conversation)
      → All (λ y. str_eq y.jid x.jid ≡ false) xs
      → Apart (λ r. r.jid) xs
      → Apart (λ r. r.jid) (insert before x xs)
  Apart-insert x [] ne h = (tt, tt)
  Apart-insert x (y ∷ ys) ne h =
      if_both (Apart (λ r. r.jid)) (before y x)
        (λ _. (
          All-insert (λ t. str_eq t.jid y.jid ≡ false) before x ys (str_eq_sym y.jid x.jid ne.0)
              h.0,
          Apart-insert x ys ne.1 h.1,
        ))
        (λ _. (ne, h))

  pub Apart-sort :
      (xs : List Conversation) → Apart (λ r. r.jid) xs → Apart (λ r. r.jid) (sort before xs)
  Apart-sort [] h = tt
  Apart-sort (x ∷ xs) h =
      Apart-insert x (sort before xs) (All-sort (λ y. str_eq y.jid x.jid ≡ false) before xs h.0)
        (Apart-sort xs h.1)
