-- ===== src/Common/Chosen.antt =====
-- Keys stay unique among the rows that a query chooses and sorts.
use evi.Common.{
  ℕ, ◌≢◌, sym, Bool, List, [], ◌∷◌, All, All-select, All-sort, All-insert, select, insert, sort,
  Bool-cases, inl, inr,
}
use evi.Common.Keyed.{Unique}

module _ {ℓ} {A : Type ℓ} (key : A → ℕ) where
  pub Unique-select : (p : A → Bool) (xs : List A) → Unique key xs → Unique key (select p xs)
  Unique-select p [] u = tt
  Unique-select p (x ∷ xs) u = elim (Bool-cases (p x)) [
    | inl e ↦ rw e (All-select (λ y. key y ≢ key x) p xs u.0, Unique-select p xs u.1)
    | inr e ↦ rw e (Unique-select p xs u.1)
  ]

  Unique-insert :
      (before : A → A → Bool) (x : A) (xs : List A)
      → All (λ y. key y ≢ key x) xs
      → Unique key xs
      → Unique key (insert before x xs)
  Unique-insert before x [] a u = (tt, tt)
  Unique-insert before x (y ∷ ys) a u = elim (Bool-cases (before y x)) [
    | inl e ↦ rw e (
      All-insert (λ z. key z ≢ key y) before x ys (λ q. a.0 (sym q)) u.0,
      Unique-insert before x ys a.1 u.1,
    )
    | inr e ↦ rw e (a, u)
  ]

  pub Unique-sort :
      (before : A → A → Bool) (xs : List A) → Unique key xs → Unique key (sort before xs)
  Unique-sort before [] u = tt
  Unique-sort before (x ∷ xs) u =
      Unique-insert before x (sort before xs) (All-sort (λ y. key y ≢ key x) before xs u.0)
        (Unique-sort before xs u.1)
