-- ===== src/Common/Counts.antt =====
-- How many rows meet a condition, after an update or an insert.
use evi.Common.{
  ℕ, ◌+◌, ◌≤◌, ◌≡◌, ◌≢◌, Bool, true, not, ◌&&◌, List, [], ◌∷◌, ◌++◌, arith, All, ◌==◌, count,
  update, Bool-cases, inl, inr,
}
use evi.Common.Keyed.{Unique}

module _ {ℓ} {A : Type ℓ} where
  pub count-append : (p : A → Bool) (xs ys : List A) → count p (xs ++ ys) ≡ count p xs + count p ys
  count-append p [] ys = omega arith
  count-append p (x ∷ xs) ys = omega (arith, count-append p xs ys)

  -- An update that makes no row meet the condition anew does not raise the count.
  pub count-update_le :
      (p q : A → Bool) (f : A → A) (xs : List A)
      → ((x : A) → q x ≡ true → p (f x) ≡ true → p x ≡ true)
      → count p (update q f xs) ≤ count p xs
  count-update_le p q f [] h = omega arith
  count-update_le p q f (x ∷ xs) h = ground (arith, h x, count-update_le p q f xs h)

module _ {ℓ} {A : Type ℓ} (key : A → ℕ) where
  count_none :
      (p : A → Bool) (i : ℕ) (xs : List A)
      → All (λ y. key y ≢ i) xs
      → count p xs ≡ count (λ x. p x && not (key x == i)) xs
  count_none p i [] h = omega arith
  count_none p i (x ∷ xs) h = ground (arith, h.0, count_none p i xs h.1)

  -- One key's row is one row.
  pub count-le_others :
      (p : A → Bool) (i : ℕ) (xs : List A)
      → Unique key xs
      → count p xs ≤ count (λ x. p x && not (key x == i)) xs + 1
  count-le_others p i [] u = omega arith
  count-le_others p i (x ∷ xs) u = elim (Bool-cases (key x == i)) [
    | inl e ↦
        let k : key x ≡ i = ground arith in
        let rest = count_none p i xs (rw k at u.0) in ground arith
    | inr e ↦ ground (arith, count-le_others p i xs u.1)
  ]

  -- Updates of one key's row leave the others' count.
  pub count_others-update :
      (p q : A → Bool) (f : A → A) (i : ℕ) (xs : List A)
      → ((x : A) → key (f x) ≡ key x)
      → ((x : A) → q x ≡ true → key x ≡ i)
      → count (λ x. p x && not (key x == i)) (update q f xs)
        ≡ count (λ x. p x && not (key x == i)) xs
  count_others-update p q f i [] keep h = omega arith
  count_others-update p q f i (x ∷ xs) keep h =
      ground (arith, keep x, h x, count_others-update p q f i xs keep h)
