-- ===== src/Common/Rows.antt =====
-- Tables as lists of rows: the SQL that the program sends, as functions on lists.
use Prim.Native.Nat.{ℕ, zero, suc, ◌+◌, ◌≤◌}
use mathlib.Core.Path.{◌≡◌, refl, ◌∙◌}
use mathlib.Core.Bool.{Bool, true, false, ◌||◌}
use mathlib.Core.Logic.{inl, inr}
use mathlib.Core.Option.{Option, none, some}
use mathlib.Core.List.{List, [], ◌∷◌, ◌++◌}
use native.Mathlib.Omega.{arith}
use evi.Common.Tests.{if◌then◌else◌, Bool-cases}
use evi.Common.Lists.{All, length, take}

module _ {ℓ} {A : Type ℓ} where
  -- `SELECT … WHERE p`
  abbrev pub select : (A → Bool) → List A → List A
  select p [] = []
  select p (x ∷ xs) = let rest = select p xs in if p x then x ∷ rest else rest

  -- `UPDATE … SET f WHERE p`
  abbrev pub update : (A → Bool) → (A → A) → List A → List A
  update p f [] = []
  update p f (x ∷ xs) = (if p x then f x else x) ∷ update p f xs

  -- `rowcount > 0` of such an update, and `EXISTS`
  abbrev pub any : (A → Bool) → List A → Bool
  any p [] = false
  any p (x ∷ xs) = p x || any p xs

  -- `fetchone()` of such a select
  abbrev pub find? : (A → Bool) → List A → Option A
  find? p [] = none
  find? p (x ∷ xs) = if p x then some x else find? p xs

  -- `COUNT(*) … WHERE p`
  abbrev pub count : (A → Bool) → List A → ℕ
  count p [] = 0
  count p (x ∷ xs) = (if p x then 1 else 0) + count p xs

  -- `ORDER BY`: `before a b` says that `a` goes first. Ties keep the order of the table.
  abbrev pub insert : (A → A → Bool) → A → List A → List A
  insert before x [] = x ∷ []
  insert before x (y ∷ ys) = if before y x then y ∷ insert before x ys else x ∷ y ∷ ys

  abbrev pub sort : (A → A → Bool) → List A → List A
  sort before [] = []
  sort before (x ∷ xs) = insert before x (sort before xs)

module _ {ℓ κ} {A : Type ℓ} (P : A → Type κ) where
  pub All-select : (p : A → Bool) (xs : List A) → All P xs → All P (select p xs)
  All-select p [] h = tt
  All-select p (x ∷ xs) h = elim (Bool-cases (p x)) [
    | inl e ↦ rw e (h.0, All-select p xs h.1)
    | inr e ↦ rw e (All-select p xs h.1)
  ]

  pub All-insert :
      (before : A → A → Bool) (x : A) (xs : List A) → P x → All P xs → All P (insert before x xs)
  All-insert before x [] hx h = (hx, tt)
  All-insert before x (y ∷ ys) hx h = elim (Bool-cases (before y x)) [
    | inl e ↦ rw e (h.0, All-insert before x ys hx h.1)
    | inr e ↦ rw e (hx, h)
  ]

  pub All-sort : (before : A → A → Bool) (xs : List A) → All P xs → All P (sort before xs)
  All-sort before [] h = tt
  All-sort before (x ∷ xs) h = All-insert before x (sort before xs) h.0 (All-sort before xs h.1)

  pub All-update :
      (p : A → Bool) (f : A → A) (xs : List A)
      → ((x : A) → p x ≡ true → P x → P (f x))
      → All P xs
      → All P (update p f xs)
  All-update p f [] keep h = tt
  All-update p f (x ∷ xs) keep h = elim (Bool-cases (p x)) [
    | inl e ↦ rw e (keep x e h.0, All-update p f xs keep h.1)
    | inr e ↦ rw e (h.0, All-update p f xs keep h.1)
  ]

module _ {ℓ} {A : Type ℓ} where
  -- what a select returns meets its condition
  pub select-meets : (p : A → Bool) (xs : List A) → All (λ x. p x ≡ true) (select p xs)
  select-meets p [] = tt
  select-meets p (x ∷ xs) = elim (Bool-cases (p x)) [
    | inl e ↦ rw e (e, select-meets p xs)
    | inr e ↦ rw e (select-meets p xs)
  ]

module _ {ℓ κ μ} {A : Type ℓ} (P : A → Type κ) (Q : A → Type μ) where
  pub update-All :
      (p : A → Bool) (f : A → A) (xs : List A)
      → ((x : A) → p x ≡ true → P x → Q (f x))
      → ((x : A) → p x ≡ false → P x → Q x)
      → All P xs
      → All Q (update p f xs)
  update-All p f [] hit miss h = tt
  update-All p f (x ∷ xs) hit miss h = elim (Bool-cases (p x)) [
    | inl e ↦ rw e (hit x e h.0, update-All p f xs hit miss h.1)
    | inr e ↦ rw e (miss x e h.0, update-All p f xs hit miss h.1)
  ]

module _ {ℓ} {A : Type ℓ} where
  pub length-insert :
      (before : A → A → Bool) (x : A) (xs : List A) → length (insert before x xs) ≡ suc (length xs)
  length-insert before x [] = refl
  length-insert before x (y ∷ ys) = ground (arith, length-insert before x ys)

  pub length-sort : (before : A → A → Bool) (xs : List A) → length (sort before xs) ≡ length xs
  length-sort before [] = refl
  length-sort before (x ∷ xs) =
      omega (arith, length-insert before x (sort before xs), length-sort before xs)

  pub length-select : (p : A → Bool) (xs : List A) → length (select p xs) ≡ count p xs
  length-select p [] = refl
  length-select p (x ∷ xs) = ground (arith, length-select p xs)

  pub take-all : (n : ℕ) (xs : List A) → length xs ≤ n → take n xs ≡ xs
  take-all zero [] h = refl
  take-all zero (x ∷ xs) h = absurd (omega arith)
  take-all (suc n) [] h = refl
  take-all (suc n) (x ∷ xs) h = rw (take-all n xs (omega arith))

-- What a lookup finds after the rows changed.
module _ {ℓ} {A : Type ℓ} (p : A → Bool) where
  pub find-update :
      (q : A → Bool) (f : A → A) (xs : List A) (r : A)
      → ((x : A) → p (f x) ≡ p x)
      → find? p xs ≡ some r
      → find? p (update q f xs) ≡ some (if q r then f r else r)
  find-update q f [] r keep h = absurd (ground arith)
  find-update q f (x ∷ xs) r keep h = elim (Bool-cases (p x)) [
    | inl e ↦
        let same : ◌≡◌ {A = Option A} (some x) (some r) = rw e at h in
        elim (Bool-cases (q x)) [
          | inl u ↦ let hit : p (f x) ≡ true = keep x ∙ e in rw u (rw hit (ground (arith, same, u)))
          | inr u ↦ rw u (rw e (ground (arith, same, u)))
        ]
    | inr e ↦
        let rest = find-update q f xs r keep (rw e at h) in
        elim (Bool-cases (q x)) [
          | inl u ↦ let miss : p (f x) ≡ false = keep x ∙ e in rw u (rw miss rest)
          | inr u ↦ rw u (rw e rest)
        ]
  ]

  pub find-append : (xs ys : List A) (r : A) → find? p xs ≡ some r → find? p (xs ++ ys) ≡ some r
  find-append [] ys r h = absurd (ground arith)
  find-append (x ∷ xs) ys r h = elim (Bool-cases (p x)) [
    | inl e ↦ rw e (rw e at h)
    | inr e ↦ rw e (find-append xs ys r (rw e at h))
  ]

  pub any-append : (xs ys : List A) → any p (xs ++ ys) ≡ (any p xs || any p ys)
  any-append [] ys = refl
  any-append (x ∷ xs) ys = ground (arith, any-append xs ys)
