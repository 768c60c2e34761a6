-- ===== src/Common/Keyed.antt =====
-- Rows with a key: what an update, an insert and a select do to the row of one key, where keys
-- are unique.
use mathlib.Core.Option.{some-injective}
use evi.Common.{
  ◌≤◌, ◌&&◌, ◌||◌, insert, count, length-sort, length-select, take-all, All-both, ℕ, ◌<◌, ◌≡◌, ◌≢◌,
  refl, sym, ◌∙◌, Bool, true, false, Option, none, some, List, [], ◌∷◌, ◌++◌, map, arith, inl, inr,
  ◌==◌, if◌then◌else◌, All, contains, take, select, update, find?, any, sort, Bool-cases,
  All-select, All-sort, All-take, select-meets, All-map_imp,
}

module _ {ℓ} {A : Type ℓ} (key : A → ℕ) where
  abbrev pub get : ℕ → List A → Option A
  get i xs = find? (λ x. key x == i) xs

  abbrev pub keys : List A → List ℕ
  keys = map key

  abbrev pub Unique : List A → Type 0
  Unique [] = Unit
  Unique (x ∷ xs) = All (λ y. key y ≢ key x) xs × Unique xs

  -- What an update does to the row that a look-up finds.
  abbrev pub on_found : (A → Bool) → (A → A) → Option A → Option A
  on_found p f none = none
  on_found p f (some x) = some (if p x then f x else x)

  pub get-update :
      (p : A → Bool) (f : A → A) (i : ℕ) (xs : List A)
      → ((x : A) → key (f x) ≡ key x)
      → get i (update p f xs) ≡ on_found p f (get i xs)
  get-update p f i [] keep = refl
  get-update p f i (x ∷ xs) keep = ground (arith, keep x, get-update p f i xs keep)

  pub get-key : (i : ℕ) (xs : List A) (x : A) → get i xs ≡ some x → key x ≡ i
  get-key i [] x h = cc
  get-key i (y ∷ xs) x h = ground (arith, get-key i xs x)

  pub All-get {κ} :
      (P : A → Type κ) (i : ℕ) (xs : List A) {x : A} → All P xs → get i xs ≡ some x → P x
  All-get P i [] a h = absurd (ground arith)
  All-get P i (y ∷ xs) {x} a h = elim (Bool-cases (key y == i)) [
    | inl e ↦ rw (← first (rw e at h)) a.0
    | inr e ↦ All-get P i xs a.1 (rw e at h)
  ]
    where
      first : {u v : A} → some u ≡ some v → u ≡ v
      first p = cc

  pub get-append :
      (i : ℕ) (xs : List A) (y x : A) → get i xs ≡ some x → get i (xs ++ y ∷ []) ≡ some x
  get-append i [] y x h = ground arith
  get-append i (z ∷ xs) y x h = ground (arith, get-append i xs y x)

  pub All-update_key :
      (i : ℕ) (p : A → Bool) (f : A → A) (xs : List A)
      → ((x : A) → key (f x) ≡ key x)
      → All (λ y. key y ≢ i) xs
      → All (λ y. key y ≢ i) (update p f xs)
  All-update_key i p f [] keep h = tt
  All-update_key i p f (x ∷ xs) keep h = elim (Bool-cases (p x)) [
    | inl e ↦ rw e ((λ q. h.0 (sym (keep x) ∙ q)), All-update_key i p f xs keep h.1)
    | inr e ↦ rw e (h.0, All-update_key i p f xs keep h.1)
  ]

  pub Unique-update :
      (p : A → Bool) (f : A → A) (xs : List A)
      → ((x : A) → key (f x) ≡ key x)
      → Unique xs
      → Unique (update p f xs)
  Unique-update p f [] keep h = tt
  Unique-update p f (x ∷ xs) keep h = elim (Bool-cases (p x)) [
    | inl e ↦ rw (e, keep x) (All-update_key (key x) p f xs keep h.0, Unique-update p f xs keep h.1)
    | inr e ↦ rw e (All-update_key (key x) p f xs keep h.0, Unique-update p f xs keep h.1)
  ]

  pub Unique-append :
      (xs : List A) (y : A) → All (λ x. key x < key y) xs → Unique xs → Unique (xs ++ y ∷ [])
  Unique-append [] y h u = (tt, tt)
  Unique-append (x ∷ xs) y h u = (apart xs u.0, Unique-append xs y h.1 u.1)
    where
      apart : (zs : List A) → All (λ z. key z ≢ key x) zs → All (λ z. key z ≢ key x) (zs ++ y ∷ [])
      apart [] a = ((λ e. omega (arith, h.0)), tt)
      apart (z ∷ zs) a = (a.0, apart zs a.1)

  -- The row that a look-up finds is the only one of its key.
  pub get_only :
      (i : ℕ) (xs : List A) {r : A}
      → Unique xs
      → get i xs ≡ some r
      → All (λ x. key x ≡ i → x ≡ r) xs
  get_only i [] u h = tt
  get_only i (x ∷ xs) {r} u h = elim (Bool-cases (key x == i)) [
    | inl e ↦
        let k : key x ≡ i = ground arith in
        ((λ q. first (rw e at h)), All-map_imp (λ y ne q. absurd (ne (q ∙ sym k))) xs u.0)
    | inr e ↦ ((λ q. absurd (ground arith)), get_only i xs u.1 (rw e at h))
  ]
    where
      first : {a b : A} → some a ≡ some b → a ≡ b
      first p = cc

  contains-keys :
      (p : A → Bool) (r : A) (i : ℕ) (xs : List A)
      → All (λ x. key x ≡ i → x ≡ r) xs
      → All (λ x. p x ≡ true) xs
      → contains i (keys xs) ≡ true
      → p r ≡ true
  contains-keys p r i [] o m h = cc
  contains-keys p r i (x ∷ xs) o m h = elim (Bool-cases (i == key x)) [
    | inl e ↦ rw (← o.0 (ground arith)) m.0
    | inr e ↦ contains-keys p r i xs o.1 m.1 (rw e at h)
  ]

  -- A key among the chosen ones is that of a row that meets the condition.
  pub chosen-meets :
      (before : A → A → Bool) (p : A → Bool) (limit i : ℕ) (xs : List A) {r : A}
      → Unique xs
      → get i xs ≡ some r
      → contains i (keys (take limit (sort before (select p xs)))) ≡ true
      → p r ≡ true
  chosen-meets before p limit i xs {r} u h c =
      let only = λ (x : A). key x ≡ i → x ≡ r in
      let meets = λ (x : A). p x ≡ true in
      contains-keys p r i (take limit (sort before (select p xs)))
        (All-take only limit _ (All-sort only before _ (All-select only p xs (get_only i xs u h))))
        (All-take meets limit _ (All-sort meets before _ (select-meets p xs))) c

  -- Where keys are unique, each row is the one that its key finds.
  pub All-found : (xs : List A) → Unique xs → All (λ x. get (key x) xs ≡ some x) xs
  All-found [] u = tt
  All-found (x ∷ xs) u =
      (ground arith, All-both (λ y ne found. ground (arith, ne)) xs u.0 (All-found xs u.1))

  module _ (q : A → Bool) where
    pub any-get-some :
        (i : ℕ) (xs : List A) (r : A)
        → Unique xs
        → get i xs ≡ some r
        → any (λ x. key x == i && q x) xs ≡ q r
    any-get-some i [] r u h = cc
    any-get-some i (x ∷ xs) r u h = elim (Bool-cases (key x == i)) [
      | inl e ↦
          let same : x ≡ r = some-injective x r (rw e at h) in
          let k : key x ≡ i = ground arith in
          rw (e, any_absent i xs (All-map_imp (λ y ne p. ne (p ∙ sym k)) xs u.0), same)
            (ground arith)
      | inr e ↦ rw e (any-get-some i xs r u.1 (rw e at h))
    ]
      where
        any_absent :
            (j : ℕ) (ys : List A)
            → All (λ y. key y ≢ j) ys
            → any (λ y. key y == j && q y) ys ≡ false
        any_absent j [] a = refl
        any_absent j (y ∷ ys) a = ground (arith, a.0, any_absent j ys a.1)

  select_absent : (i : ℕ) (xs : List A) → All (λ y. key y ≢ i) xs → select (λ y. key y == i) xs ≡ []
  select_absent i [] a = refl
  select_absent i (y ∷ ys) a = ground (arith, a.0, select_absent i ys a.1)

  -- `SELECT … WHERE key = i` returns at most one row.
  pub select-get :
      (i : ℕ) (xs : List A) (r : A)
      → Unique xs
      → get i xs ≡ some r
      → select (λ x. key x == i) xs ≡ r ∷ []
  select-get i [] r u h = cc
  select-get i (x ∷ xs) r u h = elim (Bool-cases (key x == i)) [
    | inl e ↦
        let same : x ≡ r = some-injective x r (rw e at h) in
        let k : key x ≡ i = ground arith in
        rw (e, select_absent i xs (All-map_imp (λ y ne p. ne (p ∙ sym k)) xs u.0), same)
    | inr e ↦ rw e (select-get i xs r u.1 (rw e at h))
  ]

  contains-insert :
      (before : A → A → Bool) (i : ℕ) (x : A) (xs : List A)
      → contains i (keys (insert before x xs)) ≡ (i == key x || contains i (keys xs))
  contains-insert before i x [] = refl
  contains-insert before i x (y ∷ ys) = ground (arith, contains-insert before i x ys)

  pub contains-sort :
      (before : A → A → Bool) (i : ℕ) (xs : List A)
      → contains i (keys (sort before xs)) ≡ contains i (keys xs)
  contains-sort before i [] = refl
  contains-sort before i (x ∷ xs) =
      contains-insert before i x (sort before xs) ∙ rw (contains-sort before i xs)

  pub contains-select :
      (p : A → Bool) (i : ℕ) (xs : List A) (r : A)
      → get i xs ≡ some r
      → p r ≡ true
      → contains i (keys (select p xs)) ≡ true
  contains-select p i [] r h m = cc
  contains-select p i (x ∷ xs) r h m = ground (arith, contains-select p i xs r)

  -- A row that meets the condition is chosen, where the limit leaves room for all such rows.
  pub meets-chosen :
      (before : A → A → Bool) (p : A → Bool) (limit i : ℕ) (xs : List A) (r : A)
      → get i xs ≡ some r
      → p r ≡ true
      → count p xs ≤ limit
      → contains i (keys (take limit (sort before (select p xs)))) ≡ true
  meets-chosen before p limit i xs r h m room =
      rw
        (take-all limit (sort before (select p xs))
          (omega (arith, length-sort before (select p xs), length-select p xs)))
        (contains-sort before i (select p xs) ∙ contains-select p i xs r h m)
