-- ===== src/Webhook/Recent.antt =====
-- How recently an id was added to the ids that were seen: what adding, saving and loading do to it.
use evi.Common.{
  ℕ, suc, zero, ◌+◌, ◌-◌, ◌≤◌, ◌≡◌, String, Bool, true, false, not, Option, List, [], ◌∷◌, ◌++◌,
  ltb, leb, ◌==◌, str_eq, eq_iff, if◌then◌else◌, if_both, select, drop, length, length-append,
  arith, Bool-cases, inl, inr,
}
use evi.Webhook.{has, seen_of, remember_id, add_ids, newest_ids, load_seen_ids, save_seen_ids}

-- Fewer than `n` ids were added after the id.
abbrev pub recent : String → ℕ → List String → Bool
recent id n [] = false
recent id n (x ∷ xs) = if str_eq x id then ltb (length xs) n else recent id n xs

module _ {A : Type 0} (p : A → Bool) where
  select-length_le : (xs : List A) → length (select p xs) ≤ length xs
  select-length_le [] = omega arith
  select-length_le (x ∷ xs) = ground (arith, select-length_le xs)

module _ (id : String) where
  pub recent-has : (n : ℕ) (xs : List String) → recent id n xs ≡ true → has id xs ≡ true
  recent-has n [] h = h
  recent-has n (x ∷ xs) h = ground (arith, recent-has n xs)

  pub recent_mono :
      (n k : ℕ) (xs : List String) → n ≤ k → recent id n xs ≡ true → recent id k xs ≡ true
  recent_mono n k [] le h = h
  recent_mono n k (x ∷ xs) le h = ground (arith, recent_mono n k xs le)

  recent-append :
      (n : ℕ) (y : String) (xs : List String)
      → recent id n xs ≡ true
      → recent id (suc n) (xs ++ y ∷ []) ≡ true
  recent-append n y [] h = absurd (ground arith)
  recent-append n y (x ∷ xs) h = ground (arith, recent-append n y xs, length-append xs (y ∷ []))

  pub recent-last :
      (xs : List String) → recent id 1 (select (λ y. not (str_eq y id)) xs ++ id ∷ []) ≡ true
  recent-last [] = ground (arith, eq_iff id id)
  recent-last (x ∷ xs) = ground (arith, recent-last xs)

  recent-select :
      (n : ℕ) (y : String) (xs : List String)
      → str_eq y id ≡ false
      → recent id n xs ≡ true
      → recent id n (select (λ z. not (str_eq z y)) xs) ≡ true
  recent-select n y [] ne h = h
  recent-select n y (x ∷ xs) ne h = ground (
    arith,
    recent-select n y xs ne,
    eq_iff x y,
    eq_iff x id,
    eq_iff y id,
    select-length_le (λ z. not (str_eq z y)) xs,
  )

  length-seen_of : (xs : List String) → length (seen_of xs) ≤ length xs
  length-seen_of [] = omega arith
  length-seen_of (x ∷ xs) =
      omega (arith, length-seen_of xs, select-length_le (λ y. not (str_eq y x)) (seen_of xs))

  recent-seen_of :
      (n : ℕ) (xs : List String) → recent id n xs ≡ true → recent id n (seen_of xs) ≡ true
  recent-seen_of n [] h = h
  recent-seen_of n (x ∷ xs) h = elim (Bool-cases (str_eq x id)) [
    | inl e ↦
        ground
          (arith, e, h, length-seen_of xs, select-length_le (λ y. not (str_eq y x)) (seen_of xs))
    | inr ne ↦ rw ne (recent-select n x (seen_of xs) ne (recent-seen_of n xs (rw ne at h)))
  ]

  recent-drop :
      (n k : ℕ) (xs : List String)
      → k + n ≤ length xs
      → recent id n xs ≡ true
      → recent id n (drop k xs) ≡ true
  recent-drop n zero xs le h = h
  recent-drop n (suc k) [] le h = h
  recent-drop n (suc k) (x ∷ xs) le h = elim (Bool-cases (str_eq x id)) [
    | inl e ↦ absurd (ground (arith, e, h, le))
    | inr ne ↦ recent-drop n k xs (omega (arith, le)) (rw ne at h)
  ]

  recent-newest_ids :
      (n limit : ℕ) (xs : List String)
      → n ≤ limit
      → recent id n xs ≡ true
      → recent id n (newest_ids limit xs) ≡ true
  recent-newest_ids n limit xs le h =
      if_both (λ out. recent id n out ≡ true) (limit == 0) (λ _. h)
        (λ _. elim (Bool-cases (leb limit (length xs))) [
          | inl e ↦ recent-drop n (length xs - limit) xs (ground (arith, le, e)) h
          | inr e ↦ let none_left : length xs - limit ≡ 0 = ground (arith, e) in rw none_left h
        ])

  -- A saved file, loaded again.
  pub recent-load-save :
      (n : ℕ) (xs : List String)
      → n ≤ 5000
      → recent id n xs ≡ true
      → recent id n (load_seen_ids (save_seen_ids xs)) ≡ true
  unfolding load_seen_ids save_seen_ids
  recent-load-save n xs le h =
      recent-seen_of n (newest_ids 5000 (newest_ids 5000 xs))
        (recent-newest_ids n 5000 (newest_ids 5000 xs) le (recent-newest_ids n 5000 xs le h))

  pub recent-remember_id :
      (n : ℕ) (y : String) (xs : List String)
      → recent id n xs ≡ true
      → recent id (suc n) (remember_id y xs) ≡ true
  recent-remember_id n y xs h = elim (Bool-cases (str_eq y id)) [
    | inl e ↦
        let same : y ≡ id = (eq_iff y id).0 e in
        rw same (recent_mono 1 (suc n) (remember_id id xs) (omega arith) (recent-last xs))
    | inr ne ↦ recent-append n y _ (recent-select n y xs ne h)
  ]

  pub recent-add_ids :
      (n : ℕ) (ys xs : List String)
      → recent id n xs ≡ true
      → recent id (n + length ys) (add_ids ys xs) ≡ true
  recent-add_ids n [] xs h = recent_mono n (n + 0) xs (omega arith) h
  recent-add_ids n (y ∷ ys) xs h =
      recent_mono (suc n + length ys) (n + suc (length ys)) (add_ids ys (remember_id y xs))
        (omega arith) (recent-add_ids (suc n) ys (remember_id y xs) (recent-remember_id n y xs h))

  -- What was added among others was added recently.
  pub added-recent :
      (ys xs : List String) → has id ys ≡ true → recent id (length ys) (add_ids ys xs) ≡ true
  added-recent [] xs h = absurd (ground arith)
  added-recent (y ∷ ys) xs h = elim (Bool-cases (str_eq y id)) [
    | inl e ↦
        let same : y ≡ id = (eq_iff y id).0 e in
        rw same (
          recent_mono (1 + length ys) (suc (length ys)) (add_ids ys (remember_id id xs))
            (omega arith) (recent-add_ids 1 ys (remember_id id xs) (recent-last xs)))
    | inr ne ↦
        recent_mono (length ys) (suc (length ys)) (add_ids ys (remember_id y xs)) (omega arith)
          (added-recent ys (remember_id y xs) (rw ne at h))
  ]

  -- The id was added to the file, and fewer than `n` after it.
  abbrev pub Recent : ℕ → Option (List String) → Type 0
  Recent n file = recent id n (load_seen_ids file) ≡ true
