-- ===== src/Session/Memories.antt =====
-- The map of memories stays within its limit, and keeps the one that is asked for.
use evi.Common.{
  ℕ, zero, suc, ◌≤◌, ◌≡◌, refl, String, true, false, not, Option, none, some, List, [], ◌∷◌, ◌++◌,
  ltb, eq_iff, if_both, select, find?, any, length, arith, Bool-cases, inl, inr,
}
use evi.Session.{BoundedMemory, is_session, evict, touched, get_session_memory}

-- What is asked for: the memory of the session, or an empty one.
abbrev pub memory_of {ℓ} : {M : Type ℓ} → String → Option (BoundedMemory M) → BoundedMemory M
memory_of sid none = record { session_id = sid; max_pairs = 8; buffer = []; on_trim = none }
memory_of sid (some m) = m

module _ {ℓ} {M : Type ℓ} where
  evict-length : (limit : ℕ) (ms : List (BoundedMemory M)) → length (evict limit ms) ≤ limit
  unfolding evict
  evict-length limit [] = omega arith
  evict-length limit (m ∷ ms) = ground (arith, evict-length limit ms)

  module _ (sid : String) where
    absent-drop :
        (ms : List (BoundedMemory M))
        → any (is_session sid) (select (λ x. not (is_session sid x)) ms) ≡ false
    absent-drop [] = refl
    absent-drop (m ∷ ms) = ground (arith, absent-drop ms)

    absent-find :
        (ms : List (BoundedMemory M))
        → find? (is_session sid) ms ≡ none
        → any (is_session sid) ms ≡ false
    absent-find [] h = refl
    absent-find (m ∷ ms) h = ground (arith, absent-find ms)

    find-own :
        (ms : List (BoundedMemory M)) (m : BoundedMemory M)
        → find? (is_session sid) ms ≡ some m
        → is_session sid m ≡ true
    find-own [] m h = absurd (ground arith)
    find-own (x ∷ ms) m h = elim (Bool-cases (is_session sid x)) [
      | inl e ↦ ground (arith, h, e)
      | inr e ↦ find-own ms m (rw e at h)
    ]

    evict-last :
        (limit : ℕ) (ms : List (BoundedMemory M)) (m : BoundedMemory M)
        → any (is_session sid) ms ≡ false
        → is_session sid m ≡ true
        → find? (is_session sid) (evict (suc limit) (ms ++ m ∷ [])) ≡ some m
    unfolding evict
    evict-last limit [] m none_of own = ground (arith, own)
    evict-last limit (x ∷ ms) m none_of own =
        let other : is_session sid x ≡ false = ground (arith, none_of) in
        let others : any (is_session sid) ms ≡ false = ground (arith, none_of) in
        let kept = evict-last limit ms m others own in
        if_both (λ out. find? (is_session sid) out ≡ some m)
          (ltb (suc limit) (length (x ∷ ms ++ m ∷ []))) (λ _. kept) (λ _. rw other (last ms others))
      where
        last :
            (xs : List (BoundedMemory M))
            → any (is_session sid) xs ≡ false
            → find? (is_session sid) (xs ++ m ∷ []) ≡ some m
        last [] a = ground (arith, own)
        last (y ∷ ys) a = ground (arith, last ys)

    touched-kept :
        (limit : ℕ) (o : Option (BoundedMemory M)) (ms : List (BoundedMemory M))
        → find? (is_session sid) ms ≡ o
        → find? (is_session sid) (evict (suc limit) (touched sid o ms)) ≡ some (memory_of sid o)
    touched-kept limit none ms e =
        evict-last limit ms (memory_of sid none) (absent-find ms e) ((eq_iff sid sid).1 refl)
    touched-kept limit (some m) ms e =
        evict-last limit (select (λ x. not (is_session sid x)) ms) m (absent-drop ms)
          (find-own ms m e)

  -- With a limit of at least one, asking for the memory of a session leaves at most so many memories,
  -- and that session then has the memory that it had before, or an empty one where it had none.
  pub get_session_memory_kept :
      (limit : ℕ) (sid : String) (ms : List (BoundedMemory M))
      → 1 ≤ limit
      → (length (get_session_memory limit sid ms) ≤ limit)
        × (find? (is_session sid) (get_session_memory limit sid ms)
            ≡ some (memory_of sid (find? (is_session sid) ms)))
  unfolding get_session_memory
  get_session_memory_kept zero sid ms h = absurd (omega (arith, h))
  get_session_memory_kept (suc limit) sid ms h = (
    evict-length (suc limit) (touched sid (find? (is_session sid) ms) ms),
    touched-kept sid limit (find? (is_session sid) ms) ms refl,
  )
