-- ===== src/Probe/Warnings.antt =====
-- How often a warning of the daily checks is sent.
use evi.Common.{
  any-append, ℕ, ◌+◌, ◌≡◌, refl, ◌∙◌, String, Bool, true, false, not, ◌&&◌, ◌||◌, List, [], ◌∷◌,
  ◌++◌, ◌==◌, str_eq, eq_iff, if◌then◌else◌, if_both, any, select, arith, Bool-cases, inl, inr,
}
use evi.Probe.{
  Probes, Calls, Answer, Warned, delivered, refused, raises, is_claim, claim_probe_notification,
  release_probe_notification, mark_probe_notified, rescue, after_answer, notify,
}

module _ (p : ℕ × String → Bool) where
  any-drop : (xs : List (ℕ × String)) → any p (select (λ c. not (p c)) xs) ≡ false
  any-drop [] = refl
  any-drop (x ∷ xs) = ground (arith, any-drop xs)

  -- Dropping what was not there before keeps what was there.
  any-drop_new :
      (q : ℕ × String → Bool) (xs ys : List (ℕ × String))
      → any p xs ≡ false
      → any q xs ≡ true
      → any q (select (λ c. not (p c)) (xs ++ ys)) ≡ true
  any-drop_new q [] ys e h = absurd (ground (arith, h))
  any-drop_new q (x ∷ xs) ys e h = elim (Bool-cases (q x)) [
    | inl u ↦ ground (arith, e, u)
    | inr u ↦
        let rest = any-drop_new q xs ys (ground (arith, e)) (ground (arith, h, u)) in
        ground (arith, e, rest)
  ]

abbrev pub Claimed : ℕ → String → Probes → Type 0
Claimed day check s = any (is_claim day check) s.claims ≡ true

module _ (day : ℕ) (check : String) where
  release-Claimed :
      (d : ℕ) (k : String) (s : Probes)
      → any (is_claim d k) s.claims ≡ false
      → Claimed day check s
      → Claimed day check
          (release_probe_notification d k (record s { claims = s.claims ++ (d, k) ∷ [] }))
  unfolding release_probe_notification
  release-Claimed d k s new h = any-drop_new (is_claim d k) (is_claim day check) s.claims _ new h

  append-Claimed :
      (d : ℕ) (k : String) (s : Probes)
      → Claimed day check s
      → Claimed day check (record s { claims = s.claims ++ (d, k) ∷ [] })
  append-Claimed d k s h = any-append (is_claim day check) s.claims _ ∙ rw h refl

  rescue-Claimed :
      (c : Calls) (d : ℕ) (k : String) (sent : Bool) (s : Probes)
      → any (is_claim d k) s.claims ≡ false
      → Claimed day check s
      → Claimed day check (rescue c d k sent (record s { claims = s.claims ++ (d, k) ∷ [] })).store
  rescue-Claimed c d k sent s new h =
      if_both (Claimed day check) c.rescue_ok (λ _. release-Claimed d k s new h)
        (λ _. append-Claimed d k s h)

  answer-Claimed :
      (c : Calls) (d : ℕ) (k : String) (a : Answer) (s : Probes)
      → any (is_claim d k) s.claims ≡ false
      → Claimed day check s
      → Claimed day check
          (after_answer c d k a (record s { claims = s.claims ++ (d, k) ∷ [] })).store
  unfolding mark_probe_notified
  answer-Claimed c d k delivered s new h =
      if_both (λ (w : Warned). Claimed day check w.store) c.mark_ok (λ _. append-Claimed d k s h)
        (λ _. rescue-Claimed c d k true s new h)
  answer-Claimed c d k refused s new h =
      if_both (λ (w : Warned). Claimed day check w.store) c.release_ok
        (λ _. release-Claimed d k s new h) (λ _. rescue-Claimed c d k false s new h)
  answer-Claimed c d k raises s new h = rescue-Claimed c d k false s new h

  notify-Claimed :
      (c : Calls) (d : ℕ) (k : String) (s : Probes)
      → Claimed day check s
      → Claimed day check (notify c d k s).store
  unfolding notify claim_probe_notification
  notify-Claimed c d k s h = elim (Bool-cases (any (is_claim d k) s.claims)) [
    | inl e ↦ rw e (
        if_both (λ (w : Warned). Claimed day check w.store)
          (str_eq k "telegram" || not c.claim_ok || true) (λ _. h)
          (λ f. absurd (ground (arith, f))))
    | inr e ↦ rw e (
        if_both (λ (w : Warned). Claimed day check w.store)
          (str_eq k "telegram" || not c.claim_ok || false) (λ _. h)
          (λ _. answer-Claimed c d k c.answer s e h))
  ]

  -- Nothing is sent for what is claimed.
  no_warning : (c : Calls) (s : Probes) → Claimed day check s → (notify c day check s).sent ≡ false
  unfolding notify claim_probe_notification
  no_warning c s h = rw h (ground arith)

  -- A warning that was sent and marked stays claimed.
  abbrev Holds : Warned → Type 0
  Holds w = w.result ≡ true → Claimed day check w.store

  answer-Holds :
      (c : Calls) (a : Answer) (s : Probes)
      → Holds (after_answer c day check a (record s { claims = s.claims ++ (day, check) ∷ [] }))
  unfolding mark_probe_notified
  answer-Holds c delivered s =
      if_both Holds c.mark_ok
        (λ _ _. any-append (is_claim day check) s.claims _ ∙ ground (arith, eq_iff check check))
        (λ _ h. absurd (ground (arith, h)))
  answer-Holds c refused s =
      if_both Holds c.release_ok (λ _ h. absurd (ground (arith, h)))
        (λ _ h. absurd (ground (arith, h)))
  answer-Holds c raises s = λ h. absurd (ground (arith, h))

  result-Claimed : (c : Calls) (s : Probes) → Holds (notify c day check s)
  unfolding notify claim_probe_notification
  result-Claimed c s = elim (Bool-cases (any (is_claim day check) s.claims)) [
    | inl e ↦ rw e (
        if_both Holds (str_eq check "telegram" || not c.claim_ok || true)
          (λ _ h. absurd (ground (arith, h))) (λ f. absurd (ground (arith, f))))
    | inr e ↦ rw e (
        if_both Holds (str_eq check "telegram" || not c.claim_ok || false)
          (λ _ h. absurd (ground (arith, h))) (λ _. answer-Holds c c.answer s))
  ]

-- The call of a warning, and how many warnings of one check and day a sequence of calls delivers.
pub record Call : Type 0 where
  pub calls : Calls
  pub day : ℕ
  pub check : String

abbrev pub sends : ℕ → String → List Call → Probes → ℕ
sends day check [] s = 0
sends day check (c ∷ cs) s =
    let w = notify c.calls c.day c.check s in
    (if w.sent && (c.day == day && str_eq c.check check) then 1 else 0) + sends day check cs w.store

sends-Claimed :
    (day : ℕ) (check : String) (cs : List Call) (s : Probes)
    → Claimed day check s
    → sends day check cs s ≡ 0
sends-Claimed day check [] s h = refl
sends-Claimed day check (c ∷ cs) s h =
    let rest =
      sends-Claimed day check cs (notify c.calls c.day c.check s).store
        (notify-Claimed day check c.calls c.day c.check s h) in
    elim (Bool-cases (c.day == day && str_eq c.check check)) [
      | inl k ↦
          let same_day : c.day ≡ day = ground (arith, k) in
          let same_check : c.check ≡ check = ground (arith, k, eq_iff c.check check) in
          let quiet : (notify c.calls c.day c.check s).sent ≡ false =
            no_warning c.day c.check c.calls s (rw (same_day, same_check) h) in
          rw (quiet, rest) refl
      | inr k ↦ ground (arith, k, rest)
    ]

-- After a warning of a check that was sent and marked, whatever warnings of any check and day are
-- asked for, and whatever fails in them, no further warning of that check is sent for the day.
pub warned_once :
    (c : Calls) (day : ℕ) (check : String) (s : Probes) (cs : List Call)
    → (notify c day check s).result ≡ true
    → sends day check cs (notify c day check s).store ≡ 0
warned_once c day check s cs h =
    sends-Claimed day check cs (notify c day check s).store (result-Claimed day check c s h)

-- Where a warning is delivered but the mark raises and the release returns, the claim is given back,
-- so that the next failing run that reaches Telegram sends a second warning for the day.
pub warned_again :
    (c c' : Calls) (day : ℕ) (check : String) (s : Probes)
    → str_eq check "telegram" ≡ false
    → any (is_claim day check) s.claims ≡ false
    → c.claim_ok ≡ true
    → c.answer ≡ delivered
    → c.mark_ok ≡ false
    → c.rescue_ok ≡ true
    → c'.claim_ok ≡ true
    → c'.answer ≡ delivered
    → let w = notify c day check s in
      (w.sent ≡ true) × (w.result ≡ false) × ((notify c' day check w.store).sent ≡ true)
unfolding notify claim_probe_notification release_probe_notification
warned_again c c' day check s tele new ok said mark rescued ok' said' =
    rw (new, tele, ok, said)
      (rw (mark, rescued)
        (
          refl,
          refl,
          rw (any-drop (is_claim day check) (s.claims ++ (day, check) ∷ []), ok', said')
              (ground arith),
        ))
