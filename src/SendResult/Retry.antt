-- ===== src/SendResult/Retry.antt =====
-- The retry is bounded, and a message counts as sent exactly when an attempt delivered it and every
-- attempt before failed in a way that is worth another.
use native.Mathlib.Nat.{add-suc, add-zero, suc-add}
use evi.Common.{
  ℕ, zero, suc, ◌+◌, ◌≤◌, ◌<◌, ◌≡◌, Bool, true, false, none, arith, ◌&&◌, refl, leb, ltb, inl, inr,
  Bool-cases, ◌↔◌, if◌then◌else◌,
}
use evi.SendResult.{
  SendResult, Reason, Response, answered, http_error, transport_error, Verdict, returns, breaks,
  retries, transport, fail, judge, attempt_from, post_with_retry,
}

-- A 2xx answer.
abbrev pub delivers : Response → Bool
delivers (answered status mid) = leb 200 status && ltb status 300
delivers _ = false

-- A transport error or a status of 500 and above.
abbrev pub is_retriable : Response → Bool
is_retriable (answered status mid) = leb 500 status
is_retriable (http_error code) = leb 500 code
is_retriable transport_error = true

-- What a verdict tells of the response.
abbrev Says : Response → Verdict → Type 0
Says response (returns r) = r.sent ≡ true → delivers response ≡ true
Says response (breaks reason) = Unit
Says response (retries reason) = is_retriable response ≡ true

module _ (capture : Bool) (attempts : ℕ) (respond : ℕ → Response) where
  -- Attempt `attempt + k` delivers, after `k` retriable ones.
  pub record DeliversAt (attempt k : ℕ) : Type 0 where
    pub delivered : delivers (respond (attempt + k)) ≡ true
    pub before : (j : ℕ) → j < k → is_retriable (respond (attempt + j)) ≡ true

  judge_retries :
      (attempt : ℕ)
      → is_retriable (respond attempt) ≡ true
      → (reason : Reason) × (judge capture attempt (respond attempt) ≡ retries reason)
  unfolding judge
  judge_retries attempt h = go (respond attempt) h
    where
      go :
          (r : Response)
          → is_retriable r ≡ true
          → (reason : Reason) × (judge capture attempt r ≡ retries reason)
      go (answered status mid) h = (Reason.http_5xx, ground arith)
      go (http_error code) h = (Reason.http_5xx, ground arith)
      go transport_error h = (transport, refl)

  judge-delivers :
      (attempt : ℕ)
      → delivers (respond attempt) ≡ true
      → (r : SendResult) × (judge capture attempt (respond attempt) ≡ returns r)
        × (r.sent ≡ true)
        × (r.attempts ≡ attempt)
  unfolding judge
  judge-delivers attempt h = go (respond attempt) h
    where
      go :
          (r : Response)
          → delivers r ≡ true
          → (s : SendResult) × (judge capture attempt r ≡ returns s)
            × (s.sent ≡ true)
            × (s.attempts ≡ attempt)
      go (answered status mid) h =
          (evi.SendResult.ok attempt (if capture then mid else none), ground arith, refl, refl)
      go (http_error code) h = cc
      go transport_error h = cc

  judge-Says : (attempt : ℕ) (r : Response) → Says r (judge capture attempt r)
  unfolding judge
  judge-Says attempt (answered status mid) = elim (Bool-cases (leb 200 status && ltb status 300)) [
    | inl e ↦ rw e (λ _. e)
    | inr e ↦ elim (Bool-cases (leb 500 status)) [
      | inl big ↦ rw (e, big) big
      | inr small ↦ rw (e, small) tt
    ]
  ]
  judge-Says attempt (http_error code) = elim (Bool-cases (ltb code 500)) [
    | inl e ↦ rw e (λ h. cc)
    | inr e ↦ rw e (ground arith)
  ]
  judge-Says attempt transport_error = refl

  -- A run that reports `sent` had a delivering attempt, with retriable ones before it.
  attempt_from-DeliversAt :
      (left attempt : ℕ) (last : Reason)
      → (attempt_from capture attempts respond left attempt last).0.sent ≡ true
      → (k : ℕ) × (k < left) × DeliversAt attempt k
  unfolding attempt_from
  attempt_from-DeliversAt zero attempt last h = cc
  attempt_from-DeliversAt (suc left) attempt last h =
      go (judge capture attempt (respond attempt)) (judge-Says attempt (respond attempt)) refl
        (attempt_from-DeliversAt left (suc attempt))
    where
      go :
          (v : Verdict)
          → Says (respond attempt) v
          → judge capture attempt (respond attempt) ≡ v
          → ((last : Reason)
              → (attempt_from capture attempts respond left (suc attempt) last).0.sent ≡ true
              → (k : ℕ) × (k < left) × DeliversAt (suc attempt) k)
          → (k : ℕ) × (k < suc left) × DeliversAt attempt k
      go (returns r) says e ih = (
        0,
        omega arith,
        record {
          delivered = rw (add-zero) (says (rw (e, attempt_from) at h));
          before = λ j p. absurd (omega arith);
        },
      )
      go (breaks reason) says e ih =
          let no_send : ◌≡◌ {A = Bool} false true = rw (e, attempt_from) at h in cc
      go (retries reason) says e ih =
          let (k, p, d) = ih reason (rw (e, attempt_from) at h) in
          (
            suc k,
            omega arith,
            record {
              delivered = rw (add-suc, ← suc-add) d.delivered;
              before = elim [
                | zero ↦ λ q. rw add-zero says
                | suc j ↦ λ q. rw (add-suc, ← suc-add) (d.before j (omega arith))
              ];
            },
          )

  -- Conversely the run finds that attempt, makes no request after it and reports its number.
  DeliversAt-sent :
      (k left attempt : ℕ) (last : Reason)
      → k < left
      → DeliversAt attempt k
      → let run = attempt_from capture attempts respond left attempt last in
        (run.0.sent ≡ true) × (run.0.attempts ≡ attempt + k) × (run.1 ≡ suc k)
  unfolding attempt_from
  DeliversAt-sent k zero attempt last p d = absurd (omega arith)
  DeliversAt-sent zero (suc left) attempt last p d =
      let (r, e, sent, number) = judge-delivers attempt (rw add-zero at d.delivered) in
      rw (e, attempt_from) (sent, rw add-zero number, refl)
  DeliversAt-sent (suc k) (suc left) attempt last p d =
      let (reason, e) = judge_retries attempt (rw add-zero at (d.before 0 (omega arith))) in
      let (sent, number, requests) =
        DeliversAt-sent k left (suc attempt) reason (omega arith) (record {
          delivered = rw (suc-add, ← add-suc) d.delivered;
          before = λ j q. rw (suc-add, ← add-suc) (d.before (suc j) (omega arith));
        }) in
      rw (e, attempt_from) (sent, rw (number, suc-add, add-suc) refl, rw requests refl)

  -- At most the rounds left are used, and there is a pause between two requests and no other.
  attempt_from_bounds :
      (left attempt : ℕ) (last : Reason)
      → attempt + left ≡ suc attempts
      → 0 < left
      → let run = attempt_from capture attempts respond left attempt last in
        (0 < run.1) × (run.1 ≤ left) × (run.2 + 1 ≡ run.1)
  unfolding attempt_from
  attempt_from_bounds zero attempt last e h = absurd (omega arith)
  attempt_from_bounds (suc zero) attempt last e h =
      go (judge capture attempt (respond attempt)) refl
    where
      go :
          (v : Verdict)
          → judge capture attempt (respond attempt) ≡ v
          → let run = attempt_from capture attempts respond 1 attempt last in
            (0 < run.1) × (run.1 ≤ 1) × (run.2 + 1 ≡ run.1)
      go (returns r) j = rw (j, attempt_from) (omega arith)
      go (breaks r) j = rw (j, attempt_from) (omega arith)
      go (retries r) j =
          let last_one : ltb attempt attempts ≡ false = ground arith in
          rw (j, attempt_from, last_one) (omega arith)
  attempt_from_bounds (suc (suc left)) attempt last e h =
      go (judge capture attempt (respond attempt)) refl
        (λ reason. attempt_from_bounds (suc left) (suc attempt) reason (omega arith) (omega arith))
    where
      go :
          (v : Verdict)
          → judge capture attempt (respond attempt) ≡ v
          → ((reason : Reason)
              → let run = attempt_from capture attempts respond (suc left) (suc attempt) reason in
                (0 < run.1) × (run.1 ≤ suc left) × (run.2 + 1 ≡ run.1))
          → let run = attempt_from capture attempts respond (suc (suc left)) attempt last in
            (0 < run.1) × (run.1 ≤ suc (suc left)) × (run.2 + 1 ≡ run.1)
      go (returns r) j ih = rw (j, attempt_from) (omega arith)
      go (breaks r) j ih = rw (j, attempt_from) (omega arith)
      go (retries r) j ih =
          let more : ltb attempt attempts ≡ true = ground arith in
          let parts = ih r in rw (j, attempt_from, more) (omega (arith, parts.0, parts.1, parts.2))

  -- A message is reported as sent exactly when one of the attempts delivers it after retriable ones.
  pub sent_iff :
      ((post_with_retry attempts capture respond).0.sent ≡ true)
      ↔ ((k : ℕ) × (k < attempts) × DeliversAt 1 k)
  unfolding post_with_retry
  sent_iff = (
    attempt_from-DeliversAt attempts 1 transport,
    λ (k, p, d). (DeliversAt-sent k attempts 1 transport p d).0,
  )

  -- One request at least and `attempts` at most, with a pause between two of them.
  pub post_with_retry_bounds :
      0 < attempts
      → let run = post_with_retry attempts capture respond in
        (0 < run.1) × (run.1 ≤ attempts) × (run.2 + 1 ≡ run.1)
  unfolding post_with_retry
  post_with_retry_bounds h = attempt_from_bounds attempts 1 transport (omega arith) h
