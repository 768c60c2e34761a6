-- ===== src/Briefing/Once.antt =====
-- A briefing that was delivered is not delivered again.
use evi.Common.{
  ℕ, ◌≡◌, refl, String, Bool, true, false, not, ◌&&◌, Option, none, some, List, [], arith, if_both,
  Bool-cases, inl, inr, if◌then◌else◌,
}
use evi.Briefing.{Log, claim_briefing, briefing_sent_today}
use evi.Briefing.Ops.{
  Op, run, Sent, Sent-briefing_sent_today, run-Sent, recorded-Sent, claim-Sent, claim_finds_none,
}
use evi.Briefing.Deliver.{
  Env, Outcome, Delivery, already_sent, in_progress, sent, send_out, answer_claim, deliver_briefing,
}

abbrev pub is_sent : Outcome → Bool
is_sent (sent n rs) = true
is_sent _ = false

-- A delivery whose outcome is `sent` went through the send, from the log that the claim left.
abbrev Sends : Env → String → Delivery → Type 0
Sends env kind d = is_sent d.outcome ≡ true → (s' : Log) × (d ≡ send_out env kind s')

answer_claim-Sends :
    (env : Env) (kind : String) (slot : Option ℕ) (s : Log)
    → Sends env kind (answer_claim env kind slot s)
unfolding answer_claim
answer_claim-Sends env kind (some id) s = λ h. (s, refl)
answer_claim-Sends env kind none s =
    if_both (Sends env kind) env.sent_ok (λ _. silent (briefing_sent_today env.day kind s))
      (λ _ _. (s, refl))
  where
    silent :
        (b : Bool)
        → Sends env kind
            (record { log = s; effects = []; outcome = if b then already_sent else in_progress })
    silent true h = absurd (ground (arith, h))
    silent false h = absurd (ground (arith, h))

pub deliver_briefing-Sends :
    (env : Env) (kind : String) (force : Bool) (s : Log)
    → Sends env kind (deliver_briefing env kind force s)
unfolding deliver_briefing
deliver_briefing-Sends env kind force s =
    if_both (Sends env kind) (not force && env.claim_ok)
      (λ _.
        answer_claim-Sends env kind (claim_briefing env.day kind 10 env.claim_at s).1
          (claim_briefing env.day kind 10 env.claim_at s).0)
      (λ _ _. (s, refl))

send_out-Sent :
    (env : Env) (kind : String) (s : Log)
    → env.record_ok ≡ true
    → is_sent (send_out env kind s).outcome ≡ true
    → Sent env.day kind (send_out env kind s).log
unfolding send_out
send_out-Sent env kind s ok h = elim (Bool-cases env.send.sent) [
  | inl e ↦ rw (ok, e) (recorded-Sent env.day kind _ env.record_at (run env.meanwhile s))
  | inr e ↦ absurd (ground (arith, e, h))
]

-- A delivery whose outcome is `sent` leaves a log that says so.
deliver_briefing-Sent :
    (env : Env) (kind : String) (force : Bool) (s : Log)
    → env.record_ok ≡ true
    → is_sent (deliver_briefing env kind force s).outcome ≡ true
    → Sent env.day kind (deliver_briefing env kind force s).log
deliver_briefing-Sent env kind force s ok h =
    let (s', e) = deliver_briefing-Sends env kind force s h in
    rw e (send_out-Sent env kind s' ok (rw e at h))

-- A delivery on a log that says that the briefing was sent.
refused :
    (env : Env) (kind : String) (s : Log)
    → env.claim_ok ≡ true
    → env.sent_ok ≡ true
    → Sent env.day kind s
    → let d = deliver_briefing env kind false s in (d.effects ≡ []) × (d.outcome ≡ already_sent)
unfolding deliver_briefing answer_claim
refused env kind s claims asks h =
    let known : briefing_sent_today env.day kind (claim_briefing env.day kind 10 env.claim_at s).0
        ≡ true =
      Sent-briefing_sent_today env.day kind _
        (claim-Sent env.day kind env.day kind 10 env.claim_at s h) in
    rw (claims, claim_finds_none env.day kind 10 env.claim_at s h, asks, known) (refl, refl)

-- After a delivery that was sent and whose record returned, whatever is then done to the log, a
-- delivery of the same day and kind that is not forced sends nothing and says that it was already
-- sent, where its two questions to the log return.
pub delivered_once :
    (env env' : Env) (kind : String) (force : Bool) (ops : List Op) (s : Log)
    → is_sent (deliver_briefing env kind force s).outcome ≡ true
    → env.record_ok ≡ true
    → env'.day ≡ env.day
    → env'.claim_ok ≡ true
    → env'.sent_ok ≡ true
    → let d = deliver_briefing env' kind false (run ops (deliver_briefing env kind force s).log) in
      (d.effects ≡ []) × (d.outcome ≡ already_sent)
delivered_once env env' kind force ops s h ok same claims asks =
    refused env' kind (run ops (deliver_briefing env kind force s).log) claims asks (
      rw same (
        run-Sent env.day kind ops (deliver_briefing env kind force s).log
          (deliver_briefing-Sent env kind force s ok h)))
