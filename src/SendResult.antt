-- ===== src/SendResult.antt =====
-- agent/services/send_result.py: the outcome of an outbound message, and the shared retry. What the
-- network does is a function from the number of the attempt to its response. The texts `detail`,
-- which only reach the log, are left out.
pub mod Retry
use evi.Common.{
  ℕ, zero, suc, ◌+◌, ◌≤◌, ◌<◌, Bool, true, false, ◌&&◌, Option, none, some, leb, ltb, if◌then◌else◌,
}
use evi.Common.Int.{ℤ, pos, negsuc}

pub data Reason : Type 0 where
  transport http_4xx http_5xx not_configured empty_text : Reason

pub record SendResult : Type 0 where
  pub sent : Bool
  pub reason : Option Reason
  pub attempts : ℕ
  pub message_id : Option ℕ

abbrev pub ok : ℕ → Option ℕ → SendResult
ok attempts message_id = record {
  sent = true;
  reason = none;
  attempts = attempts;
  message_id = message_id;
}

abbrev pub fail : Reason → ℕ → SendResult
fail reason attempts = record {
  sent = false;
  reason = some reason;
  attempts = attempts;
  message_id = none;
}

-- `send_outcome` of a SendResult
unfoldable pub send_outcome : SendResult → Bool × Option Reason
send_outcome r = (r.sent, if r.sent then none else r.reason)

-- `_attempts()`: EVI_SEND_RETRY_ATTEMPTS as a number, `none` where it is no number
unfoldable pub attempts_of : Option ℤ → ℕ
attempts_of none = 2
attempts_of (some (ℤ.pos zero)) = 1
attempts_of (some (ℤ.pos (suc n))) = suc n
attempts_of (some (ℤ.negsuc n)) = 1

-- What one request gives: a response with its message id, an HTTPError, or a URLError or OSError.
pub data Response : Type 0 where
  answered : ℕ → Option ℕ → Response
  http_error : ℕ → Response
  transport_error : Response

abbrev is_success : ℕ → Bool
is_success status = leb 200 status && ltb status 300

abbrev pub error_reason : ℕ → Reason
error_reason status = if leb 500 status then http_5xx else http_4xx

-- What the loop does after a response: it returns, breaks, or goes on with `last_reason`.
pub data Verdict : Type 0 where
  returns : SendResult → Verdict
  breaks : Reason → Verdict
  retries : Reason → Verdict

unfoldable pub judge : Bool → ℕ → Response → Verdict
judge capture_message_id attempt (answered status mid) =
    if is_success status
    then returns (ok attempt (if capture_message_id then mid else none))
    else if leb 500 status
    then retries http_5xx
    else breaks http_4xx
judge capture_message_id attempt (http_error code) =
    if ltb code 500 then returns (fail http_4xx attempt) else retries http_5xx
judge capture_message_id attempt transport_error = retries transport

-- The `for` loop, from attempt `attempt` on with `left` rounds left: the result, the number of
-- requests made and the number of pauses.
unfoldable pub attempt_from : Bool → ℕ → (ℕ → Response) → ℕ → ℕ → Reason → SendResult × ℕ × ℕ
attempt_from capture attempts respond zero attempt last_reason = (fail last_reason attempts, 0, 0)
attempt_from capture attempts respond (suc left) attempt last_reason =
    elim (judge capture attempt (respond attempt)) [
      | returns r ↦ (r, 1, 0)
      | breaks reason ↦ (fail reason attempts, 1, 0)
      | retries reason ↦
          let (r, requests, pauses) =
            attempt_from capture attempts respond left (suc attempt) reason in
          (r, suc requests, (if ltb attempt attempts then 1 else 0) + pauses)
    ]

unfoldable pub post_with_retry : ℕ → Bool → (ℕ → Response) → SendResult × ℕ × ℕ
unfolding attempt_from judge
post_with_retry attempts capture_message_id respond =
    attempt_from capture_message_id attempts respond attempts 1 transport
