-- ===== src/Examples/Sends.antt =====
-- A send that meets a transport error and then a 2xx answer.
use evi.Common.{ℕ, zero, suc, ◌<◌, ◌≡◌, ◌↔◌, refl, true, some}
use evi.SendResult.{Response, answered, transport_error, http_error, post_with_retry}
use evi.SendResult.Retry.{DeliversAt, sent_iff}

abbrev second_time : ℕ → Response
second_time zero = transport_error
second_time (suc zero) = transport_error
second_time (suc (suc n)) = answered 200 (some 9)

second_is_sent : (post_with_retry 2 true second_time).0.message_id ≡ some 9
unfolding post_with_retry
second_is_sent = refl

bad_token : (post_with_retry 5 true (λ n. http_error 401)).1 ≡ 1
unfolding post_with_retry
bad_token = refl

sent_iff_example :
    ((post_with_retry 2 true second_time).0.sent ≡ true)
    ↔ ((k : ℕ) × (k < 2) × DeliversAt true 2 second_time 1 k)
sent_iff_example = sent_iff true 2 second_time
