-- ===== src/Receiver/Exchange.antt =====
-- One request to a receiver that answers, and what its reply makes of a delivery row.
use webhook_delivery_service.Base.{
  ltb-true, leb-true, leb-false, ℕ, zero, suc, ◌+◌, ◌≤◌, ◌<◌, ◌≡◌, refl, String, List, arith,
}
use webhook_delivery_service.Models.{Uuid, Delivery, pending, success, exhausted}
use webhook_delivery_service.Delivery.Attempt.{
  HttpRequest, Reading, Reply, response, status_of_code, after_reply, post_and_record,
}
use webhook_delivery_service.Delivery.Attempt.Lifecycle.{post_and_record-IsAttempted}
use webhook_delivery_service.Worker.Visit.{post_and_record-accepted}
use webhook_delivery_service.Receiver.{
  Reply as Outgoing, Incoming, Entry, Receiver, receive_webhook,
}
use webhook_delivery_service.Receiver.Flaky.{responding}

-- What one request makes of a receiver that answers.
pub record Answers (out : Receiver × Outgoing) (code delay : ℕ) (next : List Entry → Receiver)
    : Type 0 where
  pub entries : List Entry
  pub state : out.0 ≡ next entries
  pub status : out.1.status_code ≡ code
  pub wait : out.1.wait_ms ≡ delay

pub fails_once :
    (req : Incoming) (es : List Entry) (code delay n count : ℕ)
    → count < n
    → Answers
        (receive_webhook req (responding es code delay n count))
        500
        delay
        (λ es'. responding es' code delay n (count + 1))
unfolding receive_webhook
fails_once req es code delay n count h =
    let out = receive_webhook req (responding es code delay n count) in
    rw (ltb-true 0 n (omega arith), leb-true (count + 1) n (omega arith))
      (record { entries = _; state = refl; status = refl; wait = refl })

-- The request after the failures, or without any.
pub recovers_once :
    (req : Incoming) (es : List Entry) (code delay n : ℕ)
    → Answers
        (receive_webhook req (responding es code delay n n))
        code
        delay
        (λ es'. responding es' code delay 0 0)
unfolding receive_webhook
recovers_once req es code delay zero = record {
  entries = _;
  state = refl;
  status = refl;
  wait = refl;
}
recovers_once req es code delay (suc n) =
    rw (ltb-true 0 (suc n) (omega arith), leb-false (suc n + 1) (suc n) (omega arith))
      (record { entries = _; state = refl; status = refl; wait = refl })

module _ (reading : Reading) (request : HttpRequest) (tenant_id : Uuid) (reply : Reply)
    (d : Delivery) where
  abbrev pub attempted : Delivery
  attempted = (post_and_record (λ _. reply) reading request tenant_id d).0

  pub retried :
      (body : String)
      → reply ≡ response 500 body
      → d.attempt_number ≤ 2
      → (attempted.status ≡ pending) × (attempted.attempt_number ≡ d.attempt_number + 1)
  unfolding post_and_record after_reply
  retried body e h = rw e (ground (arith, h))

  pub given_up :
      (body : String)
      → reply ≡ response 500 body
      → d.attempt_number ≡ 3
      → (attempted.status ≡ exhausted) × (attempted.attempt_number ≡ 4)
  unfolding post_and_record after_reply
  given_up body e h = rw e (ground (arith, h))

  pub succeeded :
      (code : ℕ) (body : String)
      → reply ≡ response code body
      → status_of_code code ≡ success
      → (attempted.status ≡ success) × (attempted.attempt_number ≡ d.attempt_number + 1)
  succeeded code body e h = (
    (post_and_record-accepted (λ _. reply) reading request tenant_id d
        (record { code = code; body = body; answer = e; accepted = h })).1,
    (post_and_record-IsAttempted (λ _. reply) reading request tenant_id d).counted,
  )
