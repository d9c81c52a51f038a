-- ===== src/Receiver/Delivered.antt =====
-- The service against the test receiver: `_post_and_record_delivery` with the receiver as the endpoint, again and
-- again while the delivery is pending.
use webhook_delivery_service.Base.{ℕ, zero, suc, String, ltb, if◌then◌else◌}
use webhook_delivery_service.Models.{Uuid, Delivery}
use webhook_delivery_service.Queries.{is_pending}
use webhook_delivery_service.Delivery.Attempt.{
  HttpRequest, Reading, Reply, response, request_exception, post_and_record,
}
use webhook_delivery_service.Receiver.{
  Reply as Outgoing, Incoming, ResponseBody, Receiver, receive_webhook,
}

-- `requests` with `timeout=10.0`: a reply that is not there by then raises.
abbrev pub post_timeout_ms : ℕ
post_timeout_ms = 10000

-- What the receiver reads of each request, how its bodies are written, the clocks, and the tenant.
pub record Setting : Type 0 where
  pub incoming : ℕ → Incoming
  pub render : ResponseBody → String
  pub reading : ℕ → Reading
  pub request : HttpRequest
  pub tenant_id : Uuid

module _ (setting : Setting) where
  abbrev pub reply_of : Outgoing → Reply
  reply_of out =
      if ltb out.wait_ms post_timeout_ms
      then response out.status_code (setting.render out.body)
      else request_exception "Read timed out."

  abbrev pub attempt_against : ℕ → Receiver → Delivery → Receiver × Delivery
  attempt_against n r d =
      let (r', out) = receive_webhook (setting.incoming n) r in
      let (d', tasks) =
        post_and_record (λ _. reply_of out) (setting.reading n) setting.request setting.tenant_id
          d in
      (r', d')

  abbrev pub unless_ended :
      Receiver × Delivery → Delivery → Receiver × Delivery → Receiver × Delivery
  unless_ended stay d later = if is_pending d.status then later else stay

  -- Up to `k` attempts from number `n` on.
  unfoldable pub deliver_against : ℕ → ℕ → Receiver → Delivery → Receiver × Delivery
  deliver_against zero n r d = (r, d)
  deliver_against (suc k) n r d =
      let next = attempt_against n r d in
      unless_ended (r, d) d (deliver_against k (suc n) next.0 next.1)
