-- ===== src/Worker/Visit.antt =====
-- The task of a fresh row, when the endpoint accepts.
use webhook_delivery_service.Base.{ℕ, ◌+◌, ◌≡◌, refl, ◌∙◌, true, some, [], String, ==_refl}
use webhook_delivery_service.Models.{
  Uuid, Datetime, Tenant, Endpoint, Event, Delivery, new_delivery, success,
}
use webhook_delivery_service.Database.{Database}
use webhook_delivery_service.Database.Valid.{IsValid}
use webhook_delivery_service.Queries.{get_pending_delivery_for_update}
use webhook_delivery_service.Delivery.Attempt.{
  HttpRequest, Client, Hmac, Reading, response, status_of_code, after_reply, post_and_record,
}
use webhook_delivery_service.Delivery.Once.{
  Surroundings, attempt, process, deliver_to_endpoint_once,
}
use webhook_delivery_service.Delivery.Once.Claim.{lookup_delivery, claim_lem}
use webhook_delivery_service.Delivery.Once.Cases.{IsLookedUp}

-- The endpoint answers with a 2xx status.
pub record IsAccepting (client : Client) (r : HttpRequest) : Type 0 where
  pub code : ℕ
  pub body : String
  pub answer : client r ≡ response code body
  pub accepted : status_of_code code ≡ success

-- What a worker that runs alone meets, where every endpoint accepts.
pub record IsWilling (hmac : Hmac) (s : Surroundings) : Type 0 where
  pub accepts : (r : HttpRequest) → IsAccepting s.client r
  pub commits : s.commits ≡ true
  pub unlocked : s.locked ≡ []
  pub same_hmac : s.hmac ≡ hmac

after_reply-accepted :
    (reading : Reading) (tenant_id : Uuid) (code : ℕ) (body : String) (d : Delivery)
    → status_of_code code ≡ success
    → ((after_reply reading tenant_id (response code body) d).1 ≡ [])
      × ((after_reply reading tenant_id (response code body) d).0.status ≡ success)
unfolding after_reply
after_reply-accepted reading tenant_id code body d h = rw h (refl, refl)

pub post_and_record-accepted :
    (client : Client) (reading : Reading) (r : HttpRequest) (tenant_id : Uuid) (d : Delivery)
    → IsAccepting client r
    → ((post_and_record client reading r tenant_id d).1 ≡ [])
      × ((post_and_record client reading r tenant_id d).0.status ≡ success)
unfolding post_and_record
post_and_record-accepted client reading r tenant_id d a = rw a.answer (
    after_reply-accepted reading tenant_id a.code a.body
      (record d { attempt_number = d.attempt_number + 1 }) a.accepted)

module _ (s : Surroundings) (db : Database) (now : Datetime) (id event_id tenant_id : Uuid)
    (endpoint : Endpoint) (event : Event) (tenant : Tenant) where
  abbrev row : Delivery
  row = new_delivery id now event_id endpoint.id tenant_id

  pub fresh-claim :
      s.locked ≡ []
      → IsValid db
      → lookup_delivery id db ≡ some row
      → get_pending_delivery_for_update s.locked s.claim_now db id tenant_id ≡ some row
  fresh-claim free v found =
      claim_lem s.locked s.claim_now db id tenant_id v row found ∙ rw (free, ==_refl tenant_id) refl

  -- The task of a row as the fan-out made it is an attempt.
  pub visit_lem :
      s.locked ≡ []
      → IsValid db
      → lookup_delivery id db ≡ some row
      → IsLookedUp db tenant_id row endpoint event tenant
      → deliver_to_endpoint_once s db id tenant_id
        ≡ attempt s db tenant_id row endpoint event tenant
  unfolding deliver_to_endpoint_once process
  visit_lem free v found l =
      rw (fresh-claim free v found, l.endpoint_found, l.event_found, l.tenant_found) refl
