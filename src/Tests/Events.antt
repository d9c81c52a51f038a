-- ===== src/Tests/Events.antt =====
-- Ingestion into the small database.
use webhook_delivery_service.Base.{◌≡◌, ◌≢◌, refl, true, false, some, List, [], ◌∷◌}
use webhook_delivery_service.Models.{Event}
use webhook_delivery_service.Models.Json.{Fields}
use webhook_delivery_service.Errors.{ok, raised, runtime_error}
use webhook_delivery_service.Tasks.{Task, deliver_event, default_queue}
use webhook_delivery_service.Database.{Database}
use webhook_delivery_service.Events.{EventCreate, EventInsertResult, ingest_event}
use webhook_delivery_service.Events.Idempotency.{Ingested, ingest-Ingested, ingest_twice}
use webhook_delivery_service.Events.Conflict.{ingest-not_runtime}
use webhook_delivery_service.Tests.Fixtures.{acme, order, small_db}

abbrev pub refund : EventCreate
refund = record {
  event_type = "order.refunded";
  payload = Fields.end_fields;
  idempotency_key = some "refund-1";
}

abbrev refund_event : Event
refund_event = record {
  id = 21;
  tenant_id = 1;
  event_type = "order.refunded";
  payload = Fields.end_fields;
  idempotency_key = some "refund-1";
  received_at = 90;
}

abbrev pub after_refund : Database
after_refund = record small_db { events = refund_event ∷ order ∷ [] }

abbrev created : EventInsertResult
created = record { event_id = 21; created = true }

abbrev refund_tasks : List Task
refund_tasks = deliver_event 21 1 (some "refund-1") default_queue ∷ []

ingest-Ingested_example :
    Ingested (λ p. p) 21 90 small_db acme refund after_refund created refund_tasks
unfolding ingest_event
ingest-Ingested_example =
    ingest-Ingested (λ p. p) 21 90 small_db acme refund {db' = after_refund} {r = created}
      {tasks = refund_tasks} refl

ingest_twice_example :
    ingest_event (λ p. p) 22 95 after_refund acme refund
    ≡ ok (after_refund, record { event_id = 21; created = false }, [])
unfolding ingest_event
ingest_twice_example =
    ingest_twice (λ p. p) (λ p. p) 21 22 90 95 small_db acme refund refund "refund-1"
      {db' = after_refund} {r = created} {tasks = refund_tasks} refl refl refl

ingest-not_runtime_example :
    ingest_event (λ p. p) 21 90 small_db acme refund
    ≢ raised (runtime_error "Idempotent event insert conflicted but no event was found.")
ingest-not_runtime_example =
    ingest-not_runtime (λ p. p) 21 90 small_db acme refund
      "Idempotent event insert conflicted but no event was found."
