-- ===== src/System/Reachable.antt =====
-- What holds in every database that the service can reach.
use webhook_delivery_service.Database.{Database}
use webhook_delivery_service.Database.Valid.{IsValid, empty, empty-IsValid}
use webhook_delivery_service.Tenants.Access.{create_tenant-IsValid}
use webhook_delivery_service.Endpoints.Lifecycle.{
  create_endpoint-IsValid, update_endpoint-IsValid, delete_endpoint-IsValid,
}
use webhook_delivery_service.Events.Idempotency.{ingest-IsValid}
use webhook_delivery_service.Delivery.FanOut.Invariant.{fan_out-IsValid}
use webhook_delivery_service.Delivery.Once.Invariant.{deliver_to_endpoint_once-IsValid}
use webhook_delivery_service.System.{
  Service, served, Step, tenant_created, endpoint_created, endpoint_updated, endpoint_deleted,
  event_ingested, event_fanned_out, delivery_run, Steps, start, then_step,
}

pub Service-IsValid : {db db' : Database} → Service db db' → IsValid db → IsValid db'
Service-IsValid {db = db} (tenant_created id now k s name h) v =
    create_tenant-IsValid id now k s db name h v
Service-IsValid {db = db} (endpoint_created id now tenant e h) v =
    create_endpoint-IsValid id now db tenant e h v
Service-IsValid {db = db} (endpoint_updated tenant id u h) v =
    update_endpoint-IsValid db v tenant id u h
Service-IsValid {db = db} (endpoint_deleted tenant id h) v =
    delete_endpoint-IsValid db v tenant id h
Service-IsValid {db = db} (event_ingested jsonb id now tenant e h) v =
    ingest-IsValid jsonb id now db tenant e h v
Service-IsValid {db = db} (event_fanned_out ids now event_id tenant_id h) v =
    fan_out-IsValid ids now event_id tenant_id db h v

pub Step-IsValid : {db db' : Database} → Step db db' → IsValid db → IsValid db'
Step-IsValid (served h) v = Service-IsValid h v
Step-IsValid {db = db} (delivery_run s id tenant_id) v =
    deliver_to_endpoint_once-IsValid s db v id tenant_id

Steps-IsValid : {db db' : Database} → Steps db db' → IsValid db → IsValid db'
Steps-IsValid start v = v
Steps-IsValid (then_step ss s) v = Step-IsValid s (Steps-IsValid ss v)

-- Every database that the service reaches from empty tables, by any sequence of committed calls and of
-- delivery runs that meet any locks, clocks, replies and failed commits, is well-formed: ids, API keys,
-- signing secrets and idempotency keys are unique; an endpoint's and an event's tenant exists; a delivery's
-- event and endpoint exist and belong to its own tenant; and a delivery's status, attempt number and retry
-- time fit together.
pub reachable-IsValid : {db : Database} → Steps empty db → IsValid db
reachable-IsValid ss = Steps-IsValid ss empty-IsValid
