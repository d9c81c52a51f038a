-- ===== src/Delivery/FanOut.antt =====
-- `fan_out_event_deliveries`: one pending row for each matching endpoint, in one transaction, and a
-- task for each row after the commit. `uuid4` is the argument `ids`: the id of the n-th new row.
pub mod Invariant
pub mod Batch
use webhook_delivery_service.Base.{ℕ, suc, Option, none, some, List, [], ◌∷◌, map}
use webhook_delivery_service.Models.{Uuid, Datetime, Endpoint, Event, Delivery, new_delivery}
use webhook_delivery_service.Errors.{Result, ok, ◌>>=◌}
use webhook_delivery_service.Tasks.{Task, deliver_to_endpoint, delivery_queue}
use webhook_delivery_service.Database.{Database, insert_delivery}
use webhook_delivery_service.Queries.{
  get_event_for_tenant, list_active_matching_endpoints_for_tenant,
}

-- The loop over the endpoints: `add_delivery` builds a row and adds it to the session.
unfoldable pub build_deliveries :
    (ℕ → Uuid) → ℕ → Datetime → Uuid → Uuid → List Endpoint → List Delivery
build_deliveries ids n now event_id tenant_id [] = []
build_deliveries ids n now event_id tenant_id (e ∷ es) =
    new_delivery (ids n) now event_id e.id tenant_id
    ∷ build_deliveries ids (suc n) now event_id tenant_id es

-- `session.commit()`: all rows or, when one is refused, none.
unfoldable pub insert_deliveries : List Delivery → Database → Result Database
unfolding insert_delivery
insert_deliveries [] db = ok db
insert_deliveries (d ∷ ds) db = insert_delivery d db >>= insert_deliveries ds

abbrev pub delivery_task : Uuid → Delivery → Task
delivery_task tenant_id d = deliver_to_endpoint d.id tenant_id delivery_queue none

abbrev pub fan_out_found :
    (ℕ → Uuid) → Datetime → Database → Uuid → Uuid → Option Event → Result (Database × List Task)
fan_out_found ids now db event_id tenant_id none = ok (db, [])
fan_out_found ids now db event_id tenant_id (some event) =
    let endpoints = list_active_matching_endpoints_for_tenant db tenant_id event.event_type in
    let deliveries = build_deliveries ids 0 now event_id tenant_id endpoints in
    do db' ← insert_deliveries deliveries db; ok (db', map (delivery_task tenant_id) deliveries)

unfoldable pub fan_out_event_deliveries :
    (ℕ → Uuid) → Datetime → Database → Uuid → Uuid → Result (Database × List Task)
unfolding build_deliveries insert_deliveries
fan_out_event_deliveries ids now db event_id tenant_id =
    fan_out_found ids now db event_id tenant_id (get_event_for_tenant db event_id tenant_id)
