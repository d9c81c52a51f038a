-- ===== src/Worker/EndToEnd.antt =====
-- From the task of an event to a delivered event at every endpoint.
use webhook_delivery_service.Base.{
  ℕ, suc, ◌≤◌, ◌≡◌, ap, sym, ◌∙◌, some, List, [], ◌∷◌, map, length, Option, String, All,
}
use webhook_delivery_service.Models.{Uuid, Datetime, Tenant, Endpoint, Event}
use webhook_delivery_service.Errors.{ok, >>=-eq-ok, ok_injective}
use webhook_delivery_service.Tasks.{Task, Queue, deliver_event}
use webhook_delivery_service.Database.{Database}
use webhook_delivery_service.Database.Valid.{IsValid}
use webhook_delivery_service.Queries.{
  get_event_for_tenant, get_tenant_by_id, list_active_matching_endpoints_for_tenant,
}
use webhook_delivery_service.Delivery.Attempt.{Hmac, build_request}
use webhook_delivery_service.Delivery.FanOut.{
  insert_deliveries, delivery_task, fan_out_event_deliveries,
}
use webhook_delivery_service.Delivery.FanOut.Batch.{fan_out-IsBatch}
use webhook_delivery_service.Delivery.FanOut.Invariant.{fan_out-IsValid}
use webhook_delivery_service.Worker.{Turn, Drained, drain}
use webhook_delivery_service.Worker.Visit.{IsWilling}
use webhook_delivery_service.Worker.Batch.{rows, insert-AllReady, matching_found}
use webhook_delivery_service.Worker.Drain.{HasDelivered, same_records, drain_rows}

module _ (event_id tenant_id : Uuid) (event : Event) where
  fan_out-parts :
      (ids_of : ℕ → Uuid) (at : Datetime) (db : Database) {db1 : Database} {tasks : List Task}
      → get_event_for_tenant db event_id tenant_id ≡ some event
      → fan_out_event_deliveries ids_of at db event_id tenant_id ≡ ok (db1, tasks)
      → (insert_deliveries
            (rows ids_of at event_id tenant_id 0
              (list_active_matching_endpoints_for_tenant db tenant_id event.event_type))
            db
          ≡ ok db1)
        × (tasks
            ≡ map (delivery_task tenant_id) (
                rows ids_of at event_id tenant_id 0
                  (list_active_matching_endpoints_for_tenant db tenant_id event.event_type)))
  unfolding fan_out_event_deliveries
  fan_out-parts ids_of at db found ran =
      let (db2, inserted, last) = >>=-eq-ok (insert_deliveries _ db) _ (rw found at ran) in
      (
        inserted ∙ ap (λ (p : Database × List Task). ok p.0) (ok_injective last),
        sym (ap (λ (p : Database × List Task). p.1) (ok_injective last)),
      )

-- The work for an event is done: nothing is queued, each of the endpoints was sent one request, in order
-- and signed with the tenant's secret, and has a delivery of the event that has succeeded.
pub record ReachesAll (hmac : Hmac) (event : Event) (tenant : Tenant) (event_id : Uuid)
    (endpoints : List Endpoint) (out : Drained) : Type 0 where
  pub finished : out.queue ≡ []
  pub posts : out.posted ≡ map (λ e. build_request hmac tenant.signing_secret e event) endpoints
  pub delivered : All (HasDelivered event_id out.database) endpoints

-- Where every endpoint accepts and a worker runs alone, the task of an event whose fan-out commits on
-- well-formed tables leads to the end: after one task for the event and one for each active endpoint of
-- the tenant that takes its type, the queue is empty, exactly one request was posted for each of these
-- endpoints, in order and signed with the tenant's secret, and each has a delivery of the event that
-- has succeeded.
pub event-ReachesAll :
    (turns : ℕ → Turn) (hmac : Hmac) (db : Database) (event_id tenant_id : Uuid)
    (key : Option String) (queue : Queue) {event : Event} {tenant : Tenant} {db1 : Database}
    {tasks : List Task}
    → IsValid db
    → get_event_for_tenant db event_id tenant_id ≡ some event
    → get_tenant_by_id db tenant_id ≡ some tenant
    → fan_out_event_deliveries (turns 0).ids (turns 0).now db event_id tenant_id ≡ ok (db1, tasks)
    → ((i : ℕ) → IsWilling hmac (turns i).surroundings)
    → (fuel : ℕ)
    → length (list_active_matching_endpoints_for_tenant db tenant_id event.event_type) ≤ fuel
    → ReachesAll hmac event tenant event_id
        (list_active_matching_endpoints_for_tenant db tenant_id event.event_type)
        (drain turns (suc fuel) 0 db (deliver_event event_id tenant_id key queue ∷ []))
unfolding drain
event-ReachesAll turns hmac db event_id tenant_id key queue {event} {tenant} {db1} {tasks} v found
      known ran w fuel le =
    let ids = (turns 0).ids in
    let now = (turns 0).now in
    let es = list_active_matching_endpoints_for_tenant db tenant_id event.event_type in
    let (inserted, sent) = fan_out-parts event_id tenant_id event ids now db found ran in
    let batch = (fan_out-IsBatch ids now db event_id tenant_id found ran).inserted in
    let (events, tenants) =
      same_records hmac ids now event_id tenant_id event tenant db db1
        (ap (λ (x : Database). x.tenants) batch) (ap (λ (x : Database). x.events) batch) in
    let ready =
      insert-AllReady ids now event_id tenant_id 0 es db inserted
        (matching_found db tenant_id event.event_type v) in
    let d =
      drain_rows hmac ids now event_id tenant_id event tenant turns w fuel 1 0 es db1 le
        (record {
          valid = fan_out-IsValid ids now event_id tenant_id db ran v;
          event_found = events ∙ found;
          tenant_found = tenants ∙ known;
        })
        ready in
    rw (ran, sent) (record { finished = d.empty; posts = d.posted; delivered = d.delivered })
