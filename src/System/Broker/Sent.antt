-- ===== src/System/Broker/Sent.antt =====
-- The rows that the tasks of an ingestion and of a fan-out name.
use webhook_delivery_service.Base.{
  ℕ, ◌≡◌, refl, sym, ap, subst, Bool, true, ◌&&◌, none, some, List, [], ◌∷◌, map, any, any_cons,
  any_here, All, ◌==◌, ==_refl, inl, inr, Option-cases,
}
use webhook_delivery_service.Models.{Uuid, Datetime, Tenant, Event, Delivery}
use webhook_delivery_service.Models.Json.{Fields}
use webhook_delivery_service.Errors.{ok, ok_injective}
use webhook_delivery_service.Tasks.{Task, deliver_to_endpoint, delivery_queue}
use webhook_delivery_service.Database.{Database}
use webhook_delivery_service.Database.Valid.{IsValid}
use webhook_delivery_service.Database.Keeps.{insert_event-inversion}
use webhook_delivery_service.Queries.{get_event_for_tenant}
use webhook_delivery_service.Events.{EventCreate, EventInsertResult, new_event}
use webhook_delivery_service.Events.Idempotency.{Ingested, duplicate, fresh}
use webhook_delivery_service.Delivery.FanOut.{fan_out_event_deliveries}
use webhook_delivery_service.Delivery.FanOut.Batch.{push_all, IsFresh, IsBatch, fan_out-IsBatch}
use webhook_delivery_service.Delivery.Once.Claim.{lookup_delivery}
use webhook_delivery_service.Delivery.Recovery.Due.{All-lookup_self}
use webhook_delivery_service.System.Broker.Runs.{IsKnown}

-- Ingestion adds its event, and its task names it.
pub ingest-IsGrown :
    (jsonb : Fields → Fields) (id : Uuid) (now : Datetime) (db : Database) (tenant : Tenant)
    (e : EventCreate) {db' : Database} {r : EventInsertResult} {tasks : List Task}
    → Ingested jsonb id now db tenant e db' r tasks
    → (p : Event → Bool) → any p db.events ≡ true
    → any p db'.events ≡ true
ingest-IsGrown jsonb id now db tenant e (duplicate x found same q t) p h =
    subst (λ (d : Database). any p d.events ≡ true) (sym same) h
ingest-IsGrown jsonb id now db tenant e (fresh done q t) p h =
    let x = new_event jsonb id now tenant.id e in
    subst (λ (d : Database). any p d.events ≡ true) (sym (insert_event-inversion x db done).2)
      (any_cons p x db.events h)

pub ingest-IsKnown :
    (jsonb : Fields → Fields) (id : Uuid) (now : Datetime) (db : Database) (tenant : Tenant)
    (e : EventCreate) {db' : Database} {r : EventInsertResult} {tasks : List Task}
    → Ingested jsonb id now db tenant e db' r tasks
    → All (IsKnown db') tasks
ingest-IsKnown jsonb id now db tenant e {db' = db'} (duplicate x found same q t) =
    subst (All (IsKnown db')) (sym t) tt
ingest-IsKnown jsonb id now db tenant e {db' = db'} (fresh done q t) =
    let x = new_event jsonb id now tenant.id e in
    subst (All (IsKnown db')) (sym t) (
      subst (λ (d : Database). any (λ y. y.id == id && y.tenant_id == tenant.id) d.events ≡ true)
          (sym (insert_event-inversion x db done).2)
          (any_here (λ y. y.id == id && y.tenant_id == tenant.id) x db.events
            (rw (==_refl id, ==_refl tenant.id) refl)),
      tt,
    )

-- The rows of a fan-out are found by the ids that its tasks carry.
pushed :
    (P : Delivery → Type 0) (ds rows : List Delivery)
    → All P (push_all ds rows)
    → All P ds × All P rows
pushed P [] rows h = (tt, h)
pushed P (d ∷ ds) rows h = let (a, b) = pushed P ds (d ∷ rows) h in ((b.0, a), b.1)

tasks_of_rows :
    (db : Database) (event_id tenant_id : Uuid) (ds : List Delivery)
    → All (λ d. lookup_delivery d.id db ≡ some d) ds
    → All (IsFresh event_id tenant_id) ds
    → All (IsKnown db) (map (λ d. deliver_to_endpoint d.id tenant_id delivery_queue none) ds)
tasks_of_rows db event_id tenant_id [] h k = tt
tasks_of_rows db event_id tenant_id (d ∷ ds) h k =
    ((d, h.0, k.0.of_tenant), tasks_of_rows db event_id tenant_id ds h.1 k.1)

batch-IsKnown :
    (db db' : Database) (event_id tenant_id : Uuid) (event : Event) (tasks : List Task)
    → IsValid db'
    → IsBatch event_id tenant_id event db db' tasks
    → All (IsKnown db') tasks
batch-IsKnown db db' event_id tenant_id event tasks v b =
    let there : All (λ d. lookup_delivery d.id db' ≡ some d) (push_all b.rows db.deliveries) =
      subst (All (λ d. lookup_delivery d.id db' ≡ some d))
        (ap (λ (x : Database). x.deliveries) b.inserted)
        (All-lookup_self db'.deliveries v.deliveries_distinct) in
    subst (All (IsKnown db')) (sym b.sent)
      (tasks_of_rows db' event_id tenant_id b.rows (pushed _ b.rows db.deliveries there).0 b.fresh)

pub fan_out-IsKnown :
    (ids : ℕ → Uuid) (now : Datetime) (db : Database) (event_id tenant_id : Uuid) {db' : Database}
    {tasks : List Task}
    → fan_out_event_deliveries ids now db event_id tenant_id ≡ ok (db', tasks)
    → IsValid db'
    → (db'.events ≡ db.events) × All (IsKnown db') tasks
unfolding fan_out_event_deliveries
fan_out-IsKnown ids now db event_id tenant_id {db' = db'} {tasks = tasks} h v =
    elim (Option-cases (get_event_for_tenant db event_id tenant_id)) [
      | inl missing ↦
          let made = ok_injective (rw missing at h) in
          (
            ap (λ (p : Database × List Task). p.0.events) (sym made),
            subst (All (IsKnown db')) (ap (λ (p : Database × List Task). p.1) made) tt,
          )
      | inr (event, found) ↦
          let b = fan_out-IsBatch ids now db event_id tenant_id found h in
          (
            ap (λ (x : Database). x.events) b.inserted,
            batch-IsKnown db db' event_id tenant_id event tasks v b,
          )
    ]
