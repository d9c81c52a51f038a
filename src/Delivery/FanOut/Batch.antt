-- ===== src/Delivery/FanOut/Batch.antt =====
-- Which rows and tasks a fan-out makes, and what a second run of the same task does.
use webhook_delivery_service.Base.{
  ℕ, suc, ◌+◌, ◌≡◌, refl, sym, ap, ◌∙◌, subst, none, some, List, [], ◌∷◌, map, arith, All, length,
  String,
}
use webhook_delivery_service.Models.{Uuid, Datetime, Endpoint, Event, Delivery, pending}
use webhook_delivery_service.Errors.{ok, >>=-eq-ok, ok_injective}
use webhook_delivery_service.Tasks.{Task, deliver_to_endpoint, delivery_queue}
use webhook_delivery_service.Database.{Database, insert_delivery}
use webhook_delivery_service.Database.Keeps.{insert_delivery-inversion}
use webhook_delivery_service.Queries.{
  get_event_for_tenant, list_active_matching_endpoints_for_tenant,
}
use webhook_delivery_service.Delivery.FanOut.{
  build_deliveries, insert_deliveries, fan_out_event_deliveries,
}

-- Rows put into a table one after the other.
abbrev pub push_all : List Delivery → List Delivery → List Delivery
push_all [] rows = rows
push_all (d ∷ ds) rows = push_all ds (d ∷ rows)

length-push_all : (ds rows : List Delivery) → length (push_all ds rows) ≡ length ds + length rows
length-push_all [] rows = omega arith
length-push_all (d ∷ ds) rows = omega (arith, length-push_all ds (d ∷ rows))

pub insert_deliveries-push_all :
    (ds : List Delivery) (db : Database) {db' : Database}
    → insert_deliveries ds db ≡ ok db'
    → db' ≡ record db { deliveries = push_all ds db.deliveries }
unfolding insert_deliveries
insert_deliveries-push_all [] db e = sym (ok_injective e)
insert_deliveries-push_all (d ∷ ds) db {db'} e =
    let (db1, e1, e2) = >>=-eq-ok (insert_delivery d db) (insert_deliveries ds) e in
    subst (λ x. db' ≡ record x { deliveries = push_all ds x.deliveries })
      (insert_delivery-inversion d db e1).1 (insert_deliveries-push_all ds db1 e2)

-- A row as the fan-out makes it.
pub record IsFresh (event_id tenant_id : Uuid) (d : Delivery) : Type 0 where
  pub of_event : d.event_id ≡ event_id
  pub of_tenant : d.tenant_id ≡ tenant_id
  pub pends : d.status ≡ pending
  pub unattempted : d.attempt_number ≡ 0
  pub unscheduled : d.next_retry_at ≡ none

module _ (ids : ℕ → Uuid) (now : Datetime) (event_id tenant_id : Uuid) where
  build-endpoints :
      (n : ℕ) (es : List Endpoint)
      → map (λ d. d.endpoint_id) (build_deliveries ids n now event_id tenant_id es)
        ≡ map (λ e. e.id) es
  unfolding build_deliveries
  build-endpoints n [] = refl
  build-endpoints n (e ∷ es) = ap (λ xs. e.id ∷ xs) (build-endpoints (suc n) es)

  build-IsFresh :
      (n : ℕ) (es : List Endpoint)
      → All (IsFresh event_id tenant_id) (build_deliveries ids n now event_id tenant_id es)
  unfolding build_deliveries
  build-IsFresh n [] = tt
  build-IsFresh n (e ∷ es) = (
    record {
      of_event = refl;
      of_tenant = refl;
      pends = refl;
      unattempted = refl;
      unscheduled = refl;
    },
    build-IsFresh (suc n) es,
  )

-- What a committed fan-out has done to the database, with the tasks that it sent.
pub record IsBatch (event_id tenant_id : Uuid) (event : Event) (db db' : Database)
    (tasks : List Task) : Type 0 where
  pub rows : List Delivery
  pub inserted : db' ≡ record db { deliveries = push_all rows db.deliveries }
  pub one_per_endpoint :
      map (λ d. d.endpoint_id) rows
      ≡ map (λ e. e.id) (list_active_matching_endpoints_for_tenant db tenant_id event.event_type)
  pub fresh : All (IsFresh event_id tenant_id) rows
  pub sent : tasks ≡ map (λ d. deliver_to_endpoint d.id tenant_id delivery_queue none) rows

module _ (ids : ℕ → Uuid) (now : Datetime) (db : Database) (event_id tenant_id : Uuid)
    {db' : Database} {tasks : List Task} where
  -- A fan-out that commits inserts, for each endpoint of the tenant that is active and takes the event's
  -- type, one pending row with no attempt, changes no other row and no other table, and then sends one
  -- task to the delivery queue for each new row.
  pub fan_out-IsBatch :
      {event : Event}
      → get_event_for_tenant db event_id tenant_id ≡ some event
      → fan_out_event_deliveries ids now db event_id tenant_id ≡ ok (db', tasks)
      → IsBatch event_id tenant_id event db db' tasks
  unfolding fan_out_event_deliveries
  fan_out-IsBatch {event} found e =
      let es = list_active_matching_endpoints_for_tenant db tenant_id event.event_type in
      let ds = build_deliveries ids 0 now event_id tenant_id es in
      let (db1, e1, e2) = >>=-eq-ok (insert_deliveries ds db) _ (rw found at e) in
      record {
        rows = ds;
        inserted =
            ap (λ (p : Database × List Task). p.0) (sym (ok_injective e2))
            ∙ insert_deliveries-push_all ds db e1;
        one_per_endpoint = build-endpoints ids now event_id tenant_id 0 es;
        fresh = build-IsFresh ids now event_id tenant_id 0 es;
        sent = ap (λ (p : Database × List Task). p.1) (sym (ok_injective e2));
      }

same_queries :
    (rows : List Delivery) (db : Database) (event_id tenant_id : Uuid) (event_type : String)
    → (get_event_for_tenant (record db { deliveries = rows }) event_id tenant_id
        ≡ get_event_for_tenant db event_id tenant_id)
      × (list_active_matching_endpoints_for_tenant
            (record db { deliveries = rows })
            tenant_id
            event_type
          ≡ list_active_matching_endpoints_for_tenant db tenant_id event_type)
unfolding get_event_for_tenant list_active_matching_endpoints_for_tenant
same_queries rows db event_id tenant_id event_type = (refl, refl)

pub length-of_map {ℓ κ} :
    {A : Type ℓ} {B : Type κ} (f : A → B) (xs : List A) → length (map f xs) ≡ length xs
length-of_map f [] = refl
length-of_map f (x ∷ xs) = ap suc (length-of_map f xs)

pub batch_length :
    {event_id tenant_id : Uuid} {event : Event} {db db' : Database} {tasks : List Task}
    → IsBatch event_id tenant_id event db db' tasks
    → length db'.deliveries
      ≡ length (list_active_matching_endpoints_for_tenant db tenant_id event.event_type)
        + length db.deliveries
batch_length {tenant_id = tenant_id} {event = event} {db = db} b =
    let es = list_active_matching_endpoints_for_tenant db tenant_id event.event_type in
    omega (
      arith,
      ap (λ (x : Database). length x.deliveries) b.inserted,
      length-push_all b.rows db.deliveries,
      ap length b.one_per_endpoint,
      length-of_map (λ (d : Delivery). d.endpoint_id) b.rows,
      length-of_map (λ (e : Endpoint). e.id) es,
    )

-- Two batches of rows for one event: both have one fresh row for each endpoint that matches, in the order of
-- the endpoints, and the second one is put on top of the first.
pub record IsDoubled (event_id tenant_id : Uuid) (event : Event) (db db2 : Database)
    (tasks2 : List Task) : Type 0 where
  pub first : List Delivery
  pub second : List Delivery
  pub inserted : db2 ≡ record db { deliveries = push_all second (push_all first db.deliveries) }
  pub first_endpoints :
      map (λ d. d.endpoint_id) first
      ≡ map (λ e. e.id) (list_active_matching_endpoints_for_tenant db tenant_id event.event_type)
  pub second_endpoints :
      map (λ d. d.endpoint_id) second
      ≡ map (λ e. e.id) (list_active_matching_endpoints_for_tenant db tenant_id event.event_type)
  pub first_fresh : All (IsFresh event_id tenant_id) first
  pub second_fresh : All (IsFresh event_id tenant_id) second
  pub sent : tasks2 ≡ map (λ d. deliver_to_endpoint d.id tenant_id delivery_queue none) second

-- The fan-out is not idempotent: when it runs twice for one event and both runs commit, each run inserts, for
-- each matching endpoint in turn, one fresh pending row of the event; so each of these endpoints gets a second
-- one, nothing else is changed, and the second run sends a task for each of its rows.
pub fan_out_twice :
    (ids ids' : ℕ → Uuid) (now now' : Datetime) (db : Database) (event_id tenant_id : Uuid)
    {db1 db2 : Database} {tasks1 tasks2 : List Task} {event : Event}
    → get_event_for_tenant db event_id tenant_id ≡ some event
    → fan_out_event_deliveries ids now db event_id tenant_id ≡ ok (db1, tasks1)
    → fan_out_event_deliveries ids' now' db1 event_id tenant_id ≡ ok (db2, tasks2)
    → IsDoubled event_id tenant_id event db db2 tasks2
fan_out_twice ids ids' now now' db event_id tenant_id {db1} {db2} {event = event} found e1 e2 =
    let b1 = fan_out-IsBatch ids now db event_id tenant_id found e1 in
    let same =
      same_queries (push_all b1.rows db.deliveries) db event_id tenant_id event.event_type in
    let found1 : get_event_for_tenant db1 event_id tenant_id ≡ some event =
      rw (b1.inserted, same.0) found in
    let b2 = fan_out-IsBatch ids' now' db1 event_id tenant_id found1 e2 in
    let same1 : list_active_matching_endpoints_for_tenant db1 tenant_id event.event_type
        ≡ list_active_matching_endpoints_for_tenant db tenant_id event.event_type =
      rw (b1.inserted, same.1) in
    record {
      first = b1.rows;
      second = b2.rows;
      inserted =
          subst (λ x. db2 ≡ record x { deliveries = push_all b2.rows x.deliveries }) b1.inserted
            b2.inserted;
      first_endpoints = b1.one_per_endpoint;
      second_endpoints = b2.one_per_endpoint ∙ ap (λ es. map (λ e. e.id) es) same1;
      first_fresh = b1.fresh;
      second_fresh = b2.fresh;
      sent = b2.sent;
    }
