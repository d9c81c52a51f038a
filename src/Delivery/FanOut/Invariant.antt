-- ===== src/Delivery/FanOut/Invariant.antt =====
-- The fan-out and the invariant of the database.
use webhook_delivery_service.Base.{
  ℕ, suc, ◌≡◌, refl, sym, ap, subst, true, ◌&&◌, Option, none, some, List, [], ◌∷◌, arith, All,
  All-select, All-any, any-scalar, All-zip, String, ◌==◌, any, select, select_holds, All-mono,
}
use webhook_delivery_service.Models.{Uuid, Datetime, Endpoint, Event, Delivery, new_delivery}
use webhook_delivery_service.Errors.{ok, >>=-eq-ok, ok_injective}
use webhook_delivery_service.Tasks.{Task}
use webhook_delivery_service.Database.{Database, insert_delivery}
use webhook_delivery_service.Database.Valid.{IsValid, IsOwned}
use webhook_delivery_service.Database.Keeps.{insert_delivery-IsValid, insert_delivery-inversion}
use webhook_delivery_service.Queries.{
  get_event_for_tenant, list_active_matching_endpoints_for_tenant, is_match,
}
use webhook_delivery_service.Delivery.FanOut.{
  build_deliveries, insert_deliveries, fan_out_found, fan_out_event_deliveries,
}

IsOwned-again :
    (db : Database) (rows : List Delivery) (d : Delivery)
    → IsOwned db d
    → IsOwned (record db { deliveries = rows }) d
IsOwned-again db rows d h = record { event = h.event; endpoint = h.endpoint; row = h.row }

insert_deliveries-IsValid :
    (ds : List Delivery) (db : Database) {db' : Database}
    → insert_deliveries ds db ≡ ok db'
    → All (IsOwned db) ds
    → IsValid db
    → IsValid db'
unfolding insert_deliveries
insert_deliveries-IsValid [] db {db'} e own v = subst IsValid (ok_injective e) v
insert_deliveries-IsValid (d ∷ ds) db e own v =
    let (db1, e1, e2) = >>=-eq-ok (insert_delivery d db) (insert_deliveries ds) e in
    let same = (insert_delivery-inversion d db e1).1 in
    insert_deliveries-IsValid ds db1 e2
      (subst (λ x. All (IsOwned x) ds) (sym same)
        (All-mono _ _ (IsOwned-again db (d ∷ db.deliveries)) ds own.1))
      (insert_delivery-IsValid d db e1 own.0 v)

module _ (ids : ℕ → Uuid) (now : Datetime) (event_id tenant_id : Uuid) (db : Database) where
  new_delivery-IsOwned :
      (n : ℕ) (endpoint_id : Uuid)
      → any (λ e. e.id == event_id && e.tenant_id == tenant_id) db.events ≡ true
      → any (λ e. e.id == endpoint_id && e.tenant_id == tenant_id) db.endpoints ≡ true
      → IsOwned db (new_delivery (ids n) now event_id endpoint_id tenant_id)
  new_delivery-IsOwned n endpoint_id ev en = record {
    event = ev;
    endpoint = en;
    row = record { lifecycle = refl; short = tt };
  }

  build_deliveries-IsOwned :
      (n : ℕ) (es : List Endpoint)
      → any (λ e. e.id == event_id && e.tenant_id == tenant_id) db.events ≡ true
      → All (λ e. any (λ y. y.id == e.id && y.tenant_id == tenant_id) db.endpoints ≡ true) es
      → All (IsOwned db) (build_deliveries ids n now event_id tenant_id es)
  unfolding build_deliveries
  build_deliveries-IsOwned n [] ev en = tt
  build_deliveries-IsOwned n (e ∷ es) ev en =
      (new_delivery-IsOwned n e.id ev en.0, build_deliveries-IsOwned (suc n) es ev en.1)

  match-tenant :
      (event_type : String) (e : Endpoint)
      → is_match tenant_id event_type e ≡ true
      → e.tenant_id ≡ tenant_id
  match-tenant event_type e h = ground arith

  matching-owned :
      (event_type : String)
      → All
          (λ e. any (λ y. y.id == e.id && y.tenant_id == tenant_id) db.endpoints ≡ true)
          (list_active_matching_endpoints_for_tenant db tenant_id event_type)
  unfolding list_active_matching_endpoints_for_tenant
  matching-owned event_type =
      All-zip (λ e. any (λ y. y.id == e.id && y.tenant_id == e.tenant_id) db.endpoints ≡ true)
        (λ e. is_match tenant_id event_type e ≡ true)
        (λ e. any (λ y. y.id == e.id && y.tenant_id == tenant_id) db.endpoints ≡ true)
        (λ e a m.
          subst (λ t. any (λ y. y.id == e.id && y.tenant_id == t) db.endpoints ≡ true)
            (match-tenant event_type e m) a)
        (select (is_match tenant_id event_type) db.endpoints)
        (All-select _ (is_match tenant_id event_type) db.endpoints (
          All-any (λ x y. y.id == x.id && y.tenant_id == x.tenant_id) (λ x. ground arith)
            db.endpoints))
        (select_holds (is_match tenant_id event_type) db.endpoints)

  event_known :
      {event : Event}
      → get_event_for_tenant db event_id tenant_id ≡ some event
      → any (λ e. e.id == event_id && e.tenant_id == tenant_id) db.events ≡ true
  unfolding get_event_for_tenant
  event_known h = any-scalar (λ e. e.id == event_id && e.tenant_id == tenant_id) db.events h

  fan_out_found-IsValid :
      (event : Option Event) {db' : Database} {tasks : List Task}
      → fan_out_found ids now db event_id tenant_id event ≡ ok (db', tasks)
      → get_event_for_tenant db event_id tenant_id ≡ event
      → IsValid db
      → IsValid db'
  fan_out_found-IsValid none e found v =
      subst IsValid (ap (λ (p : Database × List Task). p.0) (ok_injective e)) v
  fan_out_found-IsValid (some event) e found v =
      let ds =
        build_deliveries ids 0 now event_id tenant_id
          (list_active_matching_endpoints_for_tenant db tenant_id event.event_type) in
      let (db1, e1, e2) = >>=-eq-ok (insert_deliveries ds db) _ e in
      subst IsValid (ap (λ (p : Database × List Task). p.0) (ok_injective e2)) (
        insert_deliveries-IsValid ds db e1
          (build_deliveries-IsOwned 0 _ (event_known found) (matching-owned event.event_type)) v)

  -- A fan-out that commits keeps the database well-formed: its rows have an event and an endpoint of
  -- their own tenant, whatever ids the task carries.
  pub fan_out-IsValid :
      {db' : Database} {tasks : List Task}
      → fan_out_event_deliveries ids now db event_id tenant_id ≡ ok (db', tasks)
      → IsValid db
      → IsValid db'
  unfolding fan_out_event_deliveries
  fan_out-IsValid e v = fan_out_found-IsValid _ e refl v
