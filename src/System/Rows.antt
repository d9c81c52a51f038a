-- ===== src/System/Rows.antt =====
-- What the API and the fan-out do to the delivery rows.
use webhook_delivery_service.Base.{
  ℕ, ◌≡◌, suc, refl, sym, ap, ◌∙◌, subst, false, Option, none, some, List, [], ◌∷◌, arith, any,
  lookup, ◌==◌, ==→eq, inl, inr, Bool-cases, any_mono,
}
use webhook_delivery_service.Models.Json.{Fields}
use webhook_delivery_service.Database.Valid.{IsValid}
use webhook_delivery_service.Events.{EventCreate, EventInsertResult, new_event, ingest_event}
use webhook_delivery_service.Events.Idempotency.{Ingested, duplicate, fresh, ingest-Ingested}
use webhook_delivery_service.Endpoints.{or_conflict, create_endpoint, apply_update}
use webhook_delivery_service.Endpoints.Lifecycle.{
  or_conflict-ok, update-inversion, delete-inversion,
}
use webhook_delivery_service.Tenants.Access.{create-inversion}
use webhook_delivery_service.Models.{
  Uuid, Datetime, Tenant, new_tenant, new_endpoint, Endpoint, Event, Delivery, new_delivery,
}
use webhook_delivery_service.Errors.{ok, >>=-eq-ok, ok_injective}
use webhook_delivery_service.Tasks.{Task}
use webhook_delivery_service.Database.{Database, insert_delivery, insert_endpoint}
use webhook_delivery_service.Database.Keeps.{
  insert_delivery-inversion, insert_tenant-inversion, insert_endpoint-inversion,
  insert_event-inversion, update_endpoint_row-inversion,
}
use webhook_delivery_service.Delivery.FanOut.{
  build_deliveries, insert_deliveries, fan_out_found, fan_out_event_deliveries,
}
use webhook_delivery_service.Delivery.Once.Claim.{lookup_delivery}
use webhook_delivery_service.Delivery.Once.Budget.{attempts_of}
use webhook_delivery_service.Queries.{list_active_matching_endpoints_for_tenant}
use webhook_delivery_service.System.{
  Service, tenant_created, endpoint_created, endpoint_updated, endpoint_deleted, event_ingested,
  event_fanned_out,
}

-- What stays of the row with an id: it is the same, or it is new and was never attempted.
pub record IsKept (db db' : Database) : Type 0 where
  pub same_row :
      (id : Uuid) {d : Delivery} → lookup_delivery id db ≡ some d → lookup_delivery id db' ≡ some d
  pub same_count :
      (id : Uuid) → attempts_of (lookup_delivery id db') ≡ attempts_of (lookup_delivery id db)

same_deliveries : (db db' : Database) → db'.deliveries ≡ db.deliveries → IsKept db db'
same_deliveries db db' e = record {
  same_row = λ id h. ap (λ ds. lookup (λ d. d.id) id ds) e ∙ h;
  same_count = λ id. ap (λ ds. attempts_of (lookup (λ d. d.id) id ds)) e;
}

IsKept-then : {a b c : Database} → IsKept a b → IsKept b c → IsKept a c
IsKept-then h k = record {
  same_row = λ id e. k.same_row id (h.same_row id e);
  same_count = λ id. k.same_count id ∙ h.same_count id;
}

absent :
    (id : Uuid) (xs : List Delivery)
    → any (λ x. x.id == id) xs ≡ false
    → lookup (λ d. d.id) id xs ≡ none
absent id [] h = refl
absent id (x ∷ xs) h = ground (arith, absent id xs)

inserted-IsKept :
    (d : Delivery) (db : Database) {db' : Database}
    → insert_delivery d db ≡ ok db'
    → d.attempt_number ≡ 0
    → IsKept db db'
inserted-IsKept d db {db' = db'} e zero_attempts =
    let (unused, written) = insert_delivery-inversion d db e in
    let gone : lookup_delivery d.id db ≡ none = absent d.id db.deliveries (
      any_mono (λ x. d.id == x.id) (λ x. x.id == d.id) (λ x h. ground arith) db.deliveries
        unused) in
    subst (IsKept db) (sym written) (record {
      same_row = λ id h. elim (Bool-cases (d.id == id)) [
        | inl same ↦ cc (subst (λ k. lookup_delivery k db ≡ none) (==→eq d.id id same) gone, h)
        | inr other ↦ rw other h
      ];
      same_count = λ id. elim (Bool-cases (d.id == id)) [
        | inl same ↦ rw same (
            zero_attempts
            ∙ ap attempts_of
                (sym (subst (λ k. lookup_delivery k db ≡ none) (==→eq d.id id same) gone)))
        | inr other ↦ rw other
      ];
    })

built-IsKept :
    (ids : ℕ → Uuid) (n : ℕ) (now : Datetime) (event_id tenant_id : Uuid) (es : List Endpoint)
    (db : Database) {db' : Database}
    → insert_deliveries (build_deliveries ids n now event_id tenant_id es) db ≡ ok db'
    → IsKept db db'
unfolding insert_deliveries build_deliveries
built-IsKept ids n now event_id tenant_id [] db e =
    same_deliveries db _ (ap (λ (x : Database). x.deliveries) (sym (ok_injective e)))
built-IsKept ids n now event_id tenant_id (x ∷ es) db e =
    let d = new_delivery (ids n) now event_id x.id tenant_id in
    let (db1, e1, e2) = >>=-eq-ok (insert_delivery d db) _ e in
    IsKept-then (inserted-IsKept d db e1 refl)
      (built-IsKept ids (suc n) now event_id tenant_id es db1 e2)

fan_out-IsKept :
    (ids : ℕ → Uuid) (now : Datetime) (db : Database) (event_id tenant_id : Uuid)
    (found : Option Event) {db' : Database} {tasks : List Task}
    → fan_out_found ids now db event_id tenant_id found ≡ ok (db', tasks)
    → IsKept db db'
fan_out-IsKept ids now db event_id tenant_id none e =
    same_deliveries db _ (ap (λ (p : Database × List Task). p.0.deliveries) (sym (ok_injective e)))
fan_out-IsKept ids now db event_id tenant_id (some event) {db' = db'} e =
    let es = list_active_matching_endpoints_for_tenant db tenant_id event.event_type in
    let (db1, e1, e2) =
      >>=-eq-ok (insert_deliveries (build_deliveries ids 0 now event_id tenant_id es) db) _ e in
    subst (IsKept db) (ap (λ (p : Database × List Task). p.0) (ok_injective e2))
      (built-IsKept ids 0 now event_id tenant_id es db e1)

ingest-deliveries :
    (jsonb : Fields → Fields) (id : Uuid) (now : Datetime) (db : Database) (tenant : Tenant)
    (e : EventCreate) {db' : Database} {r : EventInsertResult} {tasks : List Task}
    → ingest_event jsonb id now db tenant e ≡ ok (db', r, tasks)
    → db'.deliveries ≡ db.deliveries
ingest-deliveries jsonb id now db tenant e {db' = db'} h =
    by_case (ingest-Ingested jsonb id now db tenant e h)
  where
    by_case :
        {r : EventInsertResult} {tasks : List Task}
        → Ingested jsonb id now db tenant e db' r tasks
        → db'.deliveries ≡ db.deliveries
    by_case (duplicate x found same p q) = ap (λ (d : Database). d.deliveries) same
    by_case (fresh done p q) =
        ap (λ (d : Database). d.deliveries)
          (insert_event-inversion (new_event jsonb id now tenant.id e) db done).2

-- A call of the API, or a fan-out, that succeeds in a well-formed database.
pub Service-IsKept : {db db' : Database} → Service db db' → IsValid db → IsKept db db'
unfolding create_endpoint fan_out_event_deliveries
Service-IsKept {db = db} {db' = db'} (tenant_created id now k s name h) v =
    let written =
      (insert_tenant-inversion (new_tenant id now k s name) db
        (create-inversion id now k s db name h).0).1 in
    same_deliveries db db' (ap (λ (x : Database). x.deliveries) written)
Service-IsKept {db = db} {db' = db'} (endpoint_created id now tenant e h) v =
    let (db1, e1, e2) =
      >>=-eq-ok
        (or_conflict _ (insert_endpoint (new_endpoint id now tenant.id e.url e.event_types) db)) _
        h in
    same_deliveries db db' (
      ap (λ (p : Database × Endpoint). p.0.deliveries) (sym (ok_injective e2))
      ∙ ap (λ (x : Database). x.deliveries)
          (insert_endpoint-inversion (new_endpoint id now tenant.id e.url e.event_types) db
            (or_conflict-ok _ _ e1)).2)
Service-IsKept {db = db} {db' = db'} (endpoint_updated tenant id u h) v =
    let (e, found, written) = update-inversion db v tenant id u h in
    same_deliveries db db' (
      ap (λ (x : Database). x.deliveries)
        (update_endpoint_row-inversion (apply_update u e) db written))
Service-IsKept {db = db} {db' = db'} (endpoint_deleted tenant id h) v =
    let (e, found, written) = delete-inversion db v tenant id h in
    same_deliveries db db' (ap (λ (x : Database). x.deliveries) written)
Service-IsKept {db = db} {db' = db'} (event_ingested jsonb id now tenant e h) v =
    same_deliveries db db' (ingest-deliveries jsonb id now db tenant e h)
Service-IsKept {db = db} (event_fanned_out ids now event_id tenant_id h) v =
    fan_out-IsKept ids now db event_id tenant_id _ h
