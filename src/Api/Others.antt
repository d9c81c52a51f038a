-- ===== src/Api/Others.antt =====
-- The calls that the routes make for a tenant leave the rows of all others.
use webhook_delivery_service.Base.{
  none, ◌≡◌, ◌≢◌, refl, sym, ap, ◌∙◌, subst, none, some, Bool, true, false, not, List, [], ◌∷◌,
  arith, All, All-mono, select, lookup, replace, same_id, ◌==◌, ==→eq, ==_refl, Bool-cases, inl,
  inr, key-lookup, ℕ, if◌then◌else◌,
}
use mathlib.Core.Option.{some-injective}
use webhook_delivery_service.Models.{Uuid, Tenant, Endpoint, new_endpoint}
use webhook_delivery_service.Errors.{ok, >>=-eq-ok, ok_injective}
use webhook_delivery_service.Tasks.{Task}
use webhook_delivery_service.Database.{Database, insert_endpoint}
use webhook_delivery_service.Database.Valid.{IsValid}
use webhook_delivery_service.Database.Keeps.{
  insert_endpoint-inversion, insert_event-inversion, update_endpoint_row-inversion,
}
use webhook_delivery_service.Endpoints.{
  EndpointCreate, EndpointUpdate, or_conflict, create_endpoint, apply_update, update_endpoint,
  delete_endpoint,
}
use webhook_delivery_service.Endpoints.Lifecycle.{
  lookup_endpoint, or_conflict-ok, hidden_not_found, update-inversion, delete-inversion,
}
use webhook_delivery_service.Events.{EventCreate, EventInsertResult, new_event}
use webhook_delivery_service.Events.Idempotency.{Ingested, duplicate, fresh, ingest-Ingested}
use webhook_delivery_service.Worker.Batch.{Distinct-lookup}
use webhook_delivery_service.Api.{Context, Request}
use webhook_delivery_service.Api.Calls.{IsCall, creates, updates, deletes, ingests}

-- The rows of all other tenants, in their order, are as they were.
pub record OthersKept (tenant_id : Uuid) (db db' : Database) : Type 0 where
  pub tenants : db'.tenants ≡ db.tenants
  pub endpoints :
      select (λ e. not (e.tenant_id == tenant_id)) db'.endpoints
      ≡ select (λ e. not (e.tenant_id == tenant_id)) db.endpoints
  pub events :
      select (λ e. not (e.tenant_id == tenant_id)) db'.events
      ≡ select (λ e. not (e.tenant_id == tenant_id)) db.events
  pub deliveries : db'.deliveries ≡ db.deliveries

-- A row that is replaced by another is not among those selected, and neither is the other.
select-replace {ℓ} :
    {A : Type ℓ} (key : A → ℕ) (p : A → Bool) (d : A) (xs : List A)
    → p d ≡ false
    → All (λ x. (key x == key d) ≡ true → p x ≡ false) xs
    → select p (replace key d xs) ≡ select p xs
select-replace key p d [] h out = refl
select-replace key p d (x ∷ xs) h out = elim (Bool-cases (key x == key d)) [
  | inl hit ↦ rw (hit, h, out.0 hit) (select-replace key p d xs h out.1)
  | inr miss ↦ rw miss (ap (λ l. if p x then x ∷ l else l) (select-replace key p d xs h out.1))
]

module _ (db : Database) (v : IsValid db) (tenant : Tenant) (id : Uuid) where
  abbrev is_foreign : Endpoint → Bool
  is_foreign e = not (e.tenant_id == tenant.id)

  -- An endpoint of the tenant is replaced by another of the tenant.
  replaced_endpoint :
      (e x : Endpoint)
      → lookup_endpoint id db ≡ some e
      → e.tenant_id ≡ tenant.id
      → x.id ≡ e.id
      → x.tenant_id ≡ e.tenant_id
      → OthersKept tenant.id db (record db { endpoints = replace (λ y. y.id) x db.endpoints })
  replaced_endpoint e x found own same_id same_tenant = record {
    tenants = refl;
    endpoints =
        select-replace (λ y. y.id) is_foreign x db.endpoints (own_row x (same_tenant ∙ own))
          (All-mono (λ y. lookup (λ z. z.id) y.id db.endpoints ≡ some y)
            (λ y. (y.id == x.id) ≡ true → is_foreign y ≡ false) only db.endpoints
            (Distinct-lookup (λ y. y.id) db.endpoints v.endpoints_distinct));
    events = refl;
    deliveries = refl;
  }
    where
      own_row : (y : Endpoint) → y.tenant_id ≡ tenant.id → is_foreign y ≡ false
      own_row y h = ground (arith, h)

      only :
          (y : Endpoint)
          → lookup (λ z. z.id) y.id db.endpoints ≡ some y
          → (y.id == x.id) ≡ true
          → is_foreign y ≡ false
      only y here hit =
          let key : y.id ≡ id =
            ==→eq y.id x.id hit ∙ same_id ∙ key-lookup (λ z. z.id) id db.endpoints found in
          let there : lookup_endpoint id db ≡ some y =
            subst (λ k. lookup_endpoint k db ≡ some y) key here in
          own_row y
            (ap (λ (z : Endpoint). z.tenant_id) (some-injective y e (sym there ∙ found)) ∙ own)

  updated_own :
      (u : EndpointUpdate) (e : Endpoint) {out : Database × Endpoint}
      → lookup_endpoint id db ≡ some e
      → update_endpoint db tenant id u ≡ ok out
      → e.tenant_id ≡ tenant.id
  updated_own u e found h = elim (Bool-cases (e.tenant_id == tenant.id)) [
    | inl own ↦ ==→eq e.tenant_id tenant.id own
    | inr other ↦
        let ne : e.tenant_id ≢ tenant.id = λ q. ground (arith, other, q) in
        cc ((hidden_not_found db v tenant id u (inr (e, found, inr ne))).0, h)
  ]

  deleted_own :
      (e : Endpoint) {db' : Database}
      → lookup_endpoint id db ≡ some e
      → delete_endpoint db tenant id ≡ ok db'
      → e.tenant_id ≡ tenant.id
  deleted_own e found h = elim (Bool-cases (e.tenant_id == tenant.id)) [
    | inl own ↦ ==→eq e.tenant_id tenant.id own
    | inr other ↦
        let ne : e.tenant_id ≢ tenant.id = λ q. ground (arith, other, q) in
        cc (
          (hidden_not_found db v tenant id (record { url = none; event_types = none })
              (inr (e, found, inr ne))).1,
          h,
        )
  ]

created_endpoint :
    (c : Context) (db : Database) (tenant : Tenant) (payload : EndpointCreate)
    {out : Database × Endpoint}
    → create_endpoint c.new_id c.now db tenant payload ≡ ok out
    → OthersKept tenant.id db out.0
unfolding create_endpoint
created_endpoint c db tenant payload {out} h =
    let x = new_endpoint c.new_id c.now tenant.id payload.url payload.event_types in
    let (db1, e1, e2) = >>=-eq-ok (or_conflict _ (insert_endpoint x db)) _ h in
    let written = (insert_endpoint-inversion x db (or_conflict-ok _ _ e1)).2 in
    let same : record db { endpoints = x ∷ db.endpoints } ≡ out.0 =
      sym written ∙ ap (λ (o : Database × Endpoint). o.0) (ok_injective e2) in
    subst (OthersKept tenant.id db) same (record {
      tenants = refl;
      endpoints = rw (==_refl tenant.id) refl;
      events = refl;
      deliveries = refl;
    })

ingested :
    (c : Context) (db : Database) (tenant : Tenant) (payload : EventCreate) {db' : Database}
    {r : EventInsertResult} {tasks : List Task}
    → Ingested c.jsonb c.new_id c.now db tenant payload db' r tasks
    → OthersKept tenant.id db db'
ingested c db tenant payload (duplicate x found same p q) =
    subst (OthersKept tenant.id db) (sym same)
      (record { tenants = refl; endpoints = refl; events = refl; deliveries = refl })
ingested c db tenant payload (fresh done p q) =
    let x = new_event c.jsonb c.new_id c.now tenant.id payload in
    subst (OthersKept tenant.id db) (sym (insert_event-inversion x db done).2) (record {
      tenants = refl;
      endpoints = refl;
      events = rw (==_refl tenant.id) refl;
      deliveries = refl;
    })

pub IsCall-OthersKept :
    {c : Context} {db : Database} {tenant : Tenant} {request : Request} {db' : Database}
    {tasks : List Task}
    → IsValid db
    → IsCall c db tenant request db' tasks
    → OthersKept tenant.id db db'
IsCall-OthersKept {c = c} {db = db} {tenant = tenant} v (creates payload h) =
    created_endpoint c db tenant payload h
IsCall-OthersKept {db = db} {tenant = tenant} v (updates id payload h) =
    let (e, found, written) = update-inversion db v tenant id payload h in
    subst (OthersKept tenant.id db)
      (sym (update_endpoint_row-inversion (apply_update payload e) db written))
      (replaced_endpoint db v tenant id e (apply_update payload e) found
        (updated_own db v tenant id payload e found h) refl refl)
IsCall-OthersKept {db = db} {tenant = tenant} v (deletes id h) =
    let (e, found, written) = delete-inversion db v tenant id h in
    subst (OthersKept tenant.id db) (sym written) (
      replaced_endpoint db v tenant id e (record e { is_active = false }) found
        (deleted_own db v tenant id e found h) refl refl)
IsCall-OthersKept {c = c} {db = db} {tenant = tenant} v (ingests payload h) =
    ingested c db tenant payload (ingest-Ingested c.jsonb c.new_id c.now db tenant payload h)
