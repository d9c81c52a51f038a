-- ===== src/Delivery/Once/Isolation.antt =====
-- What the delivery task posts, and to whom.
use webhook_delivery_service.Base.{
  ◌≡◌, refl, true, ◌&&◌, some, [], ◌∷◌, arith, ◌==◌, scalar-select, All, lookup, lookup-select,
  same_id, Distinct-mono,
}
use webhook_delivery_service.Models.{Uuid, Tenant, Endpoint, Event, Delivery}
use webhook_delivery_service.Database.{Database, event_clash}
use webhook_delivery_service.Database.Valid.{IsValid}
use webhook_delivery_service.Queries.{
  get_pending_delivery_for_update, get_active_endpoint_for_tenant, get_event_for_tenant,
  get_tenant_by_id, is_active_of,
}
use webhook_delivery_service.Delivery.Attempt.{HttpRequest, Hmac, build_request}
use webhook_delivery_service.Delivery.Once.{
  Surroundings, Run, attempt, deliver_to_endpoint_once, process,
}
use webhook_delivery_service.Delivery.Once.Claim.{IsClaimed, lookup_delivery}
use webhook_delivery_service.Delivery.Once.Cases.{once_cases, IsLookedUp}

-- A request for the delivery `id` of the tenant `tenant_id`. The rows are those of the tables: the delivery
-- with that id is the tenant's, its endpoint's row is active and the tenant's, its event's row is the
-- tenant's, and the request is built from these rows and signed with the secret in the tenant's own row.
pub record IsAuthorized (hmac : Hmac) (db : Database) (id tenant_id : Uuid) (r : HttpRequest)
    : Type 0 where
  pub delivery : Delivery
  pub endpoint : Endpoint
  pub event : Event
  pub tenant : Tenant
  pub delivery_found : lookup_delivery id db ≡ some delivery
  pub endpoint_found : lookup (λ e. e.id) delivery.endpoint_id db.endpoints ≡ some endpoint
  pub event_found : lookup (λ e. e.id) delivery.event_id db.events ≡ some event
  pub tenant_found : lookup (λ t. t.id) tenant_id db.tenants ≡ some tenant
  pub delivery_owned : delivery.tenant_id ≡ tenant_id
  pub endpoint_owned : endpoint.tenant_id ≡ tenant_id
  pub event_owned : event.tenant_id ≡ tenant_id
  pub endpoint_active : endpoint.is_active ≡ true
  pub built : r ≡ build_request hmac tenant.signing_secret endpoint event

endpoint_test :
    (e : Endpoint) (id tenant_id : Uuid)
    → (e.id == id && is_active_of tenant_id e) ≡ true
    → (e.id ≡ id) × (e.tenant_id ≡ tenant_id) × (e.is_active ≡ true)
endpoint_test e id tenant_id h = ground arith

pub endpoint_of_query :
    (db : Database) (id tenant_id : Uuid) {e : Endpoint}
    → get_active_endpoint_for_tenant db id tenant_id ≡ some e
    → (e.id ≡ id) × (e.tenant_id ≡ tenant_id) × (e.is_active ≡ true)
unfolding get_active_endpoint_for_tenant
endpoint_of_query db id tenant_id {e} h =
    endpoint_test e id tenant_id
      (scalar-select (λ x. x.id == id && is_active_of tenant_id x) db.endpoints h)

event_test :
    (e : Event) (id tenant_id : Uuid)
    → (e.id == id && e.tenant_id == tenant_id) ≡ true
    → (e.id ≡ id) × (e.tenant_id ≡ tenant_id)
event_test e id tenant_id h = ground arith

pub event_of_query :
    (db : Database) (id tenant_id : Uuid) {e : Event}
    → get_event_for_tenant db id tenant_id ≡ some e
    → (e.id ≡ id) × (e.tenant_id ≡ tenant_id)
unfolding get_event_for_tenant
event_of_query db id tenant_id {e} h =
    event_test e id tenant_id
      (scalar-select (λ x. x.id == id && x.tenant_id == tenant_id) db.events h)

-- In a well-formed database the row that a query finds is the one with the id.
module _ (db : Database) (v : IsValid db) where
  endpoint-lookup :
      (id tenant_id : Uuid) {e : Endpoint}
      → get_active_endpoint_for_tenant db id tenant_id ≡ some e
      → lookup (λ x. x.id) id db.endpoints ≡ some e
  unfolding get_active_endpoint_for_tenant
  endpoint-lookup id tenant_id h =
      lookup-select (λ x. x.id) id (is_active_of tenant_id) db.endpoints v.endpoints_distinct h

  event-lookup :
      (id tenant_id : Uuid) {e : Event}
      → get_event_for_tenant db id tenant_id ≡ some e
      → lookup (λ x. x.id) id db.events ≡ some e
  unfolding get_event_for_tenant
  event-lookup id tenant_id h =
      lookup-select (λ x. x.id) id (λ x. x.tenant_id == tenant_id) db.events
        (Distinct-mono event_clash (same_id (λ x. x.id)) (λ x y k. ground (arith, k)) db.events
          v.events_distinct)
        h

  tenant-lookup :
      (id : Uuid) {t : Tenant}
      → get_tenant_by_id db id ≡ some t
      → lookup (λ x. x.id) id db.tenants ≡ some t
  unfolding get_tenant_by_id
  tenant-lookup id h = h

module _ (s : Surroundings) (db : Database) (id tenant_id : Uuid) where
  abbrev Authorized : Run → Type 0
  Authorized r = All (IsAuthorized s.hmac db id tenant_id) r.posted

  attempt-Authorized :
      IsValid db
      → (d : Delivery) (endpoint : Endpoint) (event : Event) (tenant : Tenant)
      → IsClaimed db id tenant_id d
      → IsLookedUp db tenant_id d endpoint event tenant
      → Authorized (attempt s db tenant_id d endpoint event tenant)
  attempt-Authorized v d endpoint event tenant c l =
      let e = endpoint_of_query db d.endpoint_id tenant_id l.endpoint_found in
      let o = event_of_query db d.event_id tenant_id l.event_found in
      (
        record {
          delivery = d;
          endpoint = endpoint;
          event = event;
          tenant = tenant;
          delivery_found = c.found;
          endpoint_found = endpoint-lookup db v d.endpoint_id tenant_id l.endpoint_found;
          event_found = event-lookup db v d.event_id tenant_id l.event_found;
          tenant_found = tenant-lookup db v tenant_id l.tenant_found;
          delivery_owned = c.same_tenant;
          endpoint_owned = e.1;
          event_owned = o.1;
          endpoint_active = e.2;
          built = refl;
        },
        tt,
      )

  -- Whatever ids a delivery task carries, in a well-formed database every request that it posts is built from
  -- rows of the tables: the delivery with that id, which is the task's tenant's, its event, and its endpoint,
  -- which is active at that time; endpoint and event are the tenant's too, and the request is signed with the
  -- secret in the tenant's own row.
  pub posted-IsAuthorized :
      IsValid db
      → All
          (IsAuthorized s.hmac db id tenant_id)
          (deliver_to_endpoint_once s db id tenant_id).posted
  posted-IsAuthorized v =
      once_cases Authorized s db id tenant_id (λ d c message. tt) (attempt-Authorized v) v tt

  -- A run that claims a row whose endpoint, event and tenant are found posts exactly one request,
  -- built from them and signed with the tenant's secret.
  pub posts_once :
      {d : Delivery} {endpoint : Endpoint} {event : Event} {tenant : Tenant}
      → get_pending_delivery_for_update s.locked s.claim_now db id tenant_id ≡ some d
      → IsLookedUp db tenant_id d endpoint event tenant
      → (deliver_to_endpoint_once s db id tenant_id).posted
        ≡ build_request s.hmac tenant.signing_secret endpoint event ∷ []
  unfolding deliver_to_endpoint_once process
  posts_once c l = rw (c, l.endpoint_found, l.event_found, l.tenant_found)
