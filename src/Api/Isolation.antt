-- ===== src/Api/Isolation.antt =====
-- Which deliveries a tenant can read.
use webhook_delivery_service.Base.{
  ℕ, ◌+◌, ◌≡◌, ap, subst, String, Option, none, some, Bool, true, ◌&&◌, min, select_holds,
  scalar-select, All, All-mono, All-take, arith, ==→eq, ◌==◌, &&_left, &&_right,
}
use webhook_delivery_service.Base.Sort.{order_by-All}
use webhook_delivery_service.Models.{Uuid, Datetime, Tenant, Delivery}
use webhook_delivery_service.Errors.{
  Result, ok, raised, app_error, not_found_error, >>=-eq-ok, ok_injective,
}
use webhook_delivery_service.Database.{Database}
use webhook_delivery_service.Queries.{
  newer, has_status, has_endpoint_id, is_after_cursor, list_deliveries_by_tenant,
  get_delivery_by_id_for_tenant,
}
use webhook_delivery_service.Delivery.Log.{
  Codec, DeliveryLogPage, max_delivery_log_limit, decode_delivery_cursor, page_of,
  list_delivery_logs, get_delivery_log,
}

-- A row that the filters of a request let through, for its tenant.
abbrev pub IsAllowed : Uuid → Option String → Option Uuid → Delivery → Type 0
IsAllowed tenant_id status endpoint_id d =
    (d.tenant_id ≡ tenant_id)
    × (has_status status d ≡ true)
    × (has_endpoint_id endpoint_id d ≡ true)

IsAllowed-clause :
    (tenant_id : Uuid) (status : Option String) (endpoint_id : Option Uuid) (after : Bool)
    (d : Delivery)
    → (d.tenant_id == tenant_id
        && (has_status status d && (has_endpoint_id endpoint_id d && after)))
      ≡ true
    → IsAllowed tenant_id status endpoint_id d
IsAllowed-clause tenant_id status endpoint_id after d h =
    let rest = &&_right (d.tenant_id == tenant_id) _ h in
    (
      ==→eq d.tenant_id tenant_id (&&_left (d.tenant_id == tenant_id) _ h),
      &&_left (has_status status d) _ rest,
      &&_left (has_endpoint_id endpoint_id d) _ (&&_right (has_status status d) _ rest),
    )

listed-IsAllowed :
    (db : Database) (tenant_id : Uuid) (status : Option String) (endpoint_id : Option Uuid)
    (key : Option (Datetime × Uuid)) (limit : ℕ)
    → All
        (IsAllowed tenant_id status endpoint_id)
        (list_deliveries_by_tenant db tenant_id status endpoint_id key limit)
unfolding list_deliveries_by_tenant
listed-IsAllowed db tenant_id status endpoint_id key limit =
    All-take (IsAllowed tenant_id status endpoint_id) limit _ (
      order_by-All newer (IsAllowed tenant_id status endpoint_id) _ (
        All-mono _ _
          (λ d h. IsAllowed-clause tenant_id status endpoint_id (is_after_cursor key d) d h) _
          (select_holds
            (λ d.
              d.tenant_id == tenant_id
              && (has_status status d && (has_endpoint_id endpoint_id d && is_after_cursor key d)))
            db.deliveries)))

-- Whatever cursor a tenant sends, its own or one that it made up or took from another tenant, a page that it
-- gets holds only deliveries of the tenant that pass its filters.
pub page-IsAllowed :
    (codec : Codec) (db : Database) (tenant : Tenant) (status : Option String)
    (endpoint_id : Option Uuid) (cursor : Option String) (limit : ℕ) {page : DeliveryLogPage}
    → list_delivery_logs codec db tenant status endpoint_id cursor limit ≡ ok page
    → All (IsAllowed tenant.id status endpoint_id) page.items
unfolding list_delivery_logs page_of
page-IsAllowed codec db tenant status endpoint_id cursor limit h =
    let (key, e1, e2) = >>=-eq-ok (decode_delivery_cursor codec cursor) _ h in
    subst (λ (p : DeliveryLogPage). All (IsAllowed tenant.id status endpoint_id) p.items)
      (ok_injective e2)
      (All-take (IsAllowed tenant.id status endpoint_id) (min limit max_delivery_log_limit) _ (
        listed-IsAllowed db tenant.id status endpoint_id key
          (min limit max_delivery_log_limit + 1)))

own_of_clause :
    (tenant_id id : Uuid) (d : Delivery)
    → (d.id == id && d.tenant_id == tenant_id) ≡ true
    → (d.tenant_id ≡ tenant_id) × (d.id ≡ id)
own_of_clause tenant_id id d h = ground arith

found-ok :
    (found : Option Delivery) {d : Delivery}
    → elim found as (λ _. Result Delivery) [
      | none ↦ raised (app_error (not_found_error "Delivery not found." "DELIVERY_NOT_FOUND"))
      | some d ↦ ok d
    ]
      ≡ ok d
    → found ≡ some d
found-ok none h = cc
found-ok (some d) h = ap some (ok_injective h)

-- A delivery that a tenant reads by an id is its own and has the id.
pub get_delivery_log-own :
    (db : Database) (tenant : Tenant) (delivery_id : Uuid) {d : Delivery}
    → get_delivery_log db tenant delivery_id ≡ ok d
    → (d.tenant_id ≡ tenant.id) × (d.id ≡ delivery_id)
unfolding get_delivery_log get_delivery_by_id_for_tenant
get_delivery_log-own db tenant delivery_id {d = d} h = own_of_clause tenant.id delivery_id d (
    scalar-select (λ x. x.id == delivery_id && x.tenant_id == tenant.id) db.deliveries
      (found-ok _ h))
