-- ===== src/Queries.antt =====
-- The SELECT statements of app/queries, as functions of the tables.

use webhook_delivery_service.Base.{
  ℕ, String, Bool, true, false, Option, none, some, List, ◌&&◌, ◌||◌, not, any, take, select,
  scalar_one_or_none, ltb, leb, ◌==◌, str_eq, is_none,
}
use webhook_delivery_service.Base.Sort.{order_by}
use webhook_delivery_service.Models.{
  Uuid, Datetime, Tenant, Endpoint, Event, Delivery, Status, pending, status_text,
}
use webhook_delivery_service.Database.{Database}

-- app/queries/tenant.py
unfoldable pub get_tenant_by_api_key : Database → String → Option Tenant
get_tenant_by_api_key db api_key =
    scalar_one_or_none (select (λ t. str_eq t.api_key api_key) db.tenants)

-- app/queries/endpoint.py
abbrev pub is_active_of : Uuid → Endpoint → Bool
is_active_of tenant_id e = e.tenant_id == tenant_id && e.is_active

-- ORDER BY created_at; SQL leaves the order of equal times open.
unfoldable pub list_active_endpoints_by_tenant : Database → Uuid → List Endpoint
unfolding order_by
list_active_endpoints_by_tenant db tenant_id =
    order_by (λ a b. ltb a.created_at b.created_at) (select (is_active_of tenant_id) db.endpoints)

unfoldable pub get_active_endpoint_by_id_for_tenant : Database → Uuid → Uuid → Option Endpoint
get_active_endpoint_by_id_for_tenant db tenant_id endpoint_id =
    scalar_one_or_none (select (λ e. e.id == endpoint_id && is_active_of tenant_id e) db.endpoints)

-- app/queries/delivery.py
unfoldable pub get_delivery_by_id_for_tenant : Database → Uuid → Uuid → Option Delivery
get_delivery_by_id_for_tenant db tenant_id delivery_id =
    scalar_one_or_none (select (λ d. d.id == delivery_id && d.tenant_id == tenant_id) db.deliveries)

unfoldable pub get_event_for_tenant : Database → Uuid → Uuid → Option Event
get_event_for_tenant db event_id tenant_id =
    scalar_one_or_none (select (λ e. e.id == event_id && e.tenant_id == tenant_id) db.events)

unfoldable pub get_tenant_by_id : Database → Uuid → Option Tenant
get_tenant_by_id db tenant_id = scalar_one_or_none (select (λ t. t.id == tenant_id) db.tenants)

-- `event_types.contains([event_type])`.
abbrev pub is_match : Uuid → String → Endpoint → Bool
is_match tenant_id event_type e =
    is_active_of tenant_id e && any (λ t. str_eq t event_type) e.event_types

unfoldable pub list_active_matching_endpoints_for_tenant : Database → Uuid → String → List Endpoint
list_active_matching_endpoints_for_tenant db tenant_id event_type =
    select (is_match tenant_id event_type) db.endpoints

unfoldable pub get_active_endpoint_for_tenant : Database → Uuid → Uuid → Option Endpoint
get_active_endpoint_for_tenant db endpoint_id tenant_id =
    scalar_one_or_none (select (λ e. e.id == endpoint_id && is_active_of tenant_id e) db.endpoints)

abbrev pub is_pending : Status → Bool
is_pending pending = true
is_pending _ = false

-- `next_retry_at <= now`, which is not true of a NULL.
abbrev pub is_past : Option Datetime → Datetime → Bool
is_past none now = false
is_past (some t) now = leb t now

-- A pending row of the tenant whose retry time, if it has one, has come.
abbrev pub is_claimable : Datetime → Uuid → Delivery → Bool
is_claimable now tenant_id d =
    d.tenant_id == tenant_id
    && (is_pending d.status && (is_none d.next_retry_at || is_past d.next_retry_at now))

abbrev pub is_locked : List Uuid → Delivery → Bool
is_locked locked d = any (λ k. k == d.id) locked

-- FOR UPDATE SKIP LOCKED: `locked` are the rows that other transactions have locked.
unfoldable pub get_pending_delivery_for_update :
    List Uuid → Datetime → Database → Uuid → Uuid → Option Delivery
get_pending_delivery_for_update locked now db delivery_id tenant_id = scalar_one_or_none (
    select (λ d. d.id == delivery_id && (is_claimable now tenant_id d && not (is_locked locked d)))
      db.deliveries)

abbrev pub is_due : Datetime → Delivery → Bool
is_due now d = is_pending d.status && is_past d.next_retry_at now

-- The key of ORDER BY next_retry_at. Every row that is ordered has one.
abbrev pub retry_before : Option Datetime → Option Datetime → Bool
retry_before (some a) (some b) = ltb a b
retry_before _ _ = false

unfoldable pub list_due_pending_deliveries : Database → Datetime → ℕ → List Delivery
unfolding order_by
list_due_pending_deliveries db now limit = take limit (
    order_by (λ a b. retry_before a.next_retry_at b.next_retry_at)
      (select (is_due now) db.deliveries))

-- ORDER BY created_at DESC, id DESC, and the keyset condition of a cursor.
abbrev pub key_before : Datetime → Uuid → Datetime → Uuid → Bool
key_before at id at' id' = ltb at' at || (at' == at && ltb id' id)

abbrev pub newer : Delivery → Delivery → Bool
newer a b = key_before a.created_at a.id b.created_at b.id

abbrev pub has_status : Option String → Delivery → Bool
has_status none d = true
has_status (some s) d = str_eq (status_text d.status) s

abbrev pub has_endpoint_id : Option Uuid → Delivery → Bool
has_endpoint_id none d = true
has_endpoint_id (some e) d = d.endpoint_id == e

-- Both parts of the cursor, or no condition.
abbrev pub is_after_cursor : Option (Datetime × Uuid) → Delivery → Bool
is_after_cursor none d = true
is_after_cursor (some (at, id)) d = key_before at id d.created_at d.id

unfoldable pub list_deliveries_by_tenant :
    Database → Uuid → Option String → Option Uuid → Option (Datetime × Uuid) → ℕ → List Delivery
unfolding order_by
list_deliveries_by_tenant db tenant_id status endpoint_id cursor limit = take limit (
    order_by newer (
      select
        (λ d.
          d.tenant_id == tenant_id
          && (has_status status d && (has_endpoint_id endpoint_id d && is_after_cursor cursor d)))
        db.deliveries))
