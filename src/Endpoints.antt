-- ===== src/Endpoints.antt =====
-- app/services/endpoint.py and the request models of app/schemas/endpoint.py. Deletion is soft.
pub mod Lifecycle
pub mod Deletion
use webhook_delivery_service.Base.{
  String, Bool, false, Option, none, some, List, is_none, ◌&&◌, not, replace,
}
use webhook_delivery_service.Models.{Uuid, Datetime, Tenant, Endpoint, new_endpoint}
use webhook_delivery_service.Errors.{
  Result, ok, raised, ◌>>=◌, app_error, conflict_error, not_found_error, integrity_error,
}
use webhook_delivery_service.Database.{Database, insert_endpoint, update_endpoint_row}
use webhook_delivery_service.Queries.{
  list_active_endpoints_by_tenant, get_active_endpoint_by_id_for_tenant,
}

pub record EndpointCreate : Type 0 where
  pub url : String
  pub event_types : List String

pub record EndpointUpdate : Type 0 where
  pub url : Option String
  pub event_types : Option (List String)

-- `validate_update_payload`
unfoldable pub is_update : EndpointUpdate → Bool
is_update u = not (is_none u.url && is_none u.event_types)

-- `except IntegrityError`; the rollback leaves the tables as they were.
abbrev pub or_conflict {ℓ} : {A : Type ℓ} → String → Result A → Result A
or_conflict message (raised integrity_error) =
    raised (app_error (conflict_error message "ENDPOINT_CONFLICT"))
or_conflict message r = r

unfoldable pub create_endpoint :
    Uuid → Datetime → Database → Tenant → EndpointCreate → Result (Database × Endpoint)
unfolding insert_endpoint
create_endpoint id now db tenant endpoint_in =
    let endpoint = new_endpoint id now tenant.id endpoint_in.url endpoint_in.event_types in
    do
      db' ← or_conflict "Endpoint could not be created." (insert_endpoint endpoint db)
      ok (db', endpoint)

unfoldable pub list_endpoints : Database → Tenant → List Endpoint
list_endpoints db tenant = list_active_endpoints_by_tenant db tenant.id

abbrev pub or_not_found : Option Endpoint → Result Endpoint
or_not_found none = raised (app_error (not_found_error "Endpoint not found." "ENDPOINT_NOT_FOUND"))
or_not_found (some e) = ok e

abbrev pub or_keep {ℓ} : {A : Type ℓ} → Option A → A → A
or_keep none a = a
or_keep (some b) a = b

abbrev pub apply_update : EndpointUpdate → Endpoint → Endpoint
apply_update u e = record e {
  url = or_keep u.url e.url;
  event_types = or_keep u.event_types e.event_types;
}

unfoldable pub update_endpoint :
    Database → Tenant → Uuid → EndpointUpdate → Result (Database × Endpoint)
unfolding update_endpoint_row
update_endpoint db tenant endpoint_id endpoint_in = do
  endpoint ← or_not_found (get_active_endpoint_by_id_for_tenant db tenant.id endpoint_id)
  let changed = apply_update endpoint_in endpoint
  db' ← or_conflict "Endpoint could not be updated." (update_endpoint_row changed db)
  ok (db', changed)

-- The UPDATE writes `is_active` alone, so no constraint can refuse it.
unfoldable pub delete_endpoint : Database → Tenant → Uuid → Result Database
delete_endpoint db tenant endpoint_id = do
  endpoint ← or_not_found (get_active_endpoint_by_id_for_tenant db tenant.id endpoint_id)
  ok (record db {
    endpoints = replace (λ e. e.id) (record endpoint { is_active = false }) db.endpoints;
  })
