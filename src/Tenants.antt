-- ===== src/Tenants.antt =====
-- app/services/tenant.py and app/api/dependencies/auth.py. `token_hex` is an argument.
pub mod Access
use webhook_delivery_service.Base.{String, Option, none, some}
use webhook_delivery_service.Models.{Uuid, Datetime, Tenant, new_tenant}
use webhook_delivery_service.Errors.{
  Result, ok, raised, ◌>>=◌, app_error, conflict_error, authentication_error, integrity_error,
}
use webhook_delivery_service.Database.{Database, insert_tenant}
use webhook_delivery_service.Queries.{get_tenant_by_api_key}

abbrev pub or_tenant_conflict {ℓ} : {A : Type ℓ} → Result A → Result A
or_tenant_conflict (raised integrity_error) =
    raised (app_error (conflict_error "Tenant could not be created." "TENANT_CONFLICT"))
or_tenant_conflict r = r

unfoldable pub create_tenant :
    Uuid → Datetime → String → String → Database → String → Result (Database × Tenant)
unfolding insert_tenant
create_tenant id now api_key signing_secret db name =
    let tenant = new_tenant id now api_key signing_secret name in
    do db' ← or_tenant_conflict (insert_tenant tenant db); ok (db', tenant)

unfoldable pub authenticate_tenant : Database → String → Option Tenant
authenticate_tenant db api_key = get_tenant_by_api_key db api_key

abbrev pub or_unauthenticated : Option Tenant → Result Tenant
or_unauthenticated none =
    raised (app_error (authentication_error "Invalid API key." "AUTHENTICATION_FAILED"))
or_unauthenticated (some t) = ok t

-- The `X-API-Key` header of a request, if it has one.
unfoldable pub get_current_tenant : Database → Option String → Result Tenant
unfolding authenticate_tenant
get_current_tenant db none =
    raised (app_error (authentication_error "Missing API key." "AUTHENTICATION_FAILED"))
get_current_tenant db (some api_key) = or_unauthenticated (authenticate_tenant db api_key)
