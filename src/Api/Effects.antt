-- ===== src/Api/Effects.antt =====
-- What a request does: the call that it asks for, made for its own tenant, or nothing.
use webhook_delivery_service.Base.{[], ◌≡◌, ◌⊎◌, String, Option, some, lookup}
use webhook_delivery_service.Models.{Tenant}
use webhook_delivery_service.Errors.{handle_error, Exn, ErrorResponse, raised}
use webhook_delivery_service.Database.{Database}
use webhook_delivery_service.Tenants.{get_current_tenant}
use webhook_delivery_service.System.{Service}
use webhook_delivery_service.Api.{
  Context, Request, get_endpoints, get_me, get_deliveries, get_delivery, Served, error_response,
}
use webhook_delivery_service.Api.Others.{OthersKept}
use webhook_delivery_service.Api.Calls.{IsFailure, IsCall}

-- The requests that only read.
abbrev pub IsRead : Request → Type 0
IsRead get_endpoints = Unit
IsRead get_me = Unit
IsRead (get_deliveries status endpoint_id cursor limit) = Unit
IsRead (get_delivery id) = Unit
IsRead _ = ⊥

-- A read, or the call that the request asks for.
abbrev pub IsDone : Context → Database → Tenant → Request → Served → Type 0
IsDone c db tenant request served =
    (IsRead request × (served.0 ≡ db) × (served.2 ≡ []))
    ⊎ IsCall c db tenant request served.0 served.2

-- An error of the tenant's request, which leaves the tables and sends nothing.
abbrev pub HasFailed : Context → Database → Tenant → Request → Served → Type 0
HasFailed c db tenant request served =
    (e : ErrorResponse) × (served ≡ error_response db e) × IsFailure c db tenant request e

abbrev Outcome : Context → Database → Tenant → Request → Served → Type 0
Outcome c db tenant request served =
    HasFailed c db tenant request served ⊎ IsDone c db tenant request served

-- The tenant whose row has the key of the request.
pub record IsAuthenticated (db : Database) (api_key : Option String) (tenant : Tenant)
    : Type 0 where
  pub key : String
  pub given : api_key ≡ some key
  pub row : lookup (λ t. t.id) tenant.id db.tenants ≡ some tenant
  pub same_key : tenant.api_key ≡ key

-- What a request that was not refused did: it was made by the tenant with its key, and it read, or it did the
-- call that it asks for.
pub record IsServed (c : Context) (db : Database) (api_key : Option String) (request : Request)
    (served : Served) : Type 0 where
  pub tenant : Tenant
  pub authenticated : IsAuthenticated db api_key tenant
  pub done : IsDone c db tenant request served
  pub step : (served.0 ≡ db) ⊎ Service db served.0
  pub others : OthersKept tenant.id db served.0

-- What a request without the key of a tenant gets.
abbrev pub IsUnauthenticated : Database → Option String → Served → Type 0
IsUnauthenticated db api_key served =
    (x : Exn) × (get_current_tenant db api_key ≡ raised x)
    × (served ≡ error_response db (handle_error x))

-- A request that was made by the tenant with its key, and was answered with an error.
abbrev pub IsRefused : Context → Database → Option String → Request → Served → Type 0
IsRefused c db api_key request served =
    (tenant : Tenant) × IsAuthenticated db api_key tenant × HasFailed c db tenant request served
