-- ===== src/Api/Refusal.antt =====
-- Requests without a valid API key.
use webhook_delivery_service.Base.{
  ◌≡◌, refl, String, Option, none, some, false, str_eq, any, select-nil,
}
use webhook_delivery_service.Database.{Database}
use webhook_delivery_service.Queries.{get_tenant_by_api_key}
use webhook_delivery_service.Tenants.{get_current_tenant, authenticate_tenant}
use webhook_delivery_service.Api.{Context, Request, error_body, serve, respond}

-- No key, or one that no tenant has.
abbrev pub IsUnknown : Database → Option String → Type 0
IsUnknown db none = Unit
IsUnknown db (some key) = any (λ t. str_eq t.api_key key) db.tenants ≡ false

-- The text of the answer.
abbrev pub refusal : Option String → String
refusal none = "Missing API key."
refusal (some key) = "Invalid API key."

-- The eight requests that are made for a tenant, which read and change its endpoints, post its events, read its
-- deliveries and read the tenant itself, need the API key of a tenant: without one each is answered with 401,
-- whatever it asks for, changes nothing and sends no task.
pub unknown_key_is_refused :
    (c : Context) (db : Database) (api_key : Option String) (request : Request)
    → IsUnknown db api_key
    → serve c db api_key request
      ≡ respond db 401 (error_body (refusal api_key) "AUTHENTICATION_FAILED")
unfolding serve get_current_tenant authenticate_tenant get_tenant_by_api_key
unknown_key_is_refused c db none request h = refl
unknown_key_is_refused c db (some key) request h =
    rw (select-nil (λ t. str_eq t.api_key key) db.tenants h)
