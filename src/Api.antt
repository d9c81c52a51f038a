-- ===== src/Api.antt =====
-- The routes of app/api/routes, the response models of app/schemas, and how an error becomes a response.
-- FastAPI is not under verification: it authenticates first (the dependency of each route), then checks
-- the request model, which is answered with 422; `explain` is the text of that answer.
pub mod Refusal
pub mod Effects
pub mod Calls
pub mod Others
pub mod Events
pub mod Isolation
pub mod Cursors
use webhook_delivery_service.Base.{
  ℕ, String, Bool, true, false, Option, none, some, List, [], ◌∷◌, map, ◌&&◌, leb, if◌then◌else◌,
}
use webhook_delivery_service.Models.{Uuid, Datetime, Tenant, Endpoint, Delivery, Status}
use webhook_delivery_service.Models.Json.{Fields}
use webhook_delivery_service.Errors.{Result, ok, raised, ◌>>=◌, Exn, ErrorResponse, handle_error}
use webhook_delivery_service.Tasks.{Task}
use webhook_delivery_service.Database.{Database}
use webhook_delivery_service.Tenants.{create_tenant, get_current_tenant}
use webhook_delivery_service.Endpoints.{
  EndpointCreate, EndpointUpdate, is_update, create_endpoint, list_endpoints, update_endpoint,
  delete_endpoint,
}
use webhook_delivery_service.Events.{
  EventCreate, is_well_formed, validate_event_create_payload, EventInsertResult, ingest_event,
}
use webhook_delivery_service.Delivery.Log.{
  Codec, DeliveryLogPage, list_delivery_logs, get_delivery_log,
}

-- `EndpointCreateResponse`, `EndpointListResponse` and `EndpointUpdateResponse` have the same fields.
pub record EndpointResponse : Type 0 where
  pub id : Uuid
  pub url : String
  pub event_types : List String
  pub is_active : Bool
  pub created_at : Datetime

pub record TenantCreateResponse : Type 0 where
  pub id : Uuid
  pub name : String
  pub api_key : String

pub record TenantGetResponse : Type 0 where
  pub id : Uuid
  pub name : String
  pub signing_secret : String

pub record DeliveryListResponse : Type 0 where
  pub id : Uuid
  pub event_id : Uuid
  pub endpoint_id : Uuid
  pub status : Status
  pub attempt_number : ℕ
  pub next_retry_at : Option Datetime
  pub http_status_code : Option ℕ
  pub latency_ms : Option ℕ
  pub created_at : Datetime
  pub updated_at : Datetime

pub data Body : Type 0 where
  no_body : Body
  error_body : String → String → Body
  endpoint_body : EndpointResponse → Body
  endpoints_body : List EndpointResponse → Body
  tenant_create_body : TenantCreateResponse → Body
  tenant_get_body : TenantGetResponse → Body
  event_body : Uuid → Body
  delivery_page_body : List DeliveryListResponse → Option String → Body
  delivery_body : DeliveryListResponse → Option String → Body

pub record Response : Type 0 where
  pub status_code : ℕ
  pub body : Body

-- `model_validate` with `from_attributes`.
abbrev pub endpoint_response : Endpoint → EndpointResponse
endpoint_response e = record {
  id = e.id;
  url = e.url;
  event_types = e.event_types;
  is_active = e.is_active;
  created_at = e.created_at;
}

abbrev pub delivery_response : Delivery → DeliveryListResponse
delivery_response d = record {
  id = d.id;
  event_id = d.event_id;
  endpoint_id = d.endpoint_id;
  status = d.status;
  attempt_number = d.attempt_number;
  next_retry_at = d.next_retry_at;
  http_status_code = d.http_status_code;
  latency_ms = d.latency_ms;
  created_at = d.created_at;
  updated_at = d.updated_at;
}

-- The tables after a request, its response, and the tasks that it sent.
abbrev pub Served : Type 0
Served = Database × Response × List Task

-- What a request reads from outside: `uuid4`, the clock, `token_hex` twice, JSONB, the 422 text, the
-- text form of cursors.
pub record Context : Type 0 where
  pub new_id : Uuid
  pub now : Datetime
  pub new_api_key : String
  pub new_secret : String
  pub jsonb : Fields → Fields
  pub explain : String
  pub codec : Codec

abbrev pub respond : Database → ℕ → Body → Served
respond db status_code body = (db, record { status_code = status_code; body = body }, [])

-- `handle_validation_error`
abbrev pub unprocessable : Context → Database → Served
unprocessable c db = respond db 422 (error_body c.explain "VALIDATION_ERROR")

abbrev pub error_response : Database → ErrorResponse → Served
error_response db e = respond db e.status_code (error_body e.error e.code)

-- A request that raises leaves the tables as they were: its session is closed without a commit.
unfoldable pub answer : Database → Result Served → Served
unfolding handle_error
answer db (ok served) = served
answer db (raised e) = error_response db (handle_error e)

unfoldable pub list_endpoints_route : Database → Tenant → Result Served
list_endpoints_route db tenant =
    ok (respond db 200 (endpoints_body (map endpoint_response (list_endpoints db tenant))))

unfoldable pub create_endpoint_route : Context → Database → Tenant → EndpointCreate → Result Served
create_endpoint_route c db tenant payload = do
  (db', endpoint) ← create_endpoint c.new_id c.now db tenant payload
  ok (respond db' 201 (endpoint_body (endpoint_response endpoint)))

unfoldable pub update_endpoint_route :
    Context → Database → Tenant → Uuid → EndpointUpdate → Result Served
update_endpoint_route c db tenant endpoint_id payload =
    if is_update payload
    then (do
      (db', endpoint) ← update_endpoint db tenant endpoint_id payload
      ok (respond db' 200 (endpoint_body (endpoint_response endpoint))))
    else ok (unprocessable c db)

unfoldable pub delete_endpoint_route : Database → Tenant → Uuid → Result Served
delete_endpoint_route db tenant endpoint_id = do
  db' ← delete_endpoint db tenant endpoint_id
  ok (respond db' 204 no_body)

-- 202 for a new event, 200 for a duplicate.
abbrev pub event_status : EventInsertResult → ℕ
event_status r = if r.created then 202 else 200

unfoldable pub create_event_route : Context → Database → Tenant → EventCreate → Result Served
create_event_route c db tenant payload =
    if is_well_formed payload
    then (do
      validated_payload ← validate_event_create_payload payload
      (db', r, tasks) ← ingest_event c.jsonb c.new_id c.now db tenant validated_payload
      ok (db', record { status_code = event_status r; body = event_body r.event_id }, tasks))
    else ok (unprocessable c db)

-- `limit` is `Query(ge=1, le=100)`.
unfoldable pub list_deliveries_route :
    Context → Database → Tenant → Option String → Option Uuid → Option String → ℕ → Result Served
list_deliveries_route c db tenant status endpoint_id cursor limit =
    if leb 1 limit && leb limit 100
    then (do
      page ← list_delivery_logs c.codec db tenant status endpoint_id cursor limit
      ok (respond db 200 (delivery_page_body (map delivery_response page.items) page.next_cursor)))
    else ok (unprocessable c db)

unfoldable pub get_delivery_route : Database → Tenant → Uuid → Result Served
get_delivery_route db tenant delivery_id = do
  d ← get_delivery_log db tenant delivery_id
  ok (respond db 200 (delivery_body (delivery_response d) d.response_body))

unfoldable pub get_tenant_me : Database → Tenant → Result Served
get_tenant_me db tenant = ok (
    respond db 200 (
      tenant_get_body
        (record { id = tenant.id; name = tenant.name; signing_secret = tenant.signing_secret })))

-- The requests that need an API key. The creation of a tenant and the health check need none.
pub data Request : Type 0 where
  get_endpoints get_me : Request
  post_endpoint : EndpointCreate → Request
  patch_endpoint : Uuid → EndpointUpdate → Request
  remove_endpoint : Uuid → Request
  post_event : EventCreate → Request
  get_deliveries : Option String → Option Uuid → Option String → ℕ → Request
  get_delivery : Uuid → Request

unfoldable pub route : Context → Database → Tenant → Request → Result Served
unfolding list_endpoints_route create_endpoint_route update_endpoint_route delete_endpoint_route
    create_event_route list_deliveries_route get_delivery_route get_tenant_me
route c db tenant get_endpoints = list_endpoints_route db tenant
route c db tenant get_me = get_tenant_me db tenant
route c db tenant (post_endpoint payload) = create_endpoint_route c db tenant payload
route c db tenant (patch_endpoint id payload) = update_endpoint_route c db tenant id payload
route c db tenant (remove_endpoint id) = delete_endpoint_route db tenant id
route c db tenant (post_event payload) = create_event_route c db tenant payload
route c db tenant (get_deliveries status endpoint_id cursor limit) =
    list_deliveries_route c db tenant status endpoint_id cursor limit
route c db tenant (get_delivery id) = get_delivery_route db tenant id

-- A request with its `X-API-Key` header.
unfoldable pub serve : Context → Database → Option String → Request → Served
unfolding answer route
serve c db api_key request =
    answer db (do tenant ← get_current_tenant db api_key; route c db tenant request)

unfoldable pub create_tenant_route : Context → Database → String → Served
unfolding answer
create_tenant_route c db name = answer db (do
  (db', tenant) ← create_tenant c.new_id c.now c.new_api_key c.new_secret db name
  ok (
      respond db' 201 (
        tenant_create_body
          (record { id = tenant.id; name = tenant.name; api_key = tenant.api_key }))))
