-- ===== src/Api/Calls.antt =====
-- The calls that the routes make for a tenant, and how they fail.
use webhook_delivery_service.Base.{String, ℕ, Option, leb, ◌&&◌, ◌≡◌, false, List, []}
use webhook_delivery_service.Models.{Uuid, Tenant, Endpoint}
use webhook_delivery_service.Errors.{Exn, ErrorResponse, handle_error, raised, ok}
use webhook_delivery_service.Tasks.{Task}
use webhook_delivery_service.Database.{Database}
use webhook_delivery_service.Endpoints.{
  is_update, EndpointCreate, EndpointUpdate, create_endpoint, update_endpoint, delete_endpoint,
}
use webhook_delivery_service.Delivery.Log.{list_delivery_logs, get_delivery_log}
use webhook_delivery_service.Events.{
  is_well_formed, validate_event_create_payload, EventCreate, EventInsertResult, ingest_event,
}
use webhook_delivery_service.System.{
  Service, endpoint_created, endpoint_updated, endpoint_deleted, event_ingested,
}
use webhook_delivery_service.Api.{
  Context, Request, post_endpoint, patch_endpoint, remove_endpoint, post_event, get_deliveries,
  get_delivery,
}

-- The call of a service that a request asks for, for a tenant, with the ids and the content of the request,
-- and the tasks that it sends. A request that only reads has none.
pub data IsCall (c : Context) (db : Database) (tenant : Tenant)
    : Request → Database → List Task → Type 0 where
  creates :
      (payload : EndpointCreate) {db' : Database} {x : Endpoint}
      → create_endpoint c.new_id c.now db tenant payload ≡ ok (db', x)
      → IsCall c db tenant (post_endpoint payload) db' []
  updates :
      (id : Uuid) (payload : EndpointUpdate) {db' : Database} {x : Endpoint}
      → update_endpoint db tenant id payload ≡ ok (db', x)
      → IsCall c db tenant (patch_endpoint id payload) db' []
  deletes :
      (id : Uuid) {db' : Database}
      → delete_endpoint db tenant id ≡ ok db'
      → IsCall c db tenant (remove_endpoint id) db' []
  ingests :
      (payload : EventCreate) {db' : Database} {r : EventInsertResult} {tasks : List Task}
      → ingest_event c.jsonb c.new_id c.now db tenant payload ≡ ok (db', r, tasks)
      → IsCall c db tenant (post_event payload) db' tasks

abbrev pub validation_error : Context → ErrorResponse
validation_error c = record { status_code = 422; error = c.explain; code = "VALIDATION_ERROR" }

-- Why a request of a tenant is answered with an error: its content is not valid, or the call raises.
pub data IsFailure (c : Context) (db : Database) (tenant : Tenant)
    : Request → ErrorResponse → Type 0 where
  create_fails :
      (payload : EndpointCreate) {x : Exn}
      → create_endpoint c.new_id c.now db tenant payload ≡ raised x
      → IsFailure c db tenant (post_endpoint payload) (handle_error x)
  update_invalid :
      (id : Uuid) (payload : EndpointUpdate)
      → is_update payload ≡ false
      → IsFailure c db tenant (patch_endpoint id payload) (validation_error c)
  update_fails :
      (id : Uuid) (payload : EndpointUpdate) {x : Exn}
      → update_endpoint db tenant id payload ≡ raised x
      → IsFailure c db tenant (patch_endpoint id payload) (handle_error x)
  delete_fails :
      (id : Uuid) {x : Exn}
      → delete_endpoint db tenant id ≡ raised x
      → IsFailure c db tenant (remove_endpoint id) (handle_error x)
  event_invalid :
      (payload : EventCreate)
      → is_well_formed payload ≡ false
      → IsFailure c db tenant (post_event payload) (validation_error c)
  event_refused :
      (payload : EventCreate) {x : Exn}
      → validate_event_create_payload payload ≡ raised x
      → IsFailure c db tenant (post_event payload) (handle_error x)
  ingest_fails :
      (payload : EventCreate) {x : Exn}
      → ingest_event c.jsonb c.new_id c.now db tenant payload ≡ raised x
      → IsFailure c db tenant (post_event payload) (handle_error x)
  page_invalid :
      (status : Option String) (endpoint_id : Option Uuid) (cursor : Option String) (limit : ℕ)
      → (leb 1 limit && leb limit 100) ≡ false
      → IsFailure c db tenant (get_deliveries status endpoint_id cursor limit) (validation_error c)
  page_fails :
      (status : Option String) (endpoint_id : Option Uuid) (cursor : Option String) (limit : ℕ)
      {x : Exn}
      → list_delivery_logs c.codec db tenant status endpoint_id cursor limit ≡ raised x
      → IsFailure c db tenant (get_deliveries status endpoint_id cursor limit) (handle_error x)
  delivery_fails :
      (id : Uuid) {x : Exn}
      → get_delivery_log db tenant id ≡ raised x
      → IsFailure c db tenant (get_delivery id) (handle_error x)

pub IsCall-Service :
    {c : Context} {db : Database} {tenant : Tenant} {request : Request} {db' : Database}
    {tasks : List Task}
    → IsCall c db tenant request db' tasks
    → Service db db'
IsCall-Service {c = c} {tenant = tenant} (creates payload h) =
    endpoint_created c.new_id c.now tenant payload h
IsCall-Service {tenant = tenant} (updates id payload h) = endpoint_updated tenant id payload h
IsCall-Service {tenant = tenant} (deletes id h) = endpoint_deleted tenant id h
IsCall-Service {c = c} {tenant = tenant} (ingests payload h) =
    event_ingested c.jsonb c.new_id c.now tenant payload h
