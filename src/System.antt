-- ===== src/System.antt =====
-- The whole service as a transition system: each step is one call of a service function that commits.
-- A worker step runs one delivery task; what it meets (the client, the locks, the clocks) is free.
pub mod Reachable
pub mod Rows
pub mod Broker
pub mod Deleted
pub mod Gone
pub mod Workers
use webhook_delivery_service.Base.{ℕ, ◌≡◌, String, List}
use webhook_delivery_service.Models.{Uuid, Datetime, Tenant, Endpoint}
use webhook_delivery_service.Models.Json.{Fields}
use webhook_delivery_service.Errors.{ok}
use webhook_delivery_service.Tasks.{Task}
use webhook_delivery_service.Database.{Database}
use webhook_delivery_service.Tenants.{create_tenant}
use webhook_delivery_service.Endpoints.{
  EndpointCreate, EndpointUpdate, create_endpoint, update_endpoint, delete_endpoint,
}
use webhook_delivery_service.Events.{EventCreate, EventInsertResult, ingest_event}
use webhook_delivery_service.Delivery.FanOut.{fan_out_event_deliveries}
use webhook_delivery_service.Delivery.Once.{Surroundings, deliver_to_endpoint_once}

-- The calls of the service functions and the fan-out task, more than the program makes: the tenant and the ids
-- are free here. Api/Effects says which of them a request makes, and for whom.
pub data Service (db : Database) : Database → Type 0 where
  tenant_created :
      (id : Uuid) (now : Datetime) (api_key signing_secret name : String) {db' : Database}
      {t : Tenant}
      → create_tenant id now api_key signing_secret db name ≡ ok (db', t)
      → Service db db'
  endpoint_created :
      (id : Uuid) (now : Datetime) (tenant : Tenant) (e : EndpointCreate) {db' : Database}
      {x : Endpoint}
      → create_endpoint id now db tenant e ≡ ok (db', x)
      → Service db db'
  endpoint_updated :
      (tenant : Tenant) (id : Uuid) (u : EndpointUpdate) {db' : Database} {x : Endpoint}
      → update_endpoint db tenant id u ≡ ok (db', x)
      → Service db db'
  endpoint_deleted :
      (tenant : Tenant) (id : Uuid) {db' : Database}
      → delete_endpoint db tenant id ≡ ok db'
      → Service db db'
  event_ingested :
      (jsonb : Fields → Fields) (id : Uuid) (now : Datetime) (tenant : Tenant) (e : EventCreate)
      {db' : Database} {r : EventInsertResult} {tasks : List Task}
      → ingest_event jsonb id now db tenant e ≡ ok (db', r, tasks)
      → Service db db'
  event_fanned_out :
      (ids : ℕ → Uuid) (now : Datetime) (event_id tenant_id : Uuid) {db' : Database}
      {tasks : List Task}
      → fan_out_event_deliveries ids now db event_id tenant_id ≡ ok (db', tasks)
      → Service db db'

-- A step is one of them, or a delivery task from its claim to its end.
pub data Step (db : Database) : Database → Type 0 where
  served : {db' : Database} → Service db db' → Step db db'
  delivery_run :
      (s : Surroundings) (id tenant_id : Uuid)
      → Step db (deliver_to_endpoint_once s db id tenant_id).database

pub data Steps (db : Database) : Database → Type 0 where
  start : Steps db db
  then_step : {db1 db2 : Database} → Steps db db1 → Step db1 db2 → Steps db db2
