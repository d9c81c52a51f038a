-- ===== src/System/Broker.antt =====
-- The tables with the queue of the Celery tasks of app/tasks/events.py. Tasks are acknowledged late: a task
-- stays in the queue while it runs and after a crash, and leaves it at any later time, or is lost.
pub mod Runs
pub mod Sent
pub mod Known
use webhook_delivery_service.Base.{ℕ, String, Option, List, [], ◌∷◌, ◌++◌, ◌≡◌}
use webhook_delivery_service.Models.{Uuid, Datetime, Tenant}
use webhook_delivery_service.Models.Json.{Fields}
use webhook_delivery_service.Errors.{ok}
use webhook_delivery_service.Tasks.{Task, Queue, deliver_event, deliver_to_endpoint}
use webhook_delivery_service.Database.{Database}
use webhook_delivery_service.Database.Valid.{empty}
use webhook_delivery_service.Events.{EventCreate, EventInsertResult, ingest_event}
use webhook_delivery_service.Delivery.FanOut.{fan_out_event_deliveries}
use webhook_delivery_service.Delivery.Once.{Surroundings, deliver_to_endpoint_once}
use webhook_delivery_service.Delivery.Recovery.{send_stuck_deliveries}
use webhook_delivery_service.System.{Service}

pub record Broker : Type 0 where
  pub database : Database
  pub queue : List Task

-- A task of the queue, and the queue without it.
pub data Queued : List Task → Task → List Task → Type 0 where
  first : {t : Task} {ts : List Task} → Queued (t ∷ ts) t ts
  later : {x t : Task} {ts rest : List Task} → Queued ts t rest → Queued (x ∷ ts) t (x ∷ rest)

pub data Tick (b : Broker) : Broker → Type 0 where
  -- A call that sends no task, or one that crashes before it sends it.
  serves : {db' : Database} → Service b.database db' → Tick b (record b { database = db' })
  ingests :
      (jsonb : Fields → Fields) (id : Uuid) (now : Datetime) (tenant : Tenant) (e : EventCreate)
      {db' : Database} {r : EventInsertResult} {tasks : List Task}
      → ingest_event jsonb id now b.database tenant e ≡ ok (db', r, tasks)
      → Tick b (record { database = db'; queue = tasks ++ b.queue })
  -- `deliver_event`
  fans_out :
      (ids : ℕ → Uuid) (now : Datetime) {event_id tenant_id : Uuid} {key : Option String}
      {q : Queue} {rest : List Task} {db' : Database} {tasks : List Task}
      → Queued b.queue (deliver_event event_id tenant_id key q) rest
      → fan_out_event_deliveries ids now b.database event_id tenant_id ≡ ok (db', tasks)
      → Tick b (record { database = db'; queue = tasks ++ b.queue })
  -- `deliver_to_endpoint`
  delivers :
      (s : Surroundings) {id tenant_id : Uuid} {q : Queue} {countdown : Option ℕ} {rest : List Task}
      → Queued b.queue (deliver_to_endpoint id tenant_id q countdown) rest
      → Tick b (record {
        database = (deliver_to_endpoint_once s b.database id tenant_id).database;
        queue = (deliver_to_endpoint_once s b.database id tenant_id).dispatched ++ b.queue;
      })
  -- `recover_stuck_deliveries`
  recovers :
      (now : Datetime) (batch_size : ℕ)
      → Tick b (record b { queue = (send_stuck_deliveries now batch_size b.database).0 ++ b.queue })
  leaves :
      {t : Task} {rest : List Task} → Queued b.queue t rest → Tick b (record b { queue = rest })

pub data Ticks : Broker → Type 0 where
  booted : Ticks (record { database = empty; queue = [] })
  then_tick : {b b' : Broker} → Ticks b → Tick b b' → Ticks b'
