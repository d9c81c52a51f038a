-- ===== src/Events.antt =====
-- app/schemas/event.py, app/queries/event.py and app/services/event.py: validation of an event, the
-- idempotent insert, and ingestion.
pub mod Idempotency
pub mod Conflict
use webhook_delivery_service.Base.{
  ℕ, ◌*◌, String, Bool, true, false, Option, none, some, List, [], ◌∷◌, ◌&&◌, not, any, select,
  scalar_one_or_none, length, ltb, leb, ◌==◌, if◌then◌else◌,
}
use webhook_delivery_service.Models.{Uuid, Datetime, Tenant, Event}
use webhook_delivery_service.Models.Json.{Fields, payload_bytes, codes}
use webhook_delivery_service.Errors.{
  Result, ok, raised, ◌>>=◌, app_error, bad_request_error, runtime_error,
}
use webhook_delivery_service.Tasks.{Task, deliver_event, default_queue}
use webhook_delivery_service.Database.{Database, insert_event, key_clash, same_key}

abbrev pub max_event_payload_bytes : ℕ
max_event_payload_bytes = 256 * 1024

pub record EventCreate : Type 0 where
  pub event_type : String
  pub payload : Fields
  pub idempotency_key : Option String

-- `Field(min_length=1, max_length=255)`
abbrev pub has_length : String → Bool
has_length s = leb 1 (length (codes s)) && leb (length (codes s)) 255

abbrev pub key_has_length : Option String → Bool
key_has_length none = true
key_has_length (some k) = has_length k

-- The constraints of the model, as `model_validate` checks them.
abbrev pub is_well_formed : EventCreate → Bool
is_well_formed e = has_length e.event_type && key_has_length e.idempotency_key

unfoldable pub validate_event_create_payload : EventCreate → Result EventCreate
unfolding payload_bytes
validate_event_create_payload e =
    if not (is_well_formed e)
    then raised (app_error (bad_request_error "Invalid event payload." "INVALID_EVENT_PAYLOAD"))
    else if ltb max_event_payload_bytes (length (payload_bytes e.payload))
    then raised (
        app_error
          (bad_request_error "Event payload must be 256KB or smaller." "EVENT_PAYLOAD_TOO_LARGE"))
    else ok e

pub record EventInsertResult : Type 0 where
  pub event_id : Uuid
  pub created : Bool

-- The row of an INSERT. `jsonb` is how Postgres stores a payload.
abbrev pub new_event : (Fields → Fields) → Uuid → Datetime → Uuid → EventCreate → Event
new_event jsonb id now tenant_id e = record {
  id = id;
  tenant_id = tenant_id;
  event_type = e.event_type;
  payload = jsonb e.payload;
  idempotency_key = e.idempotency_key;
  received_at = now;
}

abbrev pub inserted : Uuid → Result Database → Result (Database × EventInsertResult)
inserted id r = do db ← r; ok (db, record { event_id = id; created = true })

-- `SELECT id FROM event WHERE tenant_id = … AND idempotency_key = …`
unfoldable pub find_event_by_key : Database → Uuid → Option String → Option Event
find_event_by_key db tenant_id key =
    scalar_one_or_none
      (select (λ e. e.tenant_id == tenant_id && same_key e.idempotency_key key) db.events)

abbrev pub existing : Database → Option Event → Result (Database × EventInsertResult)
existing db none =
    raised (runtime_error "Idempotent event insert conflicted but no event was found.")
existing db (some e) = ok (db, record { event_id = e.id; created = false })

-- ON CONFLICT (tenant_id, idempotency_key) DO NOTHING, and the SELECT of what was there. The values are those
-- that Postgres can store: it would refuse any other before it looks for a conflict.
abbrev pub insert_on_conflict : Event → Database → Result (Database × EventInsertResult)
insert_on_conflict e db =
    if any (key_clash e) db.events
    then existing db (find_event_by_key db e.tenant_id e.idempotency_key)
    else inserted e.id (insert_event e db)

abbrev pub insert_by_key : Option String → Event → Database → Result (Database × EventInsertResult)
insert_by_key none e db = inserted e.id (insert_event e db)
insert_by_key (some key) e db = insert_on_conflict e db

unfoldable pub insert_event_idempotently_for_tenant :
    (Fields → Fields)
    → Uuid
    → Datetime
    → Database
    → Uuid
    → EventCreate
    → Result (Database × EventInsertResult)
unfolding insert_event find_event_by_key
insert_event_idempotently_for_tenant jsonb id now db tenant_id event_in =
    insert_by_key event_in.idempotency_key (new_event jsonb id now tenant_id event_in) db

-- A task goes out only for the request that created the event.
abbrev pub ingest_tasks : Uuid → Option String → EventInsertResult → List Task
ingest_tasks tenant_id key r =
    if r.created then deliver_event r.event_id tenant_id key default_queue ∷ [] else []

unfoldable pub ingest_event :
    (Fields → Fields)
    → Uuid
    → Datetime
    → Database
    → Tenant
    → EventCreate
    → Result (Database × EventInsertResult × List Task)
unfolding insert_event_idempotently_for_tenant
ingest_event jsonb id now db tenant event_in = do
  (db', r) ← insert_event_idempotently_for_tenant jsonb id now db tenant.id event_in
  ok (db', r, ingest_tasks tenant.id event_in.idempotency_key r)
