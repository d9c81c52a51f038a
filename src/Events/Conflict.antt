-- ===== src/Events/Conflict.antt =====
-- The RuntimeError of `insert_event_idempotently_for_tenant`.
use webhook_delivery_service.Base.{
  ◌≡◌, ◌≢◌, ◌⊎◌, sym, ◌∙◌, true, false, none, List, arith, any, Bool-cases, Option-cases, inl, inr,
  String,
}
use webhook_delivery_service.Models.{Uuid, Datetime, Tenant, Event}
use webhook_delivery_service.Models.Json.{Fields}
use webhook_delivery_service.Errors.{Exn, Result, ok, raised, runtime_error, ◌>>=◌}
use webhook_delivery_service.Tasks.{Task}
use webhook_delivery_service.Database.{Database, insert_event, key_clash}
use webhook_delivery_service.Events.{EventCreate, EventInsertResult, new_event, ingest_event}
use webhook_delivery_service.Events.Idempotency.{
  clash-found, find_lem, ingest_free, ingest_duplicate, created_tasks,
}

insert_event-not_runtime :
    (x : Event) (db : Database) (m : String) → insert_event x db ≢ raised (runtime_error m)
unfolding insert_event
insert_event-not_runtime x db m = ground arith

bind_raised :
    (r : Result Database) (f : Database → Database × EventInsertResult × List Task) {x : Exn}
    → (r >>= λ db. ok (f db)) ≡ raised x
    → r ≡ raised x
bind_raised (ok db) f h = cc
bind_raised (raised y) f h = cc

-- The `RuntimeError` of a conflict without an event is never raised where the INSERT and the SELECT see
-- the same table.
pub ingest-not_runtime :
    (jsonb : Fields → Fields) (id : Uuid) (now : Datetime) (db : Database) (tenant : Tenant)
    (event_in : EventCreate) (m : String)
    → ingest_event jsonb id now db tenant event_in ≢ raised (runtime_error m)
ingest-not_runtime jsonb id now db tenant event_in m e =
    elim (Option-cases event_in.idempotency_key) [
      | inl none_given ↦ of_free (inl none_given)
      | inr (k, key) ↦ elim (Bool-cases (any (key_clash x) db.events)) [
        | inl clash ↦
            let (y, found) = clash-found x db.events clash in
            cc (ingest_duplicate jsonb id now db tenant event_in k y key (find_lem x db found), e)
        | inr free ↦ of_free (inr free)
      ]
    ]
  where
    x : Event
    x = new_event jsonb id now tenant.id event_in

    of_free : (event_in.idempotency_key ≡ none) ⊎ (any (key_clash x) db.events ≡ false) → ⊥
    of_free free = insert_event-not_runtime x db m (
        bind_raised (insert_event x db)
          (λ d. (d, record { event_id = id; created = true }, created_tasks id tenant event_in))
          (sym (ingest_free jsonb id now db tenant event_in free) ∙ e))
