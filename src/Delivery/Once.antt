-- ===== src/Delivery/Once.antt =====
-- `deliver_to_endpoint_once`: claim a due pending row, look up what it needs, attempt it, commit.
-- The state comes back with what was posted and dispatched, which no rollback undoes.
pub mod Claim
pub mod Isolation
pub mod Retry
pub mod Ending
pub mod Cases
pub mod Budget
pub mod Commit
pub mod Guards
pub mod Invariant
use webhook_delivery_service.Base.{String, Bool, Option, none, some, List, [], ◌∷◌, if◌then◌else◌}
use webhook_delivery_service.Models.{Uuid, Datetime, Tenant, Endpoint, Event, Delivery, failed}
use webhook_delivery_service.Tasks.{Task}
use webhook_delivery_service.Database.{Database, update_delivery}
use webhook_delivery_service.Queries.{
  get_pending_delivery_for_update, get_active_endpoint_for_tenant, get_event_for_tenant,
  get_tenant_by_id,
}
use webhook_delivery_service.Delivery.Attempt.{
  HttpRequest, Client, Hmac, Reading, build_request, post_and_record,
}

-- What the handler reads from outside. `commits` is false if `session.commit()` raises, after which
-- the transaction is rolled back.
pub record Surroundings : Type 0 where
  pub client : Client
  pub hmac : Hmac
  pub locked : List Uuid
  pub claim_now : Datetime
  pub reading : Reading
  pub commits : Bool

pub record Run : Type 0 where
  pub database : Database
  pub posted : List HttpRequest
  pub dispatched : List Task

-- `session.commit()` of a changed row, whose `updated_at` has `onupdate=func.now()`.
unfoldable pub commit_delivery : Surroundings → Database → Delivery → Database
unfolding update_delivery
commit_delivery s db d =
    if s.commits then update_delivery (record d { updated_at = s.reading.db_now }) db else db

abbrev pub given_up : String → Delivery → Delivery
given_up message d = record d { status = failed; response_body = some message }

abbrev pub give_up : Surroundings → Database → String → Delivery → Run
give_up s db message d = record {
  database = commit_delivery s db (given_up message d);
  posted = [];
  dispatched = [];
}

abbrev pub attempt : Surroundings → Database → Uuid → Delivery → Endpoint → Event → Tenant → Run
attempt s db tenant_id d endpoint event tenant =
    let request = build_request s.hmac tenant.signing_secret endpoint event in
    let (d', tasks) = post_and_record s.client s.reading request tenant_id d in
    record { database = commit_delivery s db d'; posted = request ∷ []; dispatched = tasks }

abbrev pub with_tenant :
    Surroundings → Database → Uuid → Delivery → Endpoint → Event → Option Tenant → Run
with_tenant s db tenant_id d endpoint event none = give_up s db "Tenant not found" d
with_tenant s db tenant_id d endpoint event (some tenant) =
    attempt s db tenant_id d endpoint event tenant

abbrev pub with_records :
    Surroundings → Database → Uuid → Delivery → Option Endpoint → Option Event → Run
with_records s db tenant_id d (some endpoint) (some event) =
    with_tenant s db tenant_id d endpoint event (get_tenant_by_id db tenant_id)
with_records s db tenant_id d _ _ = give_up s db "Endpoint or event not found" d

-- What follows the claim, while the row is locked.
unfoldable pub process : Surroundings → Database → Uuid → Delivery → Run
unfolding commit_delivery build_request post_and_record
process s db tenant_id d =
    with_records s db tenant_id d (get_active_endpoint_for_tenant db d.endpoint_id tenant_id)
      (get_event_for_tenant db d.event_id tenant_id)

abbrev pub idle_run : Database → Run
idle_run db = record { database = db; posted = []; dispatched = [] }

abbrev pub run_claimed : Surroundings → Database → Uuid → Option Delivery → Run
run_claimed s db tenant_id none = idle_run db
run_claimed s db tenant_id (some d) = process s db tenant_id d

unfoldable pub deliver_to_endpoint_once : Surroundings → Database → Uuid → Uuid → Run
unfolding process
deliver_to_endpoint_once s db delivery_id tenant_id =
    run_claimed s db tenant_id
      (get_pending_delivery_for_update s.locked s.claim_now db delivery_id tenant_id)
