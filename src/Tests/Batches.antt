-- ===== src/Tests/Batches.antt =====
-- The fan-out and the recovery task on the small database.
use webhook_delivery_service.Base.{
  ◌+◌, ◌≡◌, refl, false, none, some, List, [], ◌∷◌, arith, any, ◌==◌,
}
use webhook_delivery_service.Models.{Uuid, Delivery, new_delivery}
use webhook_delivery_service.Tasks.{Task, deliver_to_endpoint, delivery_queue}
use webhook_delivery_service.Database.{Database}
use webhook_delivery_service.Database.Valid.{IsValid}
use webhook_delivery_service.Queries.{
  get_event_for_tenant, list_active_matching_endpoints_for_tenant, list_due_pending_deliveries,
}
use webhook_delivery_service.Delivery.FanOut.{fan_out_event_deliveries}
use webhook_delivery_service.Delivery.FanOut.Batch.{
  IsBatch, IsDoubled, fan_out-IsBatch, fan_out_twice,
}
use webhook_delivery_service.Delivery.Recovery.Due.{unscheduled_is_missed}
use webhook_delivery_service.Tests.Fixtures.{order, small_db, small_db-IsValid, first_delivery}

abbrev pub with_rows : List Delivery → Database
with_rows ds = record small_db { deliveries = ds }

abbrev pub task_of : Uuid → Task
task_of id = deliver_to_endpoint id 1 delivery_queue none

abbrev pub once_more : Database
once_more = with_rows (new_delivery 40 50 20 10 1 ∷ first_delivery ∷ [])

abbrev twice_more : Database
twice_more =
    with_rows (new_delivery 41 51 20 10 1 ∷ new_delivery 40 50 20 10 1 ∷ first_delivery ∷ [])

fan_out-IsBatch_example : IsBatch 20 1 order small_db once_more (task_of 40 ∷ [])
unfolding fan_out_event_deliveries get_event_for_tenant list_active_matching_endpoints_for_tenant
fan_out-IsBatch_example =
    fan_out-IsBatch (λ n. 40 + n) 50 small_db 20 1 {db' = once_more} {tasks = task_of 40 ∷ []}
      {event = order} refl refl

fan_out_twice_example : IsDoubled 20 1 order small_db twice_more (task_of 41 ∷ [])
unfolding fan_out_event_deliveries get_event_for_tenant list_active_matching_endpoints_for_tenant
fan_out_twice_example =
    fan_out_twice (λ n. 40 + n) (λ n. 41 + n) 50 51 small_db 20 1 {db1 = once_more}
      {db2 = twice_more} {tasks1 = task_of 40 ∷ []} {tasks2 = task_of 41 ∷ []} {event = order} refl
      refl refl

-- A database whose one delivery waits for its first retry.
abbrev pub waiting : Delivery
waiting = record first_delivery {
  attempt_number = 1;
  next_retry_at = some 60;
  http_status_code = some 500;
}

pub waiting-IsValid : IsValid (with_rows (waiting ∷ []))
waiting-IsValid = record {
  tenants_distinct = (refl, (refl, tt));
  endpoints_distinct = (refl, tt);
  events_distinct = (refl, tt);
  deliveries_distinct = (refl, tt);
  endpoints_owned = (refl, tt);
  events_owned = (refl, tt);
  deliveries_owned = (
    record {
      event = refl;
      endpoint = refl;
      row = record { lifecycle = (omega arith, omega arith); short = tt };
    },
    tt,
  );
}

unscheduled_is_missed_example :
    any (λ x. x.id == 30) (list_due_pending_deliveries small_db 1000000 1000) ≡ false
unscheduled_is_missed_example =
    unscheduled_is_missed 1000000 1000 small_db small_db-IsValid first_delivery refl refl
