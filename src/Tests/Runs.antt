-- ===== src/Tests/Runs.antt =====
-- Runs of the delivery task, the fan-out and the recovery task on the small database.
use webhook_delivery_service.Base.{◌+◌, ◌≤◌, ◌≡◌, refl, inr, some, List, [], ◌∷◌, arith, All}
use webhook_delivery_service.Models.{Delivery}
use webhook_delivery_service.Tasks.{delivery_queue}
use webhook_delivery_service.Delivery.Once.{deliver_to_endpoint_once, idle_run}
use webhook_delivery_service.Delivery.Once.Claim.{lookup_delivery}
use webhook_delivery_service.Delivery.Once.Guards.{once-IsBlocked, foreign}
use webhook_delivery_service.Delivery.Once.Budget.{
  Job, run_jobs, posts_for, attempts_of, posts-le-four,
}
use webhook_delivery_service.Delivery.Once.Isolation.{IsAuthorized, posted-IsAuthorized}
use webhook_delivery_service.Queries.{
  get_pending_delivery_for_update, get_active_endpoint_for_tenant, get_event_for_tenant,
  get_tenant_by_id,
}
use webhook_delivery_service.Delivery.Once.{Surroundings}
use webhook_delivery_service.Delivery.Once.Ending.{jobs_of, four_runs_finish}
use webhook_delivery_service.Base.{◌≢◌}
use webhook_delivery_service.Models.{pending}
use webhook_delivery_service.Delivery.Once.Retry.{retry_is_claimable}
use webhook_delivery_service.Tests.Fixtures.{small_db, small_db-IsValid, first_delivery, meets}

once-IsBlocked_example : deliver_to_endpoint_once (meets 200 100) small_db 30 2 ≡ idle_run small_db
once-IsBlocked_example =
    once-IsBlocked (meets 200 100) small_db 30 2 small_db-IsValid
      (inr (first_delivery, refl, foreign (λ e. omega arith)))

abbrev failing_jobs : List Job
failing_jobs =
    record { surroundings = meets 503 100; delivery_id = 30; tenant_id = 1 }
    ∷ record { surroundings = meets 200 200; delivery_id = 30; tenant_id = 1 }
    ∷ record { surroundings = meets 200 40000000; delivery_id = 30; tenant_id = 1 }
    ∷ []

posts-le-four_example :
    (attempts_of (lookup_delivery 30 small_db) + posts_for 30 failing_jobs small_db
      ≡ attempts_of (lookup_delivery 30 (run_jobs failing_jobs small_db)))
    × (attempts_of (lookup_delivery 30 small_db) + posts_for 30 failing_jobs small_db ≤ 4)
posts-le-four_example =
    posts-le-four 30 failing_jobs small_db small_db-IsValid (refl, (refl, (refl, tt)))

posted-IsAuthorized_example :
    All
      (IsAuthorized (meets 200 100).hmac small_db 30 1)
      (deliver_to_endpoint_once (meets 200 100) small_db 30 1).posted
posted-IsAuthorized_example = posted-IsAuthorized (meets 200 100) small_db 30 1 small_db-IsValid

retry_is_claimable_example :
    (d : Delivery) × (get_pending_delivery_for_update [] 30000100
        (deliver_to_endpoint_once (meets 503 100) small_db 30 1).database
        30
        1
      ≡ some d)
unfolding deliver_to_endpoint_once get_pending_delivery_for_update get_active_endpoint_for_tenant
    get_event_for_tenant get_tenant_by_id
retry_is_claimable_example =
    retry_is_claimable (meets 503 100) small_db 30 1 delivery_queue 30 [] 30000100 small_db-IsValid
      refl refl refl (omega arith)

abbrev later_runs : List Surroundings
later_runs = meets 503 700000000 ∷ meets 503 1400000000 ∷ meets 503 2100000000 ∷ []

four_runs_finish_example :
    (d : Delivery) × (lookup_delivery 30
        (run_jobs (jobs_of 30 1 (meets 503 100 ∷ later_runs)) small_db)
      ≡ some d)
    × (d.status ≢ pending)
four_runs_finish_example =
    four_runs_finish 30 1 (meets 503 100) later_runs small_db {d = first_delivery} small_db-IsValid
      refl refl
      (
        refl,
        refl,
        omega arith,
        (refl, refl, omega arith, (refl, refl, omega arith, (refl, refl, omega arith, tt))),
      )
      (omega arith)
