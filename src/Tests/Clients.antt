-- ===== src/Tests/Clients.antt =====
-- The load test against the small database.
use webhook_delivery_service.Base.{
  ◌+◌, ◌∷◌, ◌*◌, ◌≡◌, refl, some, [], length, select, ◌==◌, ◌&&◌, arith,
}
use webhook_delivery_service.Models.{Status}
use webhook_delivery_service.Errors.{ok}
use webhook_delivery_service.Queries.{
  get_event_for_tenant, list_active_matching_endpoints_for_tenant, get_tenant_by_api_key,
}
use webhook_delivery_service.Tenants.{get_current_tenant}
use webhook_delivery_service.LoadTest.{
  Counter, ended, count_matching_endpoints, fetch_delivery_status_counts, wait_for_deliveries,
}
use webhook_delivery_service.LoadTest.Counts.{is_counted, fetch_counts_all}
use webhook_delivery_service.LoadTest.Expected.{count_is_fan_out}
use webhook_delivery_service.LoadTest.Waiting.{HasEnded, wait_ends}
use webhook_delivery_service.Tests.Fixtures.{acme, order, small_db, small_db-IsValid}
use webhook_delivery_service.Tests.Batches.{once_more, task_of}
use webhook_delivery_service.Delivery.FanOut.{fan_out_event_deliveries}
use webhook_delivery_service.Tests.Routes.{context}

acme_is_known : get_current_tenant small_db (some "acme-key") ≡ ok acme
unfolding get_current_tenant get_tenant_by_api_key
acme_is_known = refl

fetch_counts_all_example :
    (counts : Counter) × (fetch_delivery_status_counts context small_db "acme-key" (20 ∷ [])
      ≡ some (ended counts))
    × ((st : Status)
        → counts st
          ≡ length
              (select (λ d. d.tenant_id == 1 && is_counted (20 ∷ []) st d) small_db.deliveries))
fetch_counts_all_example =
    fetch_counts_all context small_db "acme-key" (20 ∷ []) acme acme_is_known small_db-IsValid

count_is_fan_out_example :
    (count_matching_endpoints context small_db "acme-key" "order.created" ≡ ended 1)
    × (length once_more.deliveries ≡ 1 + length small_db.deliveries)
unfolding fan_out_event_deliveries get_event_for_tenant list_active_matching_endpoints_for_tenant
count_is_fan_out_example =
    count_is_fan_out context small_db "acme-key" acme (λ n. 40 + n) 50 20 {event = order}
      {db' = once_more} {tasks = task_of 40 ∷ []} acme_is_known refl refl

wait_ends_example :
    HasEnded context "acme-key"
      (20 ∷ [])
      acme
      1
      60000
      1000
      (λ i. small_db)
      (λ i. i * 1000)
      60
      (wait_for_deliveries context "acme-key"
        (20 ∷ [])
        1
        60000
        (λ i. small_db)
        (λ i. i * 1000)
        61
        0)
wait_ends_example =
    wait_ends context "acme-key" (20 ∷ []) acme 1 60000 1000 (λ i. small_db) (λ i. i * 1000)
      (λ i. small_db-IsValid) (λ i. acme_is_known) (λ i. omega arith) 60 (omega arith)
