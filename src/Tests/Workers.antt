-- ===== src/Tests/Workers.antt =====
-- The worker on the event of the small database.
use webhook_delivery_service.Base.{◌≡◌, ℕ, ◌+◌, refl, some, [], ◌∷◌, arith}
use webhook_delivery_service.Tasks.{deliver_event, default_queue}
use webhook_delivery_service.Queries.{
  get_event_for_tenant, get_tenant_by_id, list_active_matching_endpoints_for_tenant,
}
use webhook_delivery_service.Delivery.FanOut.{fan_out_event_deliveries}
use webhook_delivery_service.Database.{insert_delivery}
use webhook_delivery_service.Worker.{Turn, drain}
use webhook_delivery_service.Worker.Visit.{IsWilling}
use webhook_delivery_service.Worker.EndToEnd.{ReachesAll, event-ReachesAll}
use webhook_delivery_service.Delivery.Recovery.{send_stuck_deliveries}
use webhook_delivery_service.Worker.Recovery.{IsRecovered, backlog-IsRecovered}
use webhook_delivery_service.Worker.Stops.{worker_stops}
use webhook_delivery_service.Tests.Batches.{with_rows, waiting, waiting-IsValid}
use webhook_delivery_service.Tests.Fixtures.{acme, shop, order, small_db, small_db-IsValid, meets}

abbrev turn : ℕ → Turn
turn i = record { surroundings = meets 200 (100 + i); ids = λ n. 40 + n; now = 90 }

turn-IsWilling : (i : ℕ) → IsWilling (λ secret body. "digest") (turn i).surroundings
turn-IsWilling i = record {
  accepts = λ r. record { code = 200; body = "body"; answer = refl; accepted = refl };
  commits = refl;
  unlocked = refl;
  same_hmac = refl;
}

event-ReachesAll_example :
    ReachesAll
      (λ secret body. "digest")
      order
      acme
      20
      (shop ∷ [])
      (drain turn 2 0 small_db (deliver_event 20 1 (some "order-1") default_queue ∷ []))
unfolding get_event_for_tenant get_tenant_by_id list_active_matching_endpoints_for_tenant
    fan_out_event_deliveries insert_delivery
event-ReachesAll_example =
    event-ReachesAll turn (λ secret body. "digest") small_db 20 1 (some "order-1") default_queue
      {event = order} {tenant = acme} small_db-IsValid refl refl refl turn-IsWilling 1 (omega arith)

-- A delivery that waits for its first retry, whose task is lost.
backlog-IsRecovered_example : IsRecovered (with_rows (waiting ∷ [])) (waiting ∷ []) (
    drain turn 1 0
      (with_rows (waiting ∷ []))
      (send_stuck_deliveries 70 1000 (with_rows (waiting ∷ []))).0)
backlog-IsRecovered_example =
    backlog-IsRecovered (λ secret body. "digest") turn (with_rows (waiting ∷ [])) 70 1000 1
      waiting-IsValid (omega arith) turn-IsWilling (λ i. omega arith) (omega arith)

-- An event at endpoints that always fail: its task, and four for the one endpoint.
worker_stops_example :
    (drain
      (λ i. record (turn i) { surroundings = meets 500 100 })
      8
      0
      small_db
      (deliver_event 20 1 (some "order-1") default_queue ∷ [])).queue
    ≡ []
worker_stops_example =
    worker_stops (λ i. record (turn i) { surroundings = meets 500 100 }) (λ i. refl) 8 0 small_db
      (deliver_event 20 1 (some "order-1") default_queue ∷ []) small_db-IsValid (omega arith)
