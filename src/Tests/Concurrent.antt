-- ===== src/Tests/Concurrent.antt =====
-- Two workers and the API at the same time.
use webhook_delivery_service.Base.{
  ◌+◌, ◌≤◌, ◌≡◌, refl, true, some, [], ◌∷◌, ◌++◌, All, Distinct, map,
}
use webhook_delivery_service.Models.Json.{Fields}
use webhook_delivery_service.Database.{Database}
use webhook_delivery_service.Database.Valid.{empty}
use webhook_delivery_service.Queries.{
  get_event_for_tenant, list_active_matching_endpoints_for_tenant, get_pending_delivery_for_update,
}
use webhook_delivery_service.Tenants.{create_tenant}
use webhook_delivery_service.Endpoints.{create_endpoint}
use webhook_delivery_service.Events.{ingest_event}
use webhook_delivery_service.Delivery.FanOut.{fan_out_event_deliveries}
use webhook_delivery_service.Delivery.Once.Claim.{lookup_delivery}
use webhook_delivery_service.Delivery.Once.Budget.{attempts_of}
use webhook_delivery_service.System.{
  Steps, tenant_created, endpoint_created, event_ingested, event_fanned_out,
}
use webhook_delivery_service.System.Workers.{
  Workers, Claim, Outcome, Moves, finish, started, then_move, served, claimed, finished, died, here,
}
use webhook_delivery_service.System.Workers.Exclusive.{same_row, IsHeld, workers-IsSound}
use webhook_delivery_service.System.Workers.Posts.{count, workers-posts-le-four}
use webhook_delivery_service.Tests.Fixtures.{acme, shop, order, first_delivery, answers, reading_at}

abbrev with_tables : Database → Workers
with_tables db = record { database = db; held = []; posted = [] }

abbrev stocked : Database
stocked = record {
  tenants = acme ∷ [];
  endpoints = shop ∷ [];
  events = order ∷ [];
  deliveries = first_delivery ∷ [];
}

stocked-Moves : Moves (with_tables stocked)
unfolding create_tenant create_endpoint ingest_event fan_out_event_deliveries get_event_for_tenant
    list_active_matching_endpoints_for_tenant
stocked-Moves =
    then_move
      (then_move
        (then_move
          (then_move started (
            served (
              tenant_created 1 5 "acme-key" "acme-secret" "Acme"
                {db' = record empty { tenants = acme ∷ [] }} {t = acme} refl)))
          (served (
            endpoint_created 10 7 acme
              (record { url = "https://shop.example/hook"; event_types = "order.created" ∷ [] })
              {db' = record empty { tenants = acme ∷ []; endpoints = shop ∷ [] }} {x = shop} refl)))
        (served (
          event_ingested (λ p. p) 20 8 acme
            (record {
              event_type = "order.created";
              payload = Fields.end_fields;
              idempotency_key = some "order-1";
            })
            {db' = record stocked { deliveries = [] }} refl)))
      (served (event_fanned_out (λ n. 30 + n) 9 20 1 {db' = stocked} refl))

abbrev claim : Claim
claim = record { row = first_delivery; tenant_id = 1; claim_now = 100 }

abbrev accepted : Outcome
accepted = record {
  client = answers 200;
  hmac = λ secret body. "digest";
  reading = reading_at 101;
  commits = true;
}

abbrev done : Workers
done = record {
  database = (finish accepted stocked claim).database;
  held = [];
  posted = map (λ _. 30) (finish accepted stocked claim).posted ++ [];
}

-- A first worker dies while it holds the row, a second one claims it again and posts.
done-Moves : Moves done
unfolding get_pending_delivery_for_update
done-Moves =
    then_move
      (then_move
        (then_move (then_move stocked-Moves (claimed 90 30 1 {d = first_delivery} refl))
          (died here))
        (claimed 100 30 1 {d = first_delivery} refl))
      (finished accepted here)

workers-IsSound_example :
    Distinct same_row done.held × All (IsHeld done.database) done.held × Steps empty done.database
workers-IsSound_example = workers-IsSound done-Moves

workers-posts-le-four_example :
    (count 30 done.posted ≡ attempts_of (lookup_delivery 30 done.database))
    × (count 30 done.posted ≤ 4)
unfolding done-Moves stocked-Moves
workers-posts-le-four_example =
    workers-posts-le-four 30 done-Moves ((((((((tt, tt), tt), tt), tt), tt), tt), tt), refl)
