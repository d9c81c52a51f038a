-- ===== src/Tests/Queues.antt =====
-- An event on its way through the queue.
use webhook_delivery_service.Base.{◌+◌, refl, true, some, none, List, [], ◌∷◌, All}
use webhook_delivery_service.Models.Json.{Fields}
use webhook_delivery_service.Tasks.{
  Task, deliver_event, deliver_to_endpoint, default_queue, delivery_queue,
}
use webhook_delivery_service.Database.{Database}
use webhook_delivery_service.Database.Valid.{empty}
use webhook_delivery_service.Queries.{
  get_event_for_tenant, list_active_matching_endpoints_for_tenant,
}
use webhook_delivery_service.Tenants.{create_tenant}
use webhook_delivery_service.Endpoints.{create_endpoint}
use webhook_delivery_service.Events.{ingest_event}
use webhook_delivery_service.Delivery.FanOut.{fan_out_event_deliveries}
use webhook_delivery_service.System.{tenant_created, endpoint_created}
use webhook_delivery_service.System.Broker.{
  first, Ticks, booted, then_tick, serves, ingests, fans_out,
}
use webhook_delivery_service.System.Broker.Runs.{IsKnown}
use webhook_delivery_service.System.Broker.Known.{queued-IsKnown}
use webhook_delivery_service.Tests.Fixtures.{acme, shop, order, first_delivery}

abbrev order_tables : Database
order_tables = record {
  tenants = acme ∷ [];
  endpoints = shop ∷ [];
  events = order ∷ [];
  deliveries = first_delivery ∷ [];
}

abbrev order_queue : List Task
order_queue =
    deliver_to_endpoint 30 1 delivery_queue none
    ∷ deliver_event 20 1 (some "order-1") default_queue
    ∷ []

order_Ticks : Ticks (record { database = order_tables; queue = order_queue })
unfolding create_tenant create_endpoint ingest_event fan_out_event_deliveries get_event_for_tenant
    list_active_matching_endpoints_for_tenant
order_Ticks =
    then_tick
      (then_tick
        (then_tick
          (then_tick booted (
            serves (
              tenant_created 1 5 "acme-key" "acme-secret" "Acme"
                {db' = record empty { tenants = acme ∷ [] }} {t = acme} refl)))
          (serves (
            endpoint_created 10 7 acme
              (record { url = "https://shop.example/hook"; event_types = "order.created" ∷ [] })
              {db' = record empty { tenants = acme ∷ []; endpoints = shop ∷ [] }} {x = shop} refl)))
        (ingests (λ p. p) 20 8 acme
          (record {
            event_type = "order.created";
            payload = Fields.end_fields;
            idempotency_key = some "order-1";
          })
          {db' = record order_tables { deliveries = [] }}
          {r = record { event_id = 20; created = true }}
          {tasks = deliver_event 20 1 (some "order-1") default_queue ∷ []} refl))
      (fans_out (λ n. 30 + n) 9 {rest = []} {db' = order_tables}
        {tasks = deliver_to_endpoint 30 1 delivery_queue none ∷ []} first refl)

queued-IsKnown_example : All (IsKnown order_tables) order_queue
queued-IsKnown_example = queued-IsKnown order_Ticks
