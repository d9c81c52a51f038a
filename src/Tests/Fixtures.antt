-- ===== src/Tests/Fixtures.antt =====
-- A small database: one tenant with an endpoint, an event and its pending delivery, and a second tenant.
use webhook_delivery_service.Base.{ℕ, refl, true, some, [], ◌∷◌}
use webhook_delivery_service.Models.{Tenant, Endpoint, Event, Delivery, new_delivery, new_endpoint}
use webhook_delivery_service.Models.Json.{Fields}
use webhook_delivery_service.Database.{Database}
use webhook_delivery_service.Database.Valid.{IsValid}
use webhook_delivery_service.Delivery.Attempt.{Client, response, Reading}
use webhook_delivery_service.Delivery.Once.{Surroundings}

abbrev pub acme : Tenant
acme = record {
  id = 1;
  name = "Acme";
  api_key = "acme-key";
  signing_secret = "acme-secret";
  created_at = 5;
}

abbrev pub globex : Tenant
globex = record {
  id = 2;
  name = "Globex";
  api_key = "globex-key";
  signing_secret = "globex-secret";
  created_at = 6;
}

abbrev pub shop : Endpoint
shop = new_endpoint 10 7 1 "https://shop.example/hook" ("order.created" ∷ [])

abbrev pub order : Event
order = record {
  id = 20;
  tenant_id = 1;
  event_type = "order.created";
  payload = Fields.end_fields;
  idempotency_key = some "order-1";
  received_at = 8;
}

abbrev pub first_delivery : Delivery
first_delivery = new_delivery 30 9 20 10 1

abbrev pub small_db : Database
small_db = record {
  tenants = globex ∷ acme ∷ [];
  endpoints = shop ∷ [];
  events = order ∷ [];
  deliveries = first_delivery ∷ [];
}

pub small_db-IsValid : IsValid small_db
small_db-IsValid = record {
  tenants_distinct = (refl, (refl, tt));
  endpoints_distinct = (refl, tt);
  events_distinct = (refl, tt);
  deliveries_distinct = (refl, tt);
  endpoints_owned = (refl, tt);
  events_owned = (refl, tt);
  deliveries_owned =
      (record { event = refl; endpoint = refl; row = record { lifecycle = refl; short = tt } }, tt);
}

-- A client that gives every request the same answer, and what a worker meets.
abbrev pub answers : ℕ → Client
answers code request = response code "body"

abbrev pub reading_at : ℕ → Reading
reading_at t = record { started_at = 0; ended_at = 4000; utcnow = t; db_now = t }

abbrev pub meets : ℕ → ℕ → Surroundings
meets code t = record {
  client = answers code;
  hmac = λ secret body. "digest";
  locked = [];
  claim_now = t;
  reading = reading_at t;
  commits = true;
}
