-- ===== src/Database/Valid.antt =====
-- The well-formed states of the database: what its constraints and the service together keep.
use webhook_delivery_service.Base.{
  ◌≡◌, Bool, true, ◌&&◌, List, [], any, All, Distinct, same_id, ◌==◌,
}
use webhook_delivery_service.Models.{Endpoint, Event, Delivery}
use webhook_delivery_service.Delivery.Attempt.Lifecycle.{IsRow}
use webhook_delivery_service.Database.{Database, tenant_clash, event_clash, has_tenant}

-- The event, or the endpoint, that a delivery names is one of the delivery's own tenant.
abbrev pub owns_event : List Event → Delivery → Bool
owns_event events d = any (λ e. e.id == d.event_id && e.tenant_id == d.tenant_id) events

abbrev pub owns_endpoint : List Endpoint → Delivery → Bool
owns_endpoint endpoints d = any (λ e. e.id == d.endpoint_id && e.tenant_id == d.tenant_id) endpoints

pub record IsOwned (db : Database) (d : Delivery) : Type 0 where
  pub event : owns_event db.events d ≡ true
  pub endpoint : owns_endpoint db.endpoints d ≡ true
  pub row : IsRow d

pub record IsValid (db : Database) : Type 0 where
  pub tenants_distinct : Distinct tenant_clash db.tenants
  pub endpoints_distinct : Distinct (same_id (λ e. e.id)) db.endpoints
  pub events_distinct : Distinct event_clash db.events
  pub deliveries_distinct : Distinct (same_id (λ d. d.id)) db.deliveries
  pub endpoints_owned : All (λ e. has_tenant db e.tenant_id ≡ true) db.endpoints
  pub events_owned : All (λ e. has_tenant db e.tenant_id ≡ true) db.events
  pub deliveries_owned : All (IsOwned db) db.deliveries

abbrev pub empty : Database
empty = record { tenants = []; endpoints = []; events = []; deliveries = [] }

pub empty-IsValid : IsValid empty
empty-IsValid = record {
  tenants_distinct = tt;
  endpoints_distinct = tt;
  events_distinct = tt;
  deliveries_distinct = tt;
  endpoints_owned = tt;
  events_owned = tt;
  deliveries_owned = tt;
}
