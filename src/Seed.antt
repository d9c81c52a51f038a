-- ===== src/Seed.antt =====
-- app/scripts/seed.py: two tenants with their endpoints, each tenant in a transaction of its own.
-- `Draws` is what the defaults of the columns draw: uuid4, token_hex and the clock. What the script prints
-- of a tenant is the tenant.
pub mod Keys
use webhook_delivery_service.Base.{
  ℕ, zero, suc, String, Bool, Option, none, some, List, [], ◌∷◌, if◌then◌else◌,
}
use webhook_delivery_service.Models.{Uuid, Datetime, Tenant, Endpoint, new_tenant, new_endpoint}
use webhook_delivery_service.Errors.{Exn, Result, ok, raised, ◌>>=◌}
use webhook_delivery_service.Database.{Database, insert_tenant, insert_endpoint}
use webhook_delivery_service.Database.Valid.{empty}

pub record SeedEndpoint : Type 0 where
  pub url : String
  pub event_types : List String

pub record SeedTenant : Type 0 where
  pub name : String
  pub endpoints : List SeedEndpoint

abbrev webhook_url : String
webhook_url = "http://test-receiver:9000/webhook"

abbrev pub seed_tenants : List SeedTenant
seed_tenants =
    record {
      name = "tenant-alpha";
      endpoints =
          record { url = webhook_url; event_types = "order.created" ∷ "order.cancelled" ∷ [] }
          ∷ record { url = webhook_url; event_types = "order.created" ∷ [] }
          ∷ [];
    }
    ∷ record {
      name = "tenant-beta";
      endpoints = record { url = webhook_url; event_types = "user.signup" ∷ [] } ∷ [];
    }
    ∷ []

-- For the tenant with a number, and for an endpoint of it.
pub record Draws : Type 0 where
  pub tenant_id : ℕ → Uuid
  pub api_key : ℕ → String
  pub signing_secret : ℕ → String
  pub endpoint_id : ℕ → ℕ → Uuid
  pub now : Datetime

module _ (draws : Draws) where
  abbrev pub drawn_tenant : ℕ → SeedTenant → Tenant
  drawn_tenant k data_of =
      new_tenant (draws.tenant_id k) draws.now (draws.api_key k) (draws.signing_secret k)
        data_of.name

  -- The endpoints of tenant `k`, from number `j` on.
  unfoldable pub seed_endpoints : ℕ → ℕ → List SeedEndpoint → Database → Result Database
  unfolding insert_endpoint
  seed_endpoints k j [] db = ok db
  seed_endpoints k j (e ∷ es) db = do
    db' ←
        insert_endpoint
          (new_endpoint (draws.endpoint_id k j) draws.now (draws.tenant_id k) e.url e.event_types)
          db
    seed_endpoints k (suc j) es db'

  unfoldable pub seed_tenant : ℕ → SeedTenant → Database → Result (Database × Tenant)
  unfolding insert_tenant seed_endpoints
  seed_tenant k data_of db = do
    db1 ← insert_tenant (drawn_tenant k data_of) db
    db2 ← seed_endpoints k 0 data_of.endpoints db1
    ok (db2, drawn_tenant k data_of)

  -- The tables, the tenants that were printed, and the exception that ended the script, if any.
  pub record Seeded : Type 0 where
    pub tables : Database
    pub printed : List Tenant
    pub failure : Option Exn

  abbrev pub printing : Tenant → Seeded → Seeded
  printing t s = record s { printed = t ∷ s.printed }

  abbrev pub go_on : Database → (Database → Seeded) → Result (Database × Tenant) → Seeded
  go_on db rest (raised e) = record { tables = db; printed = []; failure = some e }
  go_on db rest (ok (db', t)) = printing t (rest db')

  -- A tenant that raises is rolled back; those before it are committed.
  unfoldable pub seed_all : ℕ → List SeedTenant → Database → Seeded
  unfolding seed_tenant
  seed_all k [] db = record { tables = db; printed = []; failure = none }
  seed_all k (t ∷ ts) db = go_on db (seed_all (suc k) ts) (seed_tenant k t db)

  -- `drop_all`, then `create_all`.
  abbrev pub reset_db : Database → Database
  reset_db db = empty

  unfoldable pub seed : Bool → Database → Seeded
  unfolding seed_all
  seed should_reset db = seed_all 0 seed_tenants (if should_reset then reset_db db else db)
