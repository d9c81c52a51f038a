-- ===== src/Tests/Seeds.antt =====
-- The seed script on the small database and with `--reset`.
use webhook_delivery_service.Base.{
  ◌+◌, ◌*◌, ◌≡◌, refl, true, false, none, All, [], ◌∷◌, length, map, if◌then◌else◌, ◌==◌,
}
use webhook_delivery_service.Database.Valid.{IsValid}
use webhook_delivery_service.Queries.{list_active_matching_endpoints_for_tenant}
use webhook_delivery_service.Seed.{Draws, seed}
use webhook_delivery_service.Seed.Keys.{HasKey, seed-IsUsable}
use webhook_delivery_service.Tests.Fixtures.{small_db, small_db-IsValid}

abbrev draws : Draws
draws = record {
  tenant_id = λ k. 100 + k;
  api_key = λ k. if k == 0 then "alpha-key" else "beta-key";
  signing_secret = λ k. if k == 0 then "alpha-secret" else "beta-secret";
  endpoint_id = λ k j. 200 + k * 10 + j;
  now = 50;
}

seed-IsUsable_example :
    IsValid (seed draws false small_db).tables
    × All (HasKey (seed draws false small_db).tables) (seed draws false small_db).printed
seed-IsUsable_example = seed-IsUsable draws false small_db small_db-IsValid

-- With `--reset` the script runs through: two tenants, and two endpoints for an order of the first.
runs :
    ((seed draws true small_db).failure ≡ none)
    × (map (λ t. t.api_key) (seed draws true small_db).printed ≡ "alpha-key" ∷ "beta-key" ∷ [])
    × (length (seed draws true small_db).tables.tenants ≡ 2)
    × (length (
          list_active_matching_endpoints_for_tenant
            (seed draws true small_db).tables
            100
            "order.created")
        ≡ 2)
unfolding seed list_active_matching_endpoints_for_tenant
runs = (refl, refl, refl, refl)
