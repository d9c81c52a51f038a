-- ===== src/Tests/Tenancy.antt =====
-- Tenants and endpoints, and a database that is reached from empty tables.
use webhook_delivery_service.Base.{◌≡◌, refl, inr, false, none, some, [], ◌∷◌, arith}
use webhook_delivery_service.Errors.{ok, raised}
use webhook_delivery_service.Database.{Database}
use webhook_delivery_service.Database.Valid.{IsValid, empty}
use webhook_delivery_service.Queries.{get_active_endpoint_by_id_for_tenant}
use webhook_delivery_service.Tenants.{create_tenant, get_current_tenant}
use webhook_delivery_service.Tenants.Access.{invalid_key, created_tenant_authenticates}
use webhook_delivery_service.Endpoints.{create_endpoint, update_endpoint, delete_endpoint}
use webhook_delivery_service.Endpoints.Lifecycle.{not_found, lookup_endpoint, hidden_not_found}
use webhook_delivery_service.Endpoints.Deletion.{IsDeleted, delete_is_final}
use webhook_delivery_service.System.{
  Steps, served, start, then_step, tenant_created, endpoint_created,
}
use webhook_delivery_service.System.Reachable.{reachable-IsValid}
use webhook_delivery_service.System.Deleted.{deletion_is_permanent}
use webhook_delivery_service.Models.{Tenant}
use webhook_delivery_service.Tests.Fixtures.{acme, globex, shop, small_db, small_db-IsValid}

abbrev with_globex : Database
with_globex = record empty { tenants = globex ∷ [] }

abbrev with_both : Database
with_both = record empty { tenants = acme ∷ globex ∷ [] }

abbrev with_shop : Database
with_shop = record with_both { endpoints = shop ∷ [] }

reached : Steps empty with_shop
unfolding create_tenant create_endpoint
reached =
    then_step
      (then_step
        (then_step start
          (served (tenant_created 2 6 "globex-key" "globex-secret" "Globex" {t = globex} refl)))
        (served (tenant_created 1 5 "acme-key" "acme-secret" "Acme" {t = acme} refl)))
      (served (
        endpoint_created 10 7 acme
          (record { url = "https://shop.example/hook"; event_types = "order.created" ∷ [] })
          {x = shop} refl))

reachable-IsValid_example : IsValid with_shop
reachable-IsValid_example = reachable-IsValid reached

created_tenant_authenticates_example :
    (get_current_tenant with_globex (some "acme-key") ≡ raised invalid_key)
    × (get_current_tenant with_both (some "acme-key") ≡ ok acme)
    × (get_current_tenant with_both (some "globex-key")
        ≡ get_current_tenant with_globex (some "globex-key"))
unfolding create_tenant
created_tenant_authenticates_example =
    created_tenant_authenticates 1 5 "acme-key" "acme-secret" with_globex "Acme" "globex-key"
      {out = (with_both, acme)} refl refl

abbrev initech : Tenant
initech = record {
  id = 3;
  name = "Initech";
  api_key = "initech-key";
  signing_secret = "initech-secret";
  created_at = 9;
}

abbrev no_shop : Database
no_shop = record small_db { endpoints = record shop { is_active = false } ∷ [] }

delete_is_final_example :
    IsDeleted 10 no_shop × (lookup_endpoint 11 no_shop ≡ lookup_endpoint 11 small_db)
unfolding delete_endpoint get_active_endpoint_by_id_for_tenant
delete_is_final_example =
    delete_is_final small_db small_db-IsValid acme 10 11 {db' = no_shop} refl (λ e. omega arith)

hidden_not_found_example :
    (update_endpoint small_db globex 10
        (record { url = none; event_types = some ("order.paid" ∷ []) })
      ≡ raised not_found)
    × (delete_endpoint small_db globex 10 ≡ raised not_found)
hidden_not_found_example =
    hidden_not_found small_db small_db-IsValid globex 10
      (record { url = none; event_types = some ("order.paid" ∷ []) })
      (inr (shop, refl, inr (λ e. omega arith)))

deletion_is_permanent_example :
    IsDeleted 10 (record no_shop { tenants = initech ∷ globex ∷ acme ∷ [] })
unfolding delete_endpoint get_active_endpoint_by_id_for_tenant create_tenant
deletion_is_permanent_example =
    deletion_is_permanent acme 10 {db = small_db} {db' = no_shop} small_db-IsValid refl (
      then_step start
        (served (tenant_created 3 9 "initech-key" "initech-secret" "Initech" {t = initech} refl)))
