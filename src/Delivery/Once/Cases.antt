-- ===== src/Delivery/Once/Cases.antt =====
-- The three ways in which a run of the delivery task goes, as a rule for proofs.
use webhook_delivery_service.Base.{◌≡◌, refl, Option, none, some, String}
use webhook_delivery_service.Models.{Uuid, Tenant, Endpoint, Event, Delivery}
use webhook_delivery_service.Database.{Database}
use webhook_delivery_service.Database.Valid.{IsValid}
use webhook_delivery_service.Queries.{
  get_active_endpoint_for_tenant, get_event_for_tenant, get_tenant_by_id,
}
use webhook_delivery_service.Delivery.Once.{
  Surroundings, Run, idle_run, give_up, attempt, with_tenant, with_records, process, run_claimed,
  deliver_to_endpoint_once,
}
use webhook_delivery_service.Delivery.Once.Claim.{IsClaimed, claim-IsClaimed}

-- The records that an attempt has looked up.
pub record IsLookedUp (db : Database) (tenant_id : Uuid) (d : Delivery) (endpoint : Endpoint)
    (event : Event) (tenant : Tenant) : Type 0 where
  pub endpoint_found : get_active_endpoint_for_tenant db d.endpoint_id tenant_id ≡ some endpoint
  pub event_found : get_event_for_tenant db d.event_id tenant_id ≡ some event
  pub tenant_found : get_tenant_by_id db tenant_id ≡ some tenant

module _ {ℓ} (P : Run → Type ℓ) (s : Surroundings) (db : Database) (id tenant_id : Uuid)
    (gives_up : (d : Delivery)
      → IsClaimed db id tenant_id d
      → (message : String) → P (give_up s db message d))
    (attempts : (d : Delivery) (endpoint : Endpoint) (event : Event) (tenant : Tenant)
      → IsClaimed db id tenant_id d
      → IsLookedUp db tenant_id d endpoint event tenant
      → P (attempt s db tenant_id d endpoint event tenant)) where
  with_tenant_cases :
      (d : Delivery) (endpoint : Endpoint) (event : Event) (tenant : Option Tenant)
      → IsClaimed db id tenant_id d
      → get_active_endpoint_for_tenant db d.endpoint_id tenant_id ≡ some endpoint
      → get_event_for_tenant db d.event_id tenant_id ≡ some event
      → get_tenant_by_id db tenant_id ≡ tenant
      → P (with_tenant s db tenant_id d endpoint event tenant)
  with_tenant_cases d endpoint event none c e1 e2 e3 = gives_up d c "Tenant not found"
  with_tenant_cases d endpoint event (some tenant) c e1 e2 e3 =
      attempts d endpoint event tenant c
        (record { endpoint_found = e1; event_found = e2; tenant_found = e3 })

  with_records_cases :
      (d : Delivery) (endpoint : Option Endpoint) (event : Option Event)
      → IsClaimed db id tenant_id d
      → get_active_endpoint_for_tenant db d.endpoint_id tenant_id ≡ endpoint
      → get_event_for_tenant db d.event_id tenant_id ≡ event
      → P (with_records s db tenant_id d endpoint event)
  with_records_cases d (some endpoint) (some event) c e1 e2 =
      with_tenant_cases d endpoint event (get_tenant_by_id db tenant_id) c e1 e2 refl
  with_records_cases d _ _ c e1 e2 = gives_up d c "Endpoint or event not found"

  pub process_cases : (d : Delivery) → IsClaimed db id tenant_id d → P (process s db tenant_id d)
  unfolding process
  process_cases d c = with_records_cases d _ _ c refl refl

  run_claimed_cases :
      (claim : Option Delivery)
      → ((d : Delivery) → claim ≡ some d → IsClaimed db id tenant_id d)
      → P (idle_run db)
      → P (run_claimed s db tenant_id claim)
  run_claimed_cases none h idle = idle
  run_claimed_cases (some d) h idle = process_cases d (h d refl)

  pub once_cases : IsValid db → P (idle_run db) → P (deliver_to_endpoint_once s db id tenant_id)
  unfolding deliver_to_endpoint_once
  once_cases v idle =
      run_claimed_cases _ (λ d e. claim-IsClaimed s.locked s.claim_now db id tenant_id v e) idle
