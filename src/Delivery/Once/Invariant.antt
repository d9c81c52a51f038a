-- ===== src/Delivery/Once/Invariant.antt =====
-- One run of the delivery task and the invariant of the database.
use webhook_delivery_service.Base.{
  ◌≡◌, refl, Option, none, some, arith, inl, inr, Bool-cases, String,
}
use webhook_delivery_service.Models.{Uuid, Tenant, Endpoint, Event, Delivery, pending, failed}
use webhook_delivery_service.Database.{Database}
use webhook_delivery_service.Database.Valid.{IsValid, IsOwned}
use webhook_delivery_service.Database.Keeps.{update_delivery-IsValid}
use webhook_delivery_service.Delivery.Attempt.{post_and_record, build_request}
use webhook_delivery_service.Delivery.Attempt.Lifecycle.{
  IsRow, IsShort, IsAttempted, post_and_record-IsAttempted, post_and_record-IsRow, pending_count,
}
use webhook_delivery_service.Queries.{get_tenant_by_id}
use webhook_delivery_service.Delivery.Once.{
  Surroundings, commit_delivery, give_up, attempt, with_tenant, with_records, process, run_claimed,
  deliver_to_endpoint_once,
}
use webhook_delivery_service.Delivery.Once.Claim.{IsClaimed, claim-IsClaimed}

module _ (s : Surroundings) (db : Database) (v : IsValid db) where
  commit_delivery-IsValid : (d : Delivery) → IsOwned db d → IsValid (commit_delivery s db d)
  unfolding commit_delivery
  commit_delivery-IsValid d own = elim (Bool-cases s.commits) [
    | inl yes_commit ↦ rw yes_commit (
        update_delivery-IsValid (record d { updated_at = s.reading.db_now }) db
          (record {
            event = own.event;
            endpoint = own.endpoint;
            row = record { lifecycle = own.row.lifecycle; short = own.row.short };
          })
          v)
    | inr refused ↦ rw refused v
  ]

  give_up-IsValid :
      (message : String) (d : Delivery)
      → IsShort (some message)
      → IsOwned db d
      → d.status ≡ pending
      → IsValid (give_up s db message d).database
  give_up-IsValid message d short own p =
      commit_delivery-IsValid (record d { status = failed; response_body = some message })
        (record {
          event = own.event;
          endpoint = own.endpoint;
          row = record { lifecycle = pending_count d own.row p; short = short };
        })

  attempted-IsOwned : (d d' : Delivery) → IsAttempted d d' → IsRow d' → IsOwned db d → IsOwned db d'
  attempted-IsOwned d d' same row own = record {
    event = rw (same.same_event, same.same_tenant) own.event;
    endpoint = rw (same.same_endpoint, same.same_tenant) own.endpoint;
    row = row;
  }

  attempt-IsValid :
      (tenant_id : Uuid) (d : Delivery) (endpoint : Endpoint) (event : Event) (tenant : Tenant)
      → IsOwned db d
      → d.status ≡ pending
      → IsValid (attempt s db tenant_id d endpoint event tenant).database
  attempt-IsValid tenant_id d endpoint event tenant own p =
      let request = build_request s.hmac tenant.signing_secret endpoint event in
      commit_delivery-IsValid (post_and_record s.client s.reading request tenant_id d).0 (
        attempted-IsOwned d _ (post_and_record-IsAttempted s.client s.reading request tenant_id d)
          (post_and_record-IsRow s.client s.reading request tenant_id d own.row p) own)

  with_tenant-IsValid :
      (tenant_id : Uuid) (d : Delivery) (endpoint : Endpoint) (event : Event)
      (tenant : Option Tenant)
      → IsOwned db d
      → d.status ≡ pending
      → IsValid (with_tenant s db tenant_id d endpoint event tenant).database
  with_tenant-IsValid tenant_id d endpoint event none own p =
      give_up-IsValid "Tenant not found" d (omega arith) own p
  with_tenant-IsValid tenant_id d endpoint event (some tenant) own p =
      attempt-IsValid tenant_id d endpoint event tenant own p

  with_records-IsValid :
      (tenant_id : Uuid) (d : Delivery) (endpoint : Option Endpoint) (event : Option Event)
      → IsOwned db d
      → d.status ≡ pending
      → IsValid (with_records s db tenant_id d endpoint event).database
  with_records-IsValid tenant_id d (some endpoint) (some event) own p =
      with_tenant-IsValid tenant_id d endpoint event (get_tenant_by_id db tenant_id) own p
  with_records-IsValid tenant_id d _ _ own p =
      give_up-IsValid "Endpoint or event not found" d (omega arith) own p

  pub process-IsValid :
      (tenant_id : Uuid) (d : Delivery)
      → IsOwned db d
      → d.status ≡ pending
      → IsValid (process s db tenant_id d).database
  unfolding process
  process-IsValid tenant_id d own p = with_records-IsValid tenant_id d _ _ own p

  run_claimed-IsValid :
      (id tenant_id : Uuid) (claim : Option Delivery)
      → ((d : Delivery) → claim ≡ some d → IsClaimed db id tenant_id d)
      → IsValid (run_claimed s db tenant_id claim).database
  run_claimed-IsValid id tenant_id none h = v
  run_claimed-IsValid id tenant_id (some d) h =
      process-IsValid tenant_id d (h d refl).owned (h d refl).pends

  pub deliver_to_endpoint_once-IsValid :
      (id tenant_id : Uuid) → IsValid (deliver_to_endpoint_once s db id tenant_id).database
  unfolding deliver_to_endpoint_once
  deliver_to_endpoint_once-IsValid id tenant_id =
      run_claimed-IsValid id tenant_id _
        (λ d e. claim-IsClaimed s.locked s.claim_now db id tenant_id v e)
