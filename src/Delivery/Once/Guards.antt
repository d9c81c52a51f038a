-- ===== src/Delivery/Once/Guards.antt =====
-- The rows that the delivery task must not touch.
use webhook_delivery_service.Base.{
  ◌≡◌, ◌≢◌, ◌⊎◌, inl, inr, ◌<◌, true, false, ◌&&◌, not, some, none, arith,
}
use webhook_delivery_service.Models.{Uuid, Datetime, Delivery, pending}
use webhook_delivery_service.Database.{Database}
use webhook_delivery_service.Database.Valid.{IsValid}
use webhook_delivery_service.Queries.{is_claimable, is_locked}
use webhook_delivery_service.Delivery.Once.{Surroundings, idle_run, deliver_to_endpoint_once}
use webhook_delivery_service.Delivery.Once.Claim.{lookup_delivery, claim_lem, claim_missing}

-- Reasons to leave a row alone.
pub data IsBlocked (s : Surroundings) (tenant_id : Uuid) (d : Delivery) : Type 0 where
  finished : d.status ≢ pending → IsBlocked s tenant_id d
  early : (t : Datetime) → d.next_retry_at ≡ some t → s.claim_now < t → IsBlocked s tenant_id d
  taken : is_locked s.locked d ≡ true → IsBlocked s tenant_id d
  foreign : d.tenant_id ≢ tenant_id → IsBlocked s tenant_id d

IsBlocked-test :
    (s : Surroundings) (tenant_id : Uuid) (d : Delivery)
    → IsBlocked s tenant_id d
    → (is_claimable s.claim_now tenant_id d && not (is_locked s.locked d)) ≡ false
IsBlocked-test s tenant_id d (finished h) = ground arith
IsBlocked-test s tenant_id d (early t e h) = ground arith
IsBlocked-test s tenant_id d (taken h) = ground arith
IsBlocked-test s tenant_id d (foreign h) = ground arith

-- In a well-formed database, for a row that is finished, not yet due, locked by another worker or
-- of another tenant, and for an id that no row has, a run of the delivery task posts nothing,
-- dispatches nothing and writes nothing.
pub once-IsBlocked :
    (s : Surroundings) (db : Database) (id tenant_id : Uuid)
    → IsValid db
    → (lookup_delivery id db ≡ none)
      ⊎ ((d : Delivery) × (lookup_delivery id db ≡ some d) × IsBlocked s tenant_id d)
    → deliver_to_endpoint_once s db id tenant_id ≡ idle_run db
unfolding deliver_to_endpoint_once
once-IsBlocked s db id tenant_id v (inl e) =
    rw (claim_missing s.locked s.claim_now db id tenant_id v e)
once-IsBlocked s db id tenant_id v (inr (d, e, b)) =
    rw (claim_lem s.locked s.claim_now db id tenant_id v d e, IsBlocked-test s tenant_id d b)
