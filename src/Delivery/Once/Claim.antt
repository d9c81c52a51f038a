-- ===== src/Delivery/Once/Claim.antt =====
-- The claim of a delivery row: what `get_pending_delivery_for_update` finds, and when it finds none.
use webhook_delivery_service.Base.{
  ◌≡◌, true, false, ◌&&◌, not, Option, none, some, List, arith, lookup, select-lookup,
  select-missing, lookup-select, key-lookup, All-lookup, scalar-select, if◌then◌else◌, ◌==◌,
  &&_left, &&_right,
}
use webhook_delivery_service.Models.{Uuid, Datetime, Delivery, Status, pending}
use webhook_delivery_service.Database.{Database}
use webhook_delivery_service.Database.Valid.{IsValid, IsOwned}
use webhook_delivery_service.Queries.{
  get_pending_delivery_for_update, is_claimable, is_locked, is_pending,
}

-- The delivery row with an id.
abbrev pub lookup_delivery : Uuid → Database → Option Delivery
lookup_delivery id db = lookup (λ d. d.id) id db.deliveries

pub record IsClaimed (db : Database) (id tenant_id : Uuid) (d : Delivery) : Type 0 where
  pub found : lookup_delivery id db ≡ some d
  pub same_id : d.id ≡ id
  pub same_tenant : d.tenant_id ≡ tenant_id
  pub pends : d.status ≡ pending
  pub owned : IsOwned db d

is_pending→eq : (s : Status) → is_pending s ≡ true → s ≡ pending
is_pending→eq s h = ground arith

claimable_parts :
    (locked : List Uuid) (now : Datetime) (tenant_id : Uuid) (d : Delivery)
    → (is_claimable now tenant_id d && not (is_locked locked d)) ≡ true
    → (d.tenant_id ≡ tenant_id) × (d.status ≡ pending) × (is_locked locked d ≡ false)
claimable_parts locked now tenant_id d h = ground arith

module _ (locked : List Uuid) (now : Datetime) (db : Database) (id tenant_id : Uuid)
    (v : IsValid db) where
  -- With unique ids the claim is a test of the row with the id.
  pub claim_lem :
      (d : Delivery)
      → lookup_delivery id db ≡ some d
      → get_pending_delivery_for_update locked now db id tenant_id
        ≡ (if is_claimable now tenant_id d && not (is_locked locked d) then some d else none)
  unfolding get_pending_delivery_for_update
  claim_lem d e =
      select-lookup (λ x. x.id) id (λ x. is_claimable now tenant_id x && not (is_locked locked x))
        db.deliveries v.deliveries_distinct e

  pub claim_missing :
      lookup_delivery id db ≡ none
      → get_pending_delivery_for_update locked now db id tenant_id ≡ none
  unfolding get_pending_delivery_for_update
  claim_missing e =
      select-missing (λ x. x.id) id (λ x. is_claimable now tenant_id x && not (is_locked locked x))
        db.deliveries e

  claim-found :
      {d : Delivery}
      → get_pending_delivery_for_update locked now db id tenant_id ≡ some d
      → lookup_delivery id db ≡ some d
  unfolding get_pending_delivery_for_update
  claim-found e =
      lookup-select (λ x. x.id) id (λ x. is_claimable now tenant_id x && not (is_locked locked x))
        db.deliveries v.deliveries_distinct e

  claim-test :
      {d : Delivery}
      → get_pending_delivery_for_update locked now db id tenant_id ≡ some d
      → (d.id == id && (is_claimable now tenant_id d && not (is_locked locked d))) ≡ true
  unfolding get_pending_delivery_for_update
  claim-test e =
      scalar-select (λ x. x.id == id && (is_claimable now tenant_id x && not (is_locked locked x)))
        db.deliveries e

  pub claim-IsClaimed :
      {d : Delivery}
      → get_pending_delivery_for_update locked now db id tenant_id ≡ some d
      → IsClaimed db id tenant_id d
  claim-IsClaimed {d} e =
      let parts = claimable_parts locked now tenant_id d (&&_right (d.id == id) _ (claim-test e)) in
      record {
        found = claim-found e;
        same_id = key-lookup (λ x. x.id) id db.deliveries (claim-found e);
        same_tenant = parts.0;
        pends = parts.1;
        owned =
            All-lookup (λ x. x.id) (IsOwned db) id db.deliveries v.deliveries_owned (claim-found e);
      }

  -- A locked row is skipped.
  pub claim-unlocked :
      {d : Delivery}
      → get_pending_delivery_for_update locked now db id tenant_id ≡ some d
      → is_locked locked d ≡ false
  claim-unlocked {d} e =
      (claimable_parts locked now tenant_id d (&&_right (d.id == id) _ (claim-test e))).2

  pub claim-claimable :
      {d : Delivery}
      → get_pending_delivery_for_update locked now db id tenant_id ≡ some d
      → is_claimable now tenant_id d ≡ true
  claim-claimable {d} e =
      &&_left (is_claimable now tenant_id d) _ (&&_right (d.id == id) _ (claim-test e))
