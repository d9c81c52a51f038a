-- ===== src/Endpoints/Deletion.antt =====
-- What is left of an endpoint that was deleted.
use webhook_delivery_service.Base.{
  ◌≡◌, ◌≢◌, refl, sym, ap, ◌∙◌, subst, false, some, List, [], ◌∷◌, arith, All, select,
  lookup-replace_self, lookup-replace_ne, key-lookup, ◌==◌, ==_refl, ==_ne, Bool-cases, inl, inr,
  String, replace,
}
use webhook_delivery_service.Models.{Uuid, Tenant, Endpoint}
use webhook_delivery_service.Errors.{ok, raised}
use webhook_delivery_service.Database.{Database}
use webhook_delivery_service.Database.Valid.{IsValid}
use webhook_delivery_service.Queries.{list_active_matching_endpoints_for_tenant, is_match}
use webhook_delivery_service.Endpoints.{EndpointUpdate, update_endpoint, delete_endpoint}
use webhook_delivery_service.Endpoints.Lifecycle.{
  not_found, lookup_endpoint, hidden_not_found, delete-inversion, delete_endpoint-IsValid,
}

-- A row that is not active, if it has the id.
abbrev pub IsOff : Uuid → Endpoint → Type 0
IsOff id e = e.id ≡ id → e.is_active ≡ false

pub IsOff-after :
    (id : Uuid) (x : Endpoint)
    → x.id ≡ id
    → x.is_active ≡ false
    → (es : List Endpoint) → All (IsOff id) (replace (λ e. e.id) x es)
IsOff-after id x same off [] = tt
IsOff-after id x same off (e ∷ es) = elim (Bool-cases (e.id == x.id)) [
  | inl hit ↦ rw hit ((λ _. off), IsOff-after id x same off es)
  | inr miss ↦ rw miss ((λ q. ground (arith, ==_refl id)), IsOff-after id x same off es)
]

pub unmatched_after :
    (id tenant_id : Uuid) (event_type : String) (es : List Endpoint)
    → All (IsOff id) es
    → All (λ e. e.id ≢ id) (select (is_match tenant_id event_type) es)
unmatched_after id tenant_id event_type [] h = tt
unmatched_after id tenant_id event_type (e ∷ es) h =
    elim (Bool-cases (is_match tenant_id event_type e)) [
      | inl hit ↦
          rw hit ((λ q. ground (arith, h.0 q)), unmatched_after id tenant_id event_type es h.1)
      | inr miss ↦ rw miss (unmatched_after id tenant_id event_type es h.1)
    ]

pub record IsDeleted (id : Uuid) (db : Database) : Type 0 where
  -- The row is still there, for the deliveries that name it, and is not active.
  pub kept : (e : Endpoint) × (lookup_endpoint id db ≡ some e) × (e.is_active ≡ false)
  -- No event is sent to it any more,
  pub unmatched :
      (tenant_id : Uuid) (event_type : String)
      → All (λ e. e.id ≢ id) (list_active_matching_endpoints_for_tenant db tenant_id event_type)
  -- and no tenant can change it or delete it again.
  pub gone :
      (tenant : Tenant) (u : EndpointUpdate)
      → (update_endpoint db tenant id u ≡ raised not_found)
        × (delete_endpoint db tenant id ≡ raised not_found)

deleted :
    (db : Database) (id : Uuid) {db' : Database}
    → IsValid db'
    → (off : Endpoint) {e : Endpoint} → off.id ≡ id
    → off.is_active ≡ false
    → lookup_endpoint id db ≡ some e
    → db' ≡ record db { endpoints = replace (λ x. x.id) off db.endpoints }
    → IsDeleted id db'
unfolding list_active_matching_endpoints_for_tenant
deleted db id {db' = db'} v off {e = e} same inactive found written =
    let left : lookup_endpoint id db' ≡ some off =
      ap (lookup_endpoint id) written
      ∙ subst
          (λ k.
            lookup_endpoint k (record db { endpoints = replace (λ x. x.id) off db.endpoints })
            ≡ some off)
          same
          (lookup-replace_self (λ x. x.id) off db.endpoints
            (subst (λ k. lookup_endpoint k db ≡ some e) (sym same) found)) in
    record {
      kept = (off, left, inactive);
      unmatched = λ t et.
          subst (λ d. All (λ e. e.id ≢ id) (list_active_matching_endpoints_for_tenant d t et))
            (sym written)
            (unmatched_after id t et _ (IsOff-after id off same inactive db.endpoints));
      gone = λ t u. hidden_not_found db' v t id u (inr (off, left, inl inactive));
    }

-- After a deletion that succeeds in a well-formed database, the endpoint's row is still there but not
-- active, no event type of any tenant matches it, an update or a deletion of it by any tenant is answered
-- with 404, and every other endpoint is as it was.
pub delete_is_final :
    (db : Database) (v : IsValid db) (tenant : Tenant) (id other : Uuid) {db' : Database}
    → delete_endpoint db tenant id ≡ ok db'
    → other ≢ id
    → IsDeleted id db' × (lookup_endpoint other db' ≡ lookup_endpoint other db)
delete_is_final db v tenant id other {db' = db'} h ne =
    let (e, found, written) = delete-inversion db v tenant id h in
    let off : Endpoint = record e { is_active = false } in
    let same : e.id ≡ id = key-lookup (λ x. x.id) id db.endpoints found in
    (
      deleted db id (delete_endpoint-IsValid db v tenant id h) (record e { is_active = false }) same
          refl found written,
      ap (lookup_endpoint other) written
          ∙ lookup-replace_ne (λ x. x.id) other off db.endpoints
              (rw same (==_ne id other (λ q. ne (sym q)))),
    )
