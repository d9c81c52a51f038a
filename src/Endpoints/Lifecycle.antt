-- ===== src/Endpoints/Lifecycle.antt =====
-- The lookup, the update and the deletion of an endpoint by its id.
use webhook_delivery_service.Base.{
  ◌≡◌, ◌≢◌, ◌⊎◌, refl, sym, ap, ◌∙◌, subst, false, Option, none, some, arith, lookup, select-lookup,
  select-missing, lookup-select, key-lookup, inl, inr, String, if◌then◌else◌, replace,
}
use webhook_delivery_service.Models.{Uuid, Datetime, Tenant, Endpoint, new_endpoint}
use webhook_delivery_service.Errors.{
  Result, ok, raised, Exn, app_error, runtime_error, data_error, type_error, not_found_error,
  >>=-eq-ok, ok_injective, integrity_error,
}
use webhook_delivery_service.Database.{Database, insert_endpoint, update_endpoint_row}
use webhook_delivery_service.Database.Valid.{IsValid}
use webhook_delivery_service.Database.Keeps.{
  insert_endpoint-IsValid, update_endpoint_row-IsValid, replace_endpoint-IsValid,
}
use webhook_delivery_service.Queries.{get_active_endpoint_by_id_for_tenant, is_active_of}
use webhook_delivery_service.Endpoints.{
  EndpointCreate, EndpointUpdate, or_conflict, create_endpoint, or_not_found, apply_update,
  update_endpoint, delete_endpoint,
}

abbrev pub not_found : Exn
not_found = app_error (not_found_error "Endpoint not found." "ENDPOINT_NOT_FOUND")

abbrev pub lookup_endpoint : Uuid → Database → Option Endpoint
lookup_endpoint id db = lookup (λ e. e.id) id db.endpoints

pub or_conflict-ok :
    {A : Type 0} (message : String) (r : Result A) {a : A} → or_conflict message r ≡ ok a → r ≡ ok a
or_conflict-ok message (ok b) h = h
or_conflict-ok message (raised integrity_error) h = cc
or_conflict-ok message (raised (app_error e)) h = cc
or_conflict-ok message (raised (runtime_error e)) h = cc
or_conflict-ok message (raised data_error) h = cc
or_conflict-ok message (raised type_error) h = cc

or_not_found-ok : (o : Option Endpoint) {e : Endpoint} → or_not_found o ≡ ok e → o ≡ some e
or_not_found-ok none q = cc
or_not_found-ok (some x) q = ap some (ok_injective q)

module _ (db : Database) (v : IsValid db) (tenant : Tenant) (id : Uuid) where
  -- With unique ids the lookup is a test of the row with the id.
  active_lem :
      (e : Endpoint)
      → lookup_endpoint id db ≡ some e
      → get_active_endpoint_by_id_for_tenant db tenant.id id
        ≡ (if is_active_of tenant.id e then some e else none)
  unfolding get_active_endpoint_by_id_for_tenant
  active_lem e found =
      select-lookup (λ x. x.id) id (is_active_of tenant.id) db.endpoints v.endpoints_distinct found

  active_missing :
      lookup_endpoint id db ≡ none → get_active_endpoint_by_id_for_tenant db tenant.id id ≡ none
  unfolding get_active_endpoint_by_id_for_tenant
  active_missing found = select-missing (λ x. x.id) id (is_active_of tenant.id) db.endpoints found

  active-found :
      {e : Endpoint}
      → get_active_endpoint_by_id_for_tenant db tenant.id id ≡ some e
      → lookup_endpoint id db ≡ some e
  unfolding get_active_endpoint_by_id_for_tenant
  active-found h =
      lookup-select (λ x. x.id) id (is_active_of tenant.id) db.endpoints v.endpoints_distinct h

  hidden-test :
      (e : Endpoint)
      → (e.is_active ≡ false) ⊎ (e.tenant_id ≢ tenant.id)
      → is_active_of tenant.id e ≡ false
  hidden-test e h = ground arith

  -- In a well-formed database, an endpoint that is deleted, that belongs to another tenant or that
  -- does not exist is not found by an update or a deletion that names it: both are answered with
  -- 404.
  pub hidden_not_found :
      (u : EndpointUpdate)
      → (lookup_endpoint id db ≡ none)
        ⊎ ((e : Endpoint) × (lookup_endpoint id db ≡ some e)
            × ((e.is_active ≡ false) ⊎ (e.tenant_id ≢ tenant.id)))
      → (update_endpoint db tenant id u ≡ raised not_found)
        × (delete_endpoint db tenant id ≡ raised not_found)
  unfolding update_endpoint delete_endpoint
  hidden_not_found u (inl missing) = (rw (active_missing missing), rw (active_missing missing))
  hidden_not_found u (inr (e, found, hidden)) =
      let gone : get_active_endpoint_by_id_for_tenant db tenant.id id ≡ none =
        active_lem e found ∙ rw (hidden-test e hidden) refl in
      (rw gone, rw gone)

  found_by_id : {e : Endpoint} → lookup_endpoint id db ≡ some e → lookup_endpoint e.id db ≡ some e
  found_by_id {e = e} found =
      subst (λ k. lookup_endpoint k db ≡ some e)
        (sym (key-lookup (λ x. x.id) id db.endpoints found)) found

  -- What a successful deletion or update has found, and what it wrote.
  pub delete-inversion :
      {db' : Database}
      → delete_endpoint db tenant id ≡ ok db'
      → (e : Endpoint) × (lookup_endpoint id db ≡ some e)
        × (db' ≡ record db {
          endpoints = replace (λ x. x.id) (record e { is_active = false }) db.endpoints;
        })
  unfolding delete_endpoint
  delete-inversion h =
      let (e, e1, e2) =
        >>=-eq-ok (or_not_found (get_active_endpoint_by_id_for_tenant db tenant.id id)) _ h in
      (e, active-found (or_not_found-ok _ e1), sym (ok_injective e2))

  pub update-inversion :
      (u : EndpointUpdate) {out : Database × Endpoint}
      → update_endpoint db tenant id u ≡ ok out
      → (e : Endpoint) × (lookup_endpoint id db ≡ some e)
        × (update_endpoint_row (apply_update u e) db ≡ ok out.0)
  unfolding update_endpoint
  update-inversion u h =
      let (e, e1, e2) =
        >>=-eq-ok (or_not_found (get_active_endpoint_by_id_for_tenant db tenant.id id)) _ h in
      let (db', e3, e4) =
        >>=-eq-ok (or_conflict _ (update_endpoint_row (apply_update u e) db)) _ e2 in
      (
        e,
        active-found (or_not_found-ok _ e1),
        or_conflict-ok _ _ e3 ∙ ap (λ o. ok o.0) (ok_injective e4),
      )

  -- A successful update or deletion keeps the database well-formed.
  pub update_endpoint-IsValid :
      (u : EndpointUpdate) {out : Database × Endpoint}
      → update_endpoint db tenant id u ≡ ok out
      → IsValid out.0
  update_endpoint-IsValid u h =
      let (e, found, written) = update-inversion u h in
      update_endpoint_row-IsValid (apply_update u e) db written (found_by_id found) refl v

  pub delete_endpoint-IsValid :
      {db' : Database} → delete_endpoint db tenant id ≡ ok db' → IsValid db'
  delete_endpoint-IsValid h =
      let (e, found, written) = delete-inversion h in
      subst IsValid (sym written)
        (replace_endpoint-IsValid (record e { is_active = false }) db (found_by_id found) refl v)

pub create_endpoint-IsValid :
    (id : Uuid) (now : Datetime) (db : Database) (tenant : Tenant) (e : EndpointCreate)
    {out : Database × Endpoint}
    → create_endpoint id now db tenant e ≡ ok out
    → IsValid db
    → IsValid out.0
unfolding create_endpoint
create_endpoint-IsValid id now db tenant e h v =
    let (db', e1, e2) =
      >>=-eq-ok
        (or_conflict _ (insert_endpoint (new_endpoint id now tenant.id e.url e.event_types) db)) _
        h in
    subst (λ o. IsValid o.0) (ok_injective e2)
      (insert_endpoint-IsValid (new_endpoint id now tenant.id e.url e.event_types) db
        (or_conflict-ok _ _ e1) v)
