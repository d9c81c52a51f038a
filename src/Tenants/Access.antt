-- ===== src/Tenants/Access.antt =====
-- Who a request is made by, and what creating a tenant keeps.
use webhook_delivery_service.Base.{
  ◌≡◌, refl, sym, ap, ◌∙◌, subst, true, false, some, ◌∷◌, arith, any, any_mono, select-nil, String,
  str_eq, eq_iff,
}
use webhook_delivery_service.Models.{Uuid, Datetime, Tenant, new_tenant}
use webhook_delivery_service.Errors.{
  Result, ok, raised, Exn, app_error, runtime_error, data_error, integrity_error, type_error,
  authentication_error, >>=-eq-ok, ok_injective,
}
use webhook_delivery_service.Database.{Database, tenant_clash, insert_tenant}
use webhook_delivery_service.Database.Valid.{IsValid}
use webhook_delivery_service.Database.Keeps.{insert_tenant-IsValid, insert_tenant-inversion}
use webhook_delivery_service.Queries.{get_tenant_by_api_key}
use webhook_delivery_service.Tenants.{
  or_tenant_conflict, create_tenant, authenticate_tenant, get_current_tenant,
}

or_tenant_conflict-ok : {A : Type 0} (r : Result A) {a : A} → or_tenant_conflict r ≡ ok a → r ≡ ok a
or_tenant_conflict-ok (ok b) h = h
or_tenant_conflict-ok (raised integrity_error) h = cc
or_tenant_conflict-ok (raised (app_error e)) h = cc
or_tenant_conflict-ok (raised (runtime_error e)) h = cc
or_tenant_conflict-ok (raised data_error) h = cc
or_tenant_conflict-ok (raised type_error) h = cc

pub create-inversion :
    (id : Uuid) (now : Datetime) (api_key signing_secret : String) (db : Database) (name : String)
    {out : Database × Tenant}
    → create_tenant id now api_key signing_secret db name ≡ ok out
    → (insert_tenant (new_tenant id now api_key signing_secret name) db ≡ ok out.0)
      × (out.1 ≡ new_tenant id now api_key signing_secret name)
unfolding create_tenant
create-inversion id now api_key signing_secret db name h =
    let (db', e1, e2) =
      >>=-eq-ok
        (or_tenant_conflict (insert_tenant (new_tenant id now api_key signing_secret name) db)) _
        h in
    (
      or_tenant_conflict-ok _ e1 ∙ ap (λ o. ok o.0) (ok_injective e2),
      sym (ap (λ o. o.1) (ok_injective e2)),
    )

pub create_tenant-IsValid :
    (id : Uuid) (now : Datetime) (api_key signing_secret : String) (db : Database) (name : String)
    {out : Database × Tenant}
    → create_tenant id now api_key signing_secret db name ≡ ok out
    → IsValid db
    → IsValid out.0
create_tenant-IsValid id now api_key signing_secret db name h v =
    insert_tenant-IsValid (new_tenant id now api_key signing_secret name) db
      (create-inversion id now api_key signing_secret db name h).0 v

str_eq_refl : (s : String) → str_eq s s ≡ true
str_eq_refl s = (eq_iff s s).1 refl

clash_of_key : (t u : Tenant) → str_eq u.api_key t.api_key ≡ true → tenant_clash t u ≡ true
clash_of_key t u h =
    let same : str_eq t.api_key u.api_key ≡ true =
      subst (λ k. str_eq t.api_key k ≡ true) (sym ((eq_iff u.api_key t.api_key).0 h))
        (str_eq_refl t.api_key) in
    ground arith

abbrev pub invalid_key : Exn
invalid_key = app_error (authentication_error "Invalid API key." "AUTHENTICATION_FAILED")

module _ (t : Tenant) (db : Database) where
  pub authenticates_new :
      get_current_tenant (record db { tenants = t ∷ db.tenants }) (some t.api_key) ≡ ok t
  unfolding get_current_tenant authenticate_tenant get_tenant_by_api_key
  authenticates_new = rw (str_eq_refl t.api_key)

  pub authenticates_old :
      (key : String)
      → str_eq t.api_key key ≡ false
      → get_current_tenant (record db { tenants = t ∷ db.tenants }) (some key)
        ≡ get_current_tenant db (some key)
  unfolding get_current_tenant authenticate_tenant get_tenant_by_api_key
  authenticates_old key h = rw h

  pub was_unknown :
      any (tenant_clash t) db.tenants ≡ false
      → get_current_tenant db (some t.api_key) ≡ raised invalid_key
  unfolding get_current_tenant authenticate_tenant get_tenant_by_api_key
  was_unknown h = rw (
      select-nil (λ u. str_eq u.api_key t.api_key) db.tenants
        (any_mono (tenant_clash t) (λ u. str_eq u.api_key t.api_key) (clash_of_key t) db.tenants h))

-- When a tenant is created, its API key was nobody's before, a request with it is now made by that tenant, and
-- a request with any other key is answered as it was before.
pub created_tenant_authenticates :
    (id : Uuid) (now : Datetime) (api_key signing_secret : String) (db : Database) (name : String)
    (key : String) {out : Database × Tenant}
    → create_tenant id now api_key signing_secret db name ≡ ok out
    → str_eq api_key key ≡ false
    → (get_current_tenant db (some api_key) ≡ raised invalid_key)
      × (get_current_tenant out.0 (some api_key) ≡ ok out.1)
      × (get_current_tenant out.0 (some key) ≡ get_current_tenant db (some key))
created_tenant_authenticates id now api_key signing_secret db name key {out = out} h ne =
    let t : Tenant = new_tenant id now api_key signing_secret name in
    let (e1, e2) = create-inversion id now api_key signing_secret db name h in
    let (fresh, written) = insert_tenant-inversion t db e1 in
    (
      was_unknown t db fresh,
      ap (λ d. get_current_tenant d (some api_key)) written
          ∙ authenticates_new t db
          ∙ ap ok (sym e2),
      ap (λ d. get_current_tenant d (some key)) written ∙ authenticates_old t db key ne,
    )
