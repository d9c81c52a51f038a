-- ===== src/Seed/Keys.antt =====
-- What the seed script printed can be used.
use webhook_delivery_service.Base.{
  ℕ, suc, ◌≡◌, refl, sym, ap, ◌∙◌, subst, Bool, true, false, some, List, [], ◌∷◌, All, ◌⊎◌, String,
  str_eq, eq_iff, Bool-cases, inl, inr,
}
use webhook_delivery_service.Models.{Tenant, new_endpoint}
use webhook_delivery_service.Errors.{Result, Exn, ok, raised, >>=-eq-ok, ok_injective}
use webhook_delivery_service.Database.{Database, insert_tenant, insert_endpoint}
use webhook_delivery_service.Database.Valid.{IsValid, empty, empty-IsValid}
use webhook_delivery_service.Database.Keeps.{
  insert_tenant-inversion, insert_tenant-IsValid, insert_endpoint-inversion,
  insert_endpoint-IsValid,
}
use webhook_delivery_service.Queries.{get_tenant_by_api_key}
use webhook_delivery_service.Tenants.{authenticate_tenant, get_current_tenant}
use webhook_delivery_service.Tenants.Access.{
  authenticates_new, authenticates_old, was_unknown, invalid_key,
}
use webhook_delivery_service.Seed.{
  SeedEndpoint, SeedTenant, Draws, drawn_tenant, seed_endpoints, seed_tenant, seed_all, seed,
  Seeded, seed_tenants,
}

Result-cases : {A : Type 0} (r : Result A) → ((e : Exn) × (r ≡ raised e)) ⊎ ((a : A) × (r ≡ ok a))
Result-cases (raised e) = inl (e, refl)
Result-cases (ok a) = inr (a, refl)

-- A request with the tenant's key is made by the tenant.
abbrev pub HasKey : Database → Tenant → Type 0
HasKey db t = get_current_tenant db (some t.api_key) ≡ ok t

-- The keys depend on the tenants alone.
same_keys :
    (db db' : Database)
    → db'.tenants ≡ db.tenants
    → (key : String) → get_current_tenant db' (some key) ≡ get_current_tenant db (some key)
unfolding get_current_tenant authenticate_tenant get_tenant_by_api_key
same_keys db db' same key = rw same refl

-- A tenant that is inserted has no key of another one.
HasKey-insert :
    (t : Tenant) (db : Database) {db' : Database}
    → insert_tenant t db ≡ ok db'
    → (u : Tenant) → HasKey db u
    → HasKey db' u
HasKey-insert t db e u h =
    let (fresh, written) = insert_tenant-inversion t db e in
    subst (λ d. HasKey d u) (sym written)
      (elim (Bool-cases (str_eq t.api_key u.api_key)) [
        | inl same ↦
            let taken : ok u ≡ raised invalid_key =
              sym h
              ∙ subst (λ k. get_current_tenant db (some k) ≡ raised invalid_key)
                  ((eq_iff t.api_key u.api_key).0 same) (was_unknown t db fresh) in
            cc
        | inr other ↦ authenticates_old t db u.api_key other ∙ h
      ])

module _ (draws : Draws) where
  seed_endpoints-tenants :
      (k j : ℕ) (es : List SeedEndpoint) (db : Database) {db' : Database}
      → seed_endpoints draws k j es db ≡ ok db'
      → db'.tenants ≡ db.tenants
  unfolding seed_endpoints
  seed_endpoints-tenants k j [] db h = sym (ap (λ (d : Database). d.tenants) (ok_injective h))
  seed_endpoints-tenants k j (e ∷ es) db h =
      let x =
        new_endpoint (draws.endpoint_id k j) draws.now (draws.tenant_id k) e.url e.event_types in
      let (db1, first, rest) = >>=-eq-ok (insert_endpoint x db) _ h in
      seed_endpoints-tenants k (suc j) es db1 rest
      ∙ ap (λ (d : Database). d.tenants) (insert_endpoint-inversion x db first).2

  seed_endpoints-IsValid :
      (k j : ℕ) (es : List SeedEndpoint) (db : Database) {db' : Database}
      → seed_endpoints draws k j es db ≡ ok db'
      → IsValid db
      → IsValid db'
  unfolding seed_endpoints
  seed_endpoints-IsValid k j [] db h v = subst IsValid (ok_injective h) v
  seed_endpoints-IsValid k j (e ∷ es) db h v =
      let x =
        new_endpoint (draws.endpoint_id k j) draws.now (draws.tenant_id k) e.url e.event_types in
      let (db1, first, rest) = >>=-eq-ok (insert_endpoint x db) _ h in
      seed_endpoints-IsValid k (suc j) es db1 rest (insert_endpoint-IsValid x db first v)

  -- What one round of the loop does, when it commits.
  record IsRound (db : Database) (out : Database × Tenant) : Type 0 where
    valid : IsValid db → IsValid out.0
    new_key : HasKey out.0 out.1
    old_keys : (u : Tenant) → HasKey db u → HasKey out.0 u

  seed_tenant-IsRound :
      (k : ℕ) (s : SeedTenant) (db : Database) {out : Database × Tenant}
      → seed_tenant draws k s db ≡ ok out
      → IsRound db out
  unfolding seed_tenant
  seed_tenant-IsRound k s db h =
      let t = drawn_tenant draws k s in
      let (db1, inserted, rest) = >>=-eq-ok (insert_tenant t db) _ h in
      let (db2, added, last) = >>=-eq-ok (seed_endpoints draws k 0 s.endpoints db1) _ rest in
      let keys = same_keys db1 db2 (seed_endpoints-tenants k 0 s.endpoints db1 added) in
      subst (IsRound db) (ok_injective last) (record {
        valid = λ v.
            seed_endpoints-IsValid k 0 s.endpoints db1 added
              (insert_tenant-IsValid t db inserted v);
        new_key =
            keys t.api_key
            ∙ subst (λ d. HasKey d t) (sym (insert_tenant-inversion t db inserted).1)
                (authenticates_new t db);
        old_keys = λ u known. keys u.api_key ∙ HasKey-insert t db inserted u known;
      })

  -- The whole loop.
  record IsRun (db : Database) (out : Seeded draws) : Type 0 where
    valid : IsValid db → IsValid out.tables
    printed_keys : All (HasKey out.tables) out.printed
    old_keys : (u : Tenant) → HasKey db u → HasKey out.tables u

  seed_all-IsRun :
      (k : ℕ) (ss : List SeedTenant) (db : Database) → IsRun db (seed_all draws k ss db)
  unfolding seed_all
  seed_all-IsRun k [] db = record { valid = λ v. v; printed_keys = tt; old_keys = λ u h. h }
  seed_all-IsRun k (s ∷ ss) db = elim (Result-cases (seed_tenant draws k s db)) [
    | inl (e, failed) ↦
        rw failed (record { valid = λ v. v; printed_keys = tt; old_keys = λ u h. h })
    | inr (out, done) ↦
        let round = seed_tenant-IsRound k s db done in
        let later = seed_all-IsRun (suc k) ss out.0 in
        rw done (record {
          valid = λ v. later.valid (round.valid v);
          printed_keys = (later.old_keys out.1 round.new_key, later.printed_keys);
          old_keys = λ u h. later.old_keys u (round.old_keys u h);
        })
  ]

  -- On well-formed tables the script leaves well-formed tables, whether it runs through or fails on
  -- the way, with or without `--reset`, and whatever ids and keys are drawn; and a request with the
  -- API key of a tenant that it printed is made by that tenant.
  pub seed-IsUsable :
      (should_reset : Bool) (db : Database)
      → IsValid db
      → IsValid (seed draws should_reset db).tables
        × All (HasKey (seed draws should_reset db).tables) (seed draws should_reset db).printed
  unfolding seed
  seed-IsUsable true db v =
      let run = seed_all-IsRun 0 seed_tenants empty in (run.valid empty-IsValid, run.printed_keys)
  seed-IsUsable false db v =
      let run = seed_all-IsRun 0 seed_tenants db in (run.valid v, run.printed_keys)
