-- ===== src/Worker/Batch.antt =====
-- The rows of a fan-out, as its tasks find them: with distinct ids, each with its active endpoint.
use webhook_delivery_service.Base.{
  ℕ, suc, ◌≡◌, refl, ap, sym, ◌∙◌, true, false, some, List, [], ◌∷◌, any, select, select_holds,
  String, arith, All, All-mono, All-select, ◌==◌, ==_refl, lookup, has_key, same_id, select-lookup,
  Distinct, Bool-cases, inl, inr, &&_left, any_cons, any_mono,
}
use webhook_delivery_service.Models.{Uuid, Datetime, Endpoint, Delivery, new_delivery}
use webhook_delivery_service.Errors.{ok, >>=-eq-ok, ok_injective}
use webhook_delivery_service.Database.{Database, insert_delivery}
use webhook_delivery_service.Database.Valid.{IsValid}
use webhook_delivery_service.Database.Keeps.{insert_delivery-inversion}
use webhook_delivery_service.Queries.{
  is_match, is_active_of, get_active_endpoint_for_tenant, list_active_matching_endpoints_for_tenant,
}
use webhook_delivery_service.Delivery.FanOut.{build_deliveries, insert_deliveries}
use webhook_delivery_service.Delivery.Once.Claim.{lookup_delivery}

-- In a table with distinct keys each row is found by its key.
lookup_missed {ℓ} :
    {A : Type ℓ} (key : A → ℕ) (x : A) (xs ys : List A)
    → any (same_id key x) ys ≡ false
    → All (λ y. lookup key (key y) xs ≡ some y) ys
    → All (λ y. lookup key (key y) (x ∷ xs) ≡ some y) ys
lookup_missed key x xs [] h found = tt
lookup_missed key x xs (y ∷ ys) h found =
    let other : (key x == key y) ≡ false = ground (arith, h) in
    (rw other found.0, lookup_missed key x xs ys (ground (arith, h)) found.1)

pub Distinct-lookup {ℓ} :
    {A : Type ℓ} (key : A → ℕ) (xs : List A)
    → Distinct (same_id key) xs
    → All (λ x. lookup key (key x) xs ≡ some x) xs
Distinct-lookup key [] d = tt
Distinct-lookup key (x ∷ xs) d =
    (rw (==_refl (key x)) refl, lookup_missed key x xs xs d.0 (Distinct-lookup key xs d.1))

both {ℓ κ μ} :
    {A : Type ℓ} (P : A → Type κ) (Q : A → Type μ) (xs : List A)
    → All P xs
    → All Q xs
    → All (λ x. P x × Q x) xs
both P Q [] h k = tt
both P Q (x ∷ xs) h k = ((h.0, k.0), both P Q xs h.1 k.1)

-- Each endpoint that the fan-out takes is the one that the delivery task looks up.
pub matching_found :
    (db : Database) (tenant_id : Uuid) (event_type : String)
    → IsValid db
    → All
        (λ e. get_active_endpoint_for_tenant db e.id tenant_id ≡ some e)
        (list_active_matching_endpoints_for_tenant db tenant_id event_type)
unfolding get_active_endpoint_for_tenant list_active_matching_endpoints_for_tenant
matching_found db tenant_id event_type v =
    All-mono _ _ (λ e h. active_found e h.0 h.1) _
      (both _ _ (select (is_match tenant_id event_type) db.endpoints)
        (All-select (λ e. lookup (λ x. x.id) e.id db.endpoints ≡ some e)
          (is_match tenant_id event_type) db.endpoints
          (Distinct-lookup (λ x. x.id) db.endpoints v.endpoints_distinct))
        (select_holds (is_match tenant_id event_type) db.endpoints))
  where
    active_found :
        (e : Endpoint)
        → lookup (λ x. x.id) e.id db.endpoints ≡ some e
        → is_match tenant_id event_type e ≡ true
        → get_active_endpoint_for_tenant db e.id tenant_id ≡ some e
    active_found e found match =
        select-lookup (λ x. x.id) e.id (is_active_of tenant_id) db.endpoints v.endpoints_distinct
          found
        ∙ rw (&&_left (is_active_of tenant_id e) _ match) refl

-- A key that no row has is not one that a row has.
new_key :
    (k j : Uuid) (ds : List Delivery)
    → any (λ x. j == x.id) ds ≡ false
    → any (has_key (λ d. d.id) k) ds ≡ true
    → (j == k) ≡ false
new_key k j ds fresh there = elim (Bool-cases (j == k)) [
  | inl same ↦
      let absent =
        any_mono (λ (x : Delivery). j == x.id) (λ x. x.id == k) (λ y p. ground arith) ds fresh in
      absurd (ground (arith, absent, there))
  | inr other ↦ other
]

module _ (ids : ℕ → Uuid) (now : Datetime) (event_id tenant_id : Uuid) where
  abbrev pub rows : ℕ → List Endpoint → List Delivery
  rows m es = build_deliveries ids m now event_id tenant_id es

  -- No row from number `m` on has the id.
  abbrev pub Others : Uuid → ℕ → List Endpoint → Type 0
  Others k m [] = Unit
  Others k m (e ∷ es) = ((ids m == k) ≡ false) × Others k (suc m) es

  pub record IsReady (db : Database) (m : ℕ) (e : Endpoint) (es : List Endpoint) : Type 0 where
    pub row_found :
        lookup_delivery (ids m) db ≡ some (new_delivery (ids m) now event_id e.id tenant_id)
    pub endpoint_found : get_active_endpoint_for_tenant db e.id tenant_id ≡ some e
    pub others : Others (ids m) (suc m) es

  abbrev pub AllReady : Database → ℕ → List Endpoint → Type 0
  AllReady db m [] = Unit
  AllReady db m (e ∷ es) = IsReady db m e es × AllReady db (suc m) es

  -- A row that is there keeps its id from the new ones.
  insert-Others :
      (k : Uuid) (m : ℕ) (es : List Endpoint) (db : Database) {db' : Database}
      → insert_deliveries (rows m es) db ≡ ok db'
      → any (has_key (λ d. d.id) k) db.deliveries ≡ true
      → Others k m es
  unfolding insert_deliveries build_deliveries
  insert-Others k m [] db h there = tt
  insert-Others k m (e ∷ es) db h there =
      let d = new_delivery (ids m) now event_id e.id tenant_id in
      let (db1, e1, e2) = >>=-eq-ok (insert_delivery d db) _ h in
      let (fresh, written) = insert_delivery-inversion d db e1 in
      (
        new_key k (ids m) db.deliveries fresh there,
        insert-Others k (suc m) es db1 e2
            (rw written (any_cons (has_key (λ x. x.id) k) d db.deliveries there)),
      )

  insert-lookup :
      (k : Uuid) (m : ℕ) (es : List Endpoint) (db : Database) {db' : Database}
      → insert_deliveries (rows m es) db ≡ ok db'
      → Others k m es
      → lookup_delivery k db' ≡ lookup_delivery k db
  unfolding insert_deliveries build_deliveries
  insert-lookup k m [] db h others = ap (lookup_delivery k) (sym (ok_injective h))
  insert-lookup k m (e ∷ es) db h others =
      let d = new_delivery (ids m) now event_id e.id tenant_id in
      let (db1, e1, e2) = >>=-eq-ok (insert_delivery d db) _ h in
      let (fresh, written) = insert_delivery-inversion d db e1 in
      insert-lookup k (suc m) es db1 e2 others.1 ∙ ap (lookup_delivery k) written ∙ rw others.0 refl

  insert-endpoints :
      (m : ℕ) (es : List Endpoint) (db : Database) {db' : Database}
      → insert_deliveries (rows m es) db ≡ ok db'
      → db'.endpoints ≡ db.endpoints
  unfolding insert_deliveries build_deliveries
  insert-endpoints m [] db h = ap (λ (x : Database). x.endpoints) (sym (ok_injective h))
  insert-endpoints m (e ∷ es) db h =
      let d = new_delivery (ids m) now event_id e.id tenant_id in
      let (db1, e1, e2) = >>=-eq-ok (insert_delivery d db) _ h in
      insert-endpoints (suc m) es db1 e2
      ∙ ap (λ (x : Database). x.endpoints) (insert_delivery-inversion d db e1).1

  same_endpoints :
      (db db' : Database)
      → db'.endpoints ≡ db.endpoints
      → (id : Uuid)
      → get_active_endpoint_for_tenant db' id tenant_id
        ≡ get_active_endpoint_for_tenant db id tenant_id
  unfolding get_active_endpoint_for_tenant
  same_endpoints db db' same id = rw same refl

  -- After the insert every row is ready for its task.
  pub insert-AllReady :
      (m : ℕ) (es : List Endpoint) (db : Database) {db' : Database}
      → insert_deliveries (rows m es) db ≡ ok db'
      → All (λ e. get_active_endpoint_for_tenant db e.id tenant_id ≡ some e) es
      → AllReady db' m es
  unfolding insert_deliveries build_deliveries
  insert-AllReady m [] db h found = tt
  insert-AllReady m (e ∷ es) db {db'} h found =
      let d = new_delivery (ids m) now event_id e.id tenant_id in
      let (db1, e1, e2) = >>=-eq-ok (insert_delivery d db) _ h in
      let (fresh, written) = insert_delivery-inversion d db e1 in
      let others =
        insert-Others (ids m) (suc m) es db1 e2 (rw written (rw (==_refl (ids m)) refl)) in
      let there : lookup_delivery (ids m) db1 ≡ some d = rw written (rw (==_refl (ids m)) refl) in
      (
        record {
          row_found = insert-lookup (ids m) (suc m) es db1 e2 others ∙ there;
          endpoint_found = same_endpoints db db' (insert-endpoints m (e ∷ es) db h) e.id ∙ found.0;
          others = others;
        },
        insert-AllReady (suc m) es db1 e2 (
            All-mono _ _
              (λ x h. same_endpoints db db1 (ap (λ (y : Database). y.endpoints) written) x.id ∙ h)
              es found.1),
      )

  -- A row with another id does not disturb those that are ready.
  pub AllReady-kept :
      (db db' : Database)
      → db'.endpoints ≡ db.endpoints
      → (k : Uuid) → ((j : Uuid) → (k == j) ≡ false → lookup_delivery j db' ≡ lookup_delivery j db)
      → (m : ℕ) (es : List Endpoint) → Others k m es
      → AllReady db m es
      → AllReady db' m es
  AllReady-kept db db' endpoints k kept m [] others ready = tt
  AllReady-kept db db' endpoints k kept m (e ∷ es) others ready =
      let other : (k == ids m) ≡ false = ground (arith, others.0) in
      (
        record {
          row_found = kept (ids m) other ∙ ready.0.row_found;
          endpoint_found = same_endpoints db db' endpoints e.id ∙ ready.0.endpoint_found;
          others = ready.0.others;
        },
        AllReady-kept db db' endpoints k kept (suc m) es others.1 ready.1,
      )
