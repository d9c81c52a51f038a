-- ===== src/Delivery/Log/Query.antt =====
-- The delivery log as one sorted list, and what the query returns at the start and after a cursor.
use webhook_delivery_service.Base.{
  ℕ, ◌≡◌, refl, sym, ap, ◌∙◌, Bool, true, false, ◌&&◌, Option, none, some, List, [], ◌∷◌, ◌++◌,
  or_false, String, arith, All, Distinct, same_id, select, take, ◌==◌, any, inl, inr, Bool-cases,
}
use webhook_delivery_service.Base.Sort.{
  order_by, order_by-IsSorted, select-order_by, select-after, IsSorted, AllComparable,
}
use webhook_delivery_service.Models.{Uuid, Delivery}
use webhook_delivery_service.Database.{Database}
use webhook_delivery_service.Database.Valid.{IsValid}
use webhook_delivery_service.Queries.{list_deliveries_by_tenant, newer, has_status, has_endpoint_id}

abbrev pub is_in_log : Uuid → Option String → Option Uuid → Delivery → Bool
is_in_log tenant_id status endpoint_id d =
    d.tenant_id == tenant_id && (has_status status d && has_endpoint_id endpoint_id d)

-- The whole log that a tenant asks for, newest first.
unfoldable pub delivery_log : Database → Uuid → Option String → Option Uuid → List Delivery
delivery_log db tenant_id status endpoint_id =
    order_by newer (select (is_in_log tenant_id status endpoint_id) db.deliveries)

newer-trans : (x y z : Delivery) → newer x y ≡ true → newer y z ≡ true → newer x z ≡ true
newer-trans x y z h k = ground arith

newer-asym : (x y : Delivery) → newer x y ≡ true → newer y x ≡ false
newer-asym x y h = ground arith

newer-total : (x y : Delivery) → (x.id == y.id) ≡ false → newer y x ≡ false → newer x y ≡ true
newer-total x y ne h = ground arith

-- Rows with distinct ids are comparable.
comparable_all :
    (x : Delivery) (ys : List Delivery)
    → any (same_id (λ d. d.id) x) ys ≡ false
    → All (λ y. newer y x ≡ false → newer x y ≡ true) ys
comparable_all x [] h = tt
comparable_all x (y ∷ ys) h =
    let parts = or_false (x.id == y.id) (any (same_id (λ (d : Delivery). d.id) x) ys) h in
    (newer-total x y parts.0, comparable_all x ys parts.1)

rows-AllComparable :
    (xs : List Delivery)
    → Distinct (same_id (λ d. d.id)) xs
    → AllComparable newer newer-trans newer-asym xs
rows-AllComparable [] d = tt
rows-AllComparable (x ∷ xs) d = (comparable_all x xs d.0, rows-AllComparable xs d.1)

any-select {ℓ} :
    {A : Type ℓ} (p q : A → Bool) (xs : List A) → any p xs ≡ false → any p (select q xs) ≡ false
any-select p q [] h = refl
any-select p q (x ∷ xs) h = ground (arith, any-select p q xs)

pub Distinct-select {ℓ} :
    {A : Type ℓ} (clash : A → A → Bool) (q : A → Bool) (xs : List A)
    → Distinct clash xs
    → Distinct clash (select q xs)
Distinct-select clash q [] d = tt
Distinct-select clash q (x ∷ xs) d = elim (Bool-cases (q x)) [
  | inl hit ↦ rw hit (any-select (clash x) q xs d.0, Distinct-select clash q xs d.1)
  | inr miss ↦ rw miss (Distinct-select clash q xs d.1)
]

pub select-both {ℓ} :
    {A : Type ℓ} (p q r : A → Bool)
    → ((x : A) → r x ≡ (p x && q x))
    → (xs : List A) → select r xs ≡ select q (select p xs)
select-both p q r same [] = refl
select-both p q r same (x ∷ xs) = ground (arith, same x, select-both p q r same xs)

module _ (db : Database) (tenant_id : Uuid) (status : Option String)
    (endpoint_id : Option Uuid) where
  pub query_start :
      (n : ℕ)
      → list_deliveries_by_tenant db tenant_id status endpoint_id none n
        ≡ take n (delivery_log db tenant_id status endpoint_id)
  unfolding list_deliveries_by_tenant delivery_log
  query_start n = ap (λ rows. take n (order_by newer rows)) (select_same db.deliveries)
    where
      select_same :
          (xs : List Delivery)
          → select
              (λ d.
                d.tenant_id == tenant_id
                && (has_status status d && (has_endpoint_id endpoint_id d && true)))
              xs
            ≡ select (is_in_log tenant_id status endpoint_id) xs
      select_same [] = refl
      select_same (x ∷ xs) = ground (arith, select_same xs)

module _ (db : Database) (tenant_id : Uuid) (status : Option String) (endpoint_id : Option Uuid)
    (v : IsValid db) where
  log-AllComparable :
      AllComparable newer newer-trans newer-asym
        (select (is_in_log tenant_id status endpoint_id) db.deliveries)
  log-AllComparable = rows-AllComparable _ (Distinct-select _ _ db.deliveries v.deliveries_distinct)

  pub log-IsSorted : IsSorted newer (delivery_log db tenant_id status endpoint_id)
  unfolding delivery_log
  log-IsSorted = order_by-IsSorted newer newer-trans newer-asym _ log-AllComparable

  -- After the cursor of a row the query goes on behind that row.
  pub query_after :
      (n : ℕ) (c : Delivery) (pre post : List Delivery)
      → delivery_log db tenant_id status endpoint_id ≡ pre ++ c ∷ post
      → list_deliveries_by_tenant db tenant_id status endpoint_id (some (c.created_at, c.id)) n
        ≡ take n post
  unfolding list_deliveries_by_tenant delivery_log
  query_after n c pre post e =
      let split =
        select-both (is_in_log tenant_id status endpoint_id) (newer c)
          (λ d.
            d.tenant_id == tenant_id
            && (has_status status d && (has_endpoint_id endpoint_id d && newer c d)))
          (λ d. ground arith) db.deliveries in
      let moved =
        select-order_by newer newer-trans newer-asym (newer c)
          (select (is_in_log tenant_id status endpoint_id) db.deliveries) log-AllComparable in
      ap (λ rows. take n rows)
        (ap (order_by newer) split
          ∙ sym moved
          ∙ rw e (select-after newer newer-trans newer-asym c pre post (rw e at log-IsSorted)))
