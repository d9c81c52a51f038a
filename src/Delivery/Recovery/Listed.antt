-- ===== src/Delivery/Recovery/Listed.antt =====
-- The rows that the recovery lists are distinct.
use webhook_delivery_service.Base.{
  ℕ, zero, suc, ◌≡◌, Bool, false, List, [], ◌∷◌, any, take, arith, Distinct, same_id, Bool-cases,
  inl, inr, refl, or_false, select,
}
use webhook_delivery_service.Base.Sort.{insert, order_by}
use webhook_delivery_service.Models.{Datetime}
use webhook_delivery_service.Database.{Database}
use webhook_delivery_service.Database.Valid.{IsValid}
use webhook_delivery_service.Delivery.Log.Query.{Distinct-select}
use webhook_delivery_service.Queries.{list_due_pending_deliveries, is_due, retry_before}

module _ {ℓ} {A : Type ℓ} where
  any-take : (p : A → Bool) (n : ℕ) (xs : List A) → any p xs ≡ false → any p (take n xs) ≡ false
  any-take p zero xs h = refl
  any-take p (suc n) [] h = refl
  any-take p (suc n) (x ∷ xs) h =
      ground
        (arith, any-take p n xs (or_false (p x) (any p xs) h).1, (or_false (p x) (any p xs) h).0)

  Distinct-take : (c : A → A → Bool) (n : ℕ) (xs : List A) → Distinct c xs → Distinct c (take n xs)
  Distinct-take c zero xs h = tt
  Distinct-take c (suc n) [] h = tt
  Distinct-take c (suc n) (x ∷ xs) h = (any-take (c x) n xs h.0, Distinct-take c n xs h.1)

  any-insert :
      (before : A → A → Bool) (p : A → Bool) (x : A) (ys : List A)
      → p x ≡ false
      → any p ys ≡ false
      → any p (insert before x ys) ≡ false
  unfolding insert
  any-insert before p x [] h k = rw h refl
  any-insert before p x (y ∷ ys) h k =
      let (first, later) = or_false (p y) (any p ys) k in
      elim (Bool-cases (before y x)) [
        | inl yes_before ↦ rw (yes_before, first) (any-insert before p x ys h later)
        | inr no_before ↦ rw (no_before, h, first) later
      ]

  pub any-order_by :
      (before : A → A → Bool) (p : A → Bool) (xs : List A)
      → any p xs ≡ false
      → any p (order_by before xs) ≡ false
  unfolding order_by
  any-order_by before p [] h = refl
  any-order_by before p (x ∷ xs) h =
      any-insert before p x (order_by before xs) (or_false (p x) (any p xs) h).0
        (any-order_by before p xs (or_false (p x) (any p xs) h).1)

module _ {ℓ} {A : Type ℓ} (key : A → ℕ) (before : A → A → Bool) where
  pub same_id-sym : (x y : A) → same_id key x y ≡ false → same_id key y x ≡ false
  same_id-sym x y h = ground (arith, h)

  Distinct-insert :
      (x : A) (ys : List A)
      → any (same_id key x) ys ≡ false
      → Distinct (same_id key) ys
      → Distinct (same_id key) (insert before x ys)
  unfolding insert
  Distinct-insert x [] h d = (refl, tt)
  Distinct-insert x (y ∷ ys) h d =
      let (first, later) = or_false (same_id key x y) (any (same_id key x) ys) h in
      elim (Bool-cases (before y x)) [
        | inl yes_before ↦ rw yes_before (
          any-insert before (same_id key y) x ys (same_id-sym x y first) d.0,
          Distinct-insert x ys later d.1,
        )
        | inr no_before ↦ rw no_before (h, d)
      ]

  order_by-Distinct :
      (xs : List A) → Distinct (same_id key) xs → Distinct (same_id key) (order_by before xs)
  unfolding order_by
  order_by-Distinct [] d = tt
  order_by-Distinct (x ∷ xs) d =
      Distinct-insert x (order_by before xs) (any-order_by before (same_id key x) xs d.0)
        (order_by-Distinct xs d.1)

-- No row is listed twice.
pub list_due-Distinct :
    (db : Database) (now : Datetime) (batch_size : ℕ)
    → IsValid db
    → Distinct (same_id (λ d. d.id)) (list_due_pending_deliveries db now batch_size)
unfolding list_due_pending_deliveries
list_due-Distinct db now batch_size v = Distinct-take (same_id (λ d. d.id)) batch_size _ (
    order_by-Distinct (λ d. d.id) (λ a b. retry_before a.next_retry_at b.next_retry_at)
      (select (is_due now) db.deliveries)
      (Distinct-select (same_id (λ d. d.id)) (is_due now) db.deliveries v.deliveries_distinct))
