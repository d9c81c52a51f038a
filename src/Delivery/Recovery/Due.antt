-- ===== src/Delivery/Recovery/Due.antt =====
-- What the recovery task lists, and what it misses.
use mathlib.Core.Option.{some-injective}
use webhook_delivery_service.Base.{
  ◌&&◌, not, ℕ, ◌≡◌, refl, sym, ◌∙◌, Bool, true, false, none, some, List, [], ◌∷◌, arith, All,
  All-take, All-select, All-zip, any, select, select_holds, Distinct, same_id, lookup, ◌==◌,
  Bool-cases, inl, inr, ==→eq, subst,
}
use webhook_delivery_service.Base.Sort.{order_by-All}
use webhook_delivery_service.Models.{Datetime, Delivery}
use webhook_delivery_service.Database.{Database}
use webhook_delivery_service.Database.Valid.{IsValid}
use webhook_delivery_service.Queries.{
  get_pending_delivery_for_update, is_claimable, is_locked, list_due_pending_deliveries, is_due,
  retry_before,
}
use webhook_delivery_service.Delivery.Once.Claim.{lookup_delivery, claim_lem}

-- Each row is found by its id.
pub All-lookup_self :
    (xs : List Delivery)
    → Distinct (same_id (λ d. d.id)) xs
    → All (λ d. lookup (λ x. x.id) d.id xs ≡ some d) xs
All-lookup_self [] h = tt
All-lookup_self (x ∷ xs) h = (ground (arith), later x xs xs h.0 (All-lookup_self xs h.1))
  where
    later :
        (x : Delivery) (ys zs : List Delivery)
        → any (same_id (λ d. d.id) x) zs ≡ false
        → All (λ d. lookup (λ y. y.id) d.id ys ≡ some d) zs
        → All (λ d. lookup (λ y. y.id) d.id (x ∷ ys) ≡ some d) zs
    later x ys [] h k = tt
    later x ys (z ∷ zs) h k = (ground arith, later x ys zs (ground arith) k.1)

-- The task of a row finds it, if it runs before anything else touches or locks the row.
abbrev pub IsClaimableTask : Datetime → Database → Delivery → Type 0
IsClaimableTask now db d = get_pending_delivery_for_update [] now db d.id d.tenant_id ≡ some d

due_claim :
    (now : Datetime) (d : Delivery)
    → is_due now d ≡ true
    → (is_claimable now d.tenant_id d && not (is_locked [] d)) ≡ true
due_claim now d h = ground arith

due_rows :
    (now : Datetime) (db : Database)
    → IsValid db
    → All (IsClaimableTask now db) (select (is_due now) db.deliveries)
due_rows now db v =
    All-zip (λ d. lookup_delivery d.id db ≡ some d) (λ d. is_due now d ≡ true)
      (IsClaimableTask now db)
      (λ d found due. rw (claim_lem [] now db d.id d.tenant_id v d found, due_claim now d due))
      (select (is_due now) db.deliveries)
      (All-select _ (is_due now) db.deliveries
        (All-lookup_self db.deliveries v.deliveries_distinct))
      (select_holds (is_due now) db.deliveries)

any_of_All :
    (p : Delivery → Bool) (xs : List Delivery) → All (λ x. p x ≡ false) xs → any p xs ≡ false
any_of_All p [] h = refl
any_of_All p (x ∷ xs) h = rw (h.0, any_of_All p xs h.1)

unscheduled-not_due :
    (now : Datetime) (d : Delivery) → d.next_retry_at ≡ none → is_due now d ≡ false
unscheduled-not_due now d e = ground arith

not_same :
    (now : Datetime) (db : Database) (d : Delivery)
    → lookup_delivery d.id db ≡ some d
    → d.next_retry_at ≡ none
    → (x : Delivery) → lookup_delivery x.id db ≡ some x
    → is_due now x ≡ true
    → (x.id == d.id) ≡ false
not_same now db d found e x h k = elim (Bool-cases (x.id == d.id)) [
  | inl same ↦
      let there : lookup_delivery d.id db ≡ some x = rw (← ==→eq x.id d.id same) h in
      let eq : d ≡ x = some-injective d x (sym found ∙ there) in
      cc (subst (λ z. is_due now z ≡ false) eq (unscheduled-not_due now d e), k)
  | inr other ↦ other
]

module _ (now : Datetime) (batch_size : ℕ) (db : Database) (v : IsValid db) where
  abbrev due : List Delivery
  due = select (is_due now) db.deliveries

  listed-All {κ} :
      (P : Delivery → Type κ) → All P due → All P (list_due_pending_deliveries db now batch_size)
  unfolding list_due_pending_deliveries
  listed-All P h =
      All-take P batch_size _
        (order_by-All (λ a b. retry_before a.next_retry_at b.next_retry_at) P due h)

  -- Each row that is listed can be claimed, where no worker holds it.
  pub listed-IsClaimableTask :
      All (IsClaimableTask now db) (list_due_pending_deliveries db now batch_size)
  listed-IsClaimableTask = listed-All _ (due_rows now db v)

  -- In a well-formed database the recovery task never lists a row that has no retry time.
  pub unscheduled_is_missed :
      (d : Delivery)
      → lookup_delivery d.id db ≡ some d
      → d.next_retry_at ≡ none
      → any (λ x. x.id == d.id) (list_due_pending_deliveries db now batch_size) ≡ false
  unscheduled_is_missed d found e =
      any_of_All (λ x. x.id == d.id) _
        (listed-All (λ x. (x.id == d.id) ≡ false)
          (All-zip (λ x. lookup_delivery x.id db ≡ some x) (λ x. is_due now x ≡ true)
            (λ x. (x.id == d.id) ≡ false) (λ x h k. not_same now db d found e x h k) due
            (All-select _ (is_due now) db.deliveries
              (All-lookup_self db.deliveries v.deliveries_distinct))
            (select_holds (is_due now) db.deliveries)))
