-- ===== src/LoadTest/Counts.antt =====
-- The counts that the script reads page by page.
use webhook_delivery_service.Base.{
  ℕ, zero, suc, ◌+◌, ◌≤◌, ◌<◌, ◌≡◌, refl, sym, ap, ◌∙◌, arith, Bool, ◌&&◌, Option, none, some, List,
  [], ◌∷◌, ◌++◌, map, String, length, select, ◌==◌, Bool-cases, inl, inr,
}
use mathlib.Core.Option.{some-injective}
use webhook_delivery_service.Base.Sort.{order_by, insert, length-order_by}
use webhook_delivery_service.Models.{Uuid, Tenant, Delivery, Status}
use webhook_delivery_service.Errors.{Result, ok, raised, ok_injective}
use webhook_delivery_service.Database.{Database}
use webhook_delivery_service.Database.Valid.{IsValid}
use webhook_delivery_service.Queries.{newer}
use webhook_delivery_service.Tenants.{get_current_tenant}
use webhook_delivery_service.Delivery.Log.{DeliveryLogPage, list_delivery_logs}
use webhook_delivery_service.Delivery.Log.Query.{delivery_log, is_in_log, select-both}
use webhook_delivery_service.Delivery.Log.Pages.{
  with_items, go_on, continue, fetch_from, fetch_deliveries, fetch_deliveries_complete,
}
use webhook_delivery_service.Api.{
  Context, delivery_response, serve, get_deliveries, respond, delivery_page_body,
}
use webhook_delivery_service.LoadTest.{
  ended, Counter, same_status, is_in, count_item, count_items, next_page, fetch_pages,
  fetch_delivery_status_counts,
}

-- A delivery that the script counts under a status.
abbrev pub is_counted : List Uuid → Status → Delivery → Bool
is_counted ids st d = is_in ids d.event_id && same_status d.status st

count_items-select :
    (ids : List Uuid) (ds : List Delivery) (counts : Counter) (st : Status)
    → count_items ids (map delivery_response ds) counts st
      ≡ counts st + length (select (is_counted ids st) ds)
count_items-select ids [] counts st = omega arith
count_items-select ids (d ∷ ds) counts st =
    count_items-select ids ds (count_item ids (delivery_response d) counts) st ∙ count_item-select d
  where
    count_item-select :
        (d : Delivery)
        → count_item ids (delivery_response d) counts st + length (select (is_counted ids st) ds)
          ≡ counts st + length (select (is_counted ids st) (d ∷ ds))
    count_item-select d = elim (Bool-cases (is_counted ids st d)) [
      | inl hit ↦ rw hit (omega arith)
      | inr miss ↦ rw miss refl
    ]

count_items-append :
    (ids : List Uuid) (ds es : List Delivery) (counts : Counter)
    → count_items ids (map delivery_response (ds ++ es)) counts
      ≡ count_items ids
          (map delivery_response es)
          (count_items ids (map delivery_response ds) counts)
count_items-append ids [] es counts = refl
count_items-append ids (d ∷ ds) es counts = count_items-append ids ds es _

pub length-select {ℓ} : {A : Type ℓ} (p : A → Bool) (xs : List A) → length (select p xs) ≤ length xs
length-select p [] = omega arith
length-select p (x ∷ xs) = ground (arith, length-select p xs)

length-select-insert {ℓ} :
    {A : Type ℓ} (before : A → A → Bool) (p : A → Bool) (x : A) (xs : List A)
    → length (select p (insert before x xs)) ≡ length (select p (x ∷ xs))
unfolding insert
length-select-insert before p x [] = refl
length-select-insert before p x (y ∷ ys) = ground (arith, length-select-insert before p x ys)

pub length-select-order_by {ℓ} :
    {A : Type ℓ} (before : A → A → Bool) (p : A → Bool) (xs : List A)
    → length (select p (order_by before xs)) ≡ length (select p xs)
unfolding order_by
length-select-order_by before p [] = refl
length-select-order_by before p (x ∷ xs) =
    length-select-insert before p x (order_by before xs)
    ∙ ground (arith, length-select-order_by before p xs)

same_items :
    {first items : List Delivery}
    → ◌≡◌ {A = Option (Result (List Delivery))} (some (ok first)) (some (ok items))
    → first ≡ items
same_items h = ok_injective (some-injective _ _ h)

with_items-ok :
    (first : List Delivery) (later : Option (Result (List Delivery))) {items : List Delivery}
    → with_items first later ≡ some (ok items)
    → (rest : List Delivery) × (later ≡ some (ok rest)) × (first ++ rest ≡ items)
with_items-ok first none h = cc
with_items-ok first (some (raised e)) h = cc
with_items-ok first (some (ok rest)) h = (rest, refl, same_items h)

continue-ok :
    (rest : Option String → Option (Result (List Delivery))) (page : Result DeliveryLogPage)
    {items : List Delivery}
    → continue rest page ≡ some (ok items)
    → (p : DeliveryLogPage) × (page ≡ ok p) × (go_on rest p.items p.next_cursor ≡ some (ok items))
continue-ok rest (raised e) h = cc
continue-ok rest (ok p) h = (p, refl, h)

module _ (c : Context) (db : Database) (api_key : String) (ids : List Uuid) (tenant : Tenant)
    (known : get_current_tenant db (some api_key) ≡ ok tenant) where
  served_page :
      (cursor : Option String) (page : DeliveryLogPage)
      → list_delivery_logs c.codec db tenant none none cursor 100 ≡ ok page
      → serve c db (some api_key) (get_deliveries none none cursor 100)
        ≡ respond db 200 (delivery_page_body (map delivery_response page.items) page.next_cursor)
  unfolding serve
  served_page cursor page h = rw (known, h) refl

  -- Where the pages from a cursor give deliveries, the script counts these.
  abbrev CountsFrom : ℕ → Type 0
  CountsFrom fuel =
      (cursor : Option String) (items : List Delivery) (counts : Counter)
      → fetch_from c.codec db tenant none none 100 fuel cursor ≡ some (ok items)
      → fetch_pages c db api_key ids fuel cursor counts
        ≡ some (ended (count_items ids (map delivery_response items) counts))

  next_page-counts :
      (fuel : ℕ) (first : List Delivery) (next : Option String) (items : List Delivery)
      (counts : Counter)
      → CountsFrom fuel
      → go_on (fetch_from c.codec db tenant none none 100 fuel) first next ≡ some (ok items)
      → next_page
          (fetch_pages c db api_key ids fuel)
          (count_items ids (map delivery_response first) counts)
          next
        ≡ some (ended (count_items ids (map delivery_response items) counts))
  next_page-counts fuel first none items counts ih h =
      ap (λ ds. some (ended (count_items ids (map delivery_response ds) counts))) (same_items h)
  next_page-counts fuel first (some next) items counts ih h =
      let (rest, later, same) = with_items-ok first _ h in
      ih (some next) rest (count_items ids (map delivery_response first) counts) later
      ∙ ap (λ x. some (ended x)) (sym (count_items-append ids first rest counts))
      ∙ ap (λ ds. some (ended (count_items ids (map delivery_response ds) counts))) same

  fetch_pages-counts : (fuel : ℕ) → CountsFrom fuel
  unfolding fetch_pages fetch_from
  fetch_pages-counts zero cursor items counts h = cc
  fetch_pages-counts (suc fuel) cursor items counts h =
      let (page, listed, rest) =
        continue-ok (fetch_from c.codec db tenant none none 100 fuel)
          (list_delivery_logs c.codec db tenant none none cursor 100) h in
      rw (served_page cursor page listed) (
        next_page-counts fuel page.items page.next_cursor items counts (fetch_pages-counts fuel)
          rest)

  -- The count under a status is the number of the tenant's deliveries that have the status and belong to
  -- an event of the script, when the database is well-formed and the key is the tenant's; no page is
  -- missed and none is read twice.
  pub fetch_counts_all :
      IsValid db
      → (counts : Counter) × (fetch_delivery_status_counts c db api_key ids ≡ some (ended counts))
        × ((st : Status)
            → counts st
              ≡ length
                  (select (λ d. d.tenant_id == tenant.id && is_counted ids st d) db.deliveries))
  unfolding fetch_delivery_status_counts fetch_deliveries delivery_log
  fetch_counts_all v =
      let log = delivery_log db tenant.id none none in
      let whole =
        fetch_deliveries_complete c.codec db tenant none none 100 v (omega arith)
          (suc (length db.deliveries)) (enough db.deliveries) in
      (
        count_items ids (map delivery_response log) (λ st. 0),
        fetch_pages-counts (suc (length db.deliveries)) none log (λ st. 0) whole.0,
        λ st. count_items-select ids log (λ x. 0) st ∙ counted st,
      )
    where
      enough :
          (ds : List Delivery)
          → length (order_by newer (select (is_in_log tenant.id none none) ds)) < suc (length ds)
      enough ds = omega (
        arith,
        length-order_by newer (select (is_in_log tenant.id none none) ds),
        length-select (is_in_log tenant.id none none) ds,
      )

      counted :
          (st : Status)
          → 0
              + length (
                  select
                    (is_counted ids st)
                    (order_by newer (select (is_in_log tenant.id none none) db.deliveries)))
            ≡ length (select (λ d. d.tenant_id == tenant.id && is_counted ids st d) db.deliveries)
      counted st = omega (
        arith,
        length-select-order_by newer (is_counted ids st)
            (select (is_in_log tenant.id none none) db.deliveries),
        ap length (
            select-both (is_in_log tenant.id none none) (is_counted ids st)
              (λ d. d.tenant_id == tenant.id && is_counted ids st d) (λ d. ground arith)
              db.deliveries),
      )
