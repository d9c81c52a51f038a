-- ===== src/Delivery/Log/Pages.antt =====
-- Reading the whole log page by page, as a client does (scripts/load_test.py has such a loop):
-- from the first page, with the `next_cursor` of each page, until there is none.
use webhook_delivery_service.Base.{
  ℕ, zero, suc, ◌+◌, ◌≤◌, ◌<◌, ◌≡◌, refl, sym, ap, ◌∙◌, true, false, Option, none, some, List, [],
  ◌∷◌, ◌++◌, String, arith, take, get_last?, length, length-take, take_short, Bool-cases, inl, inr,
  ltb, min, select,
}
use native.Mathlib.Numerals.{add-one}
use mathlib.Core.List.{Perm, append_assoc}
use webhook_delivery_service.Base.Sort.{order_by-perm, IsSorted}
use webhook_delivery_service.Models.{Uuid, Tenant, Delivery}
use webhook_delivery_service.Errors.{Result, ok, raised}
use webhook_delivery_service.Database.{Database}
use webhook_delivery_service.Database.Valid.{IsValid}
use webhook_delivery_service.Queries.{newer}
use webhook_delivery_service.Delivery.Log.{
  Codec, DeliveryLogPage, max_delivery_log_limit, decode_delivery_cursor, encode_delivery_cursor,
  page_of, list_delivery_logs,
}
use webhook_delivery_service.Delivery.Log.Query.{
  delivery_log, is_in_log, query_start, query_after, log-IsSorted,
}

-- `body["items"]` put before what the later pages give.
abbrev pub with_items :
    List Delivery → Option (Result (List Delivery)) → Option (Result (List Delivery))
with_items items none = none
with_items items (some (raised e)) = some (raised e)
with_items items (some (ok rest)) = some (ok (items ++ rest))

-- The end of a round: go on with the page's cursor, or stop.
abbrev pub go_on :
    (Option String → Option (Result (List Delivery)))
    → List Delivery
    → Option String
    → Option (Result (List Delivery))
go_on rest items none = some (ok items)
go_on rest items (some next) = with_items items (rest (some next))

abbrev pub continue :
    (Option String → Option (Result (List Delivery)))
    → Result DeliveryLogPage
    → Option (Result (List Delivery))
continue rest (raised e) = some (raised e)
continue rest (ok page) = go_on rest page.items page.next_cursor

-- A page of `xs` with room for `n`, where there are more.
record IsFullPage (n : ℕ) (xs : List Delivery) : Type 0 where
  front : List Delivery
  last : Delivery
  rest : List Delivery
  split : xs ≡ front ++ last ∷ rest
  page : take n xs ≡ front ++ last ∷ []
  ends : get_last? (take n xs) ≡ some last
  shorter : length rest < length xs

get_last?-cons : (x y : Delivery) (ys : List Delivery) → get_last? (x ∷ y ∷ ys) ≡ get_last? (y ∷ ys)
get_last?-cons x y ys = refl

get_last?-append : (front : List Delivery) (c : Delivery) → get_last? (front ++ c ∷ []) ≡ some c
get_last?-append [] c = refl
get_last?-append (x ∷ []) c = refl
get_last?-append (x ∷ y ∷ ys) c = get_last?-append (y ∷ ys) c

full_page : (n : ℕ) (xs : List Delivery) → 1 ≤ n → n < length xs → IsFullPage n xs
full_page zero xs h k = absurd (omega arith)
full_page (suc n) [] h k = absurd (omega arith)
full_page (suc zero) (x ∷ xs) h k = record {
  front = [];
  last = x;
  rest = xs;
  split = refl;
  page = refl;
  ends = refl;
  shorter = omega arith;
}
full_page (suc (suc n)) (x ∷ xs) h k =
    let p = full_page (suc n) xs (omega arith) (omega arith) in
    let page : take (suc (suc n)) (x ∷ xs) ≡ (x ∷ p.front) ++ p.last ∷ [] =
      ap (λ l. x ∷ l) p.page in
    record {
      front = x ∷ p.front;
      last = p.last;
      rest = p.rest;
      split = ap (λ l. x ∷ l) p.split;
      page = page;
      ends = ap get_last? page ∙ get_last?-append (x ∷ p.front) p.last;
      shorter = omega (arith, p.shorter);
    }

take-take-suc : (n : ℕ) (xs : List Delivery) → take n (take (suc n) xs) ≡ take n xs
take-take-suc zero xs = refl
take-take-suc (suc n) [] = refl
take-take-suc (suc n) (x ∷ xs) = ap (λ l. x ∷ l) (take-take-suc n xs)

take-take : (n : ℕ) (xs : List Delivery) → take n (take (n + 1) xs) ≡ take n xs
take-take n xs = rw add-one (take-take-suc n xs)

-- The extra row tells whether there are more.
length-page : (n : ℕ) (xs : List Delivery) → ltb n (length (take (n + 1) xs)) ≡ ltb n (length xs)
length-page n xs = ground (arith, length-take (n + 1) xs)

module _ (codec : Codec) (db : Database) (tenant : Tenant) (status : Option String)
    (endpoint_id : Option Uuid) (limit : ℕ) where
  -- `none`: the fuel ran out.
  unfoldable pub fetch_from : ℕ → Option String → Option (Result (List Delivery))
  fetch_from zero cursor = none
  fetch_from (suc fuel) cursor =
      continue (fetch_from fuel)
        (list_delivery_logs codec db tenant status endpoint_id cursor limit)

  unfoldable pub fetch_deliveries : ℕ → Option (Result (List Delivery))
  unfolding fetch_from
  fetch_deliveries fuel = fetch_from fuel none

module _ (codec : Codec) (n : ℕ) (xs : List Delivery) where
  page_more :
      (p : IsFullPage n xs)
      → ltb n (length xs) ≡ true
      → page_of codec n (take (n + 1) xs) ≡ record {
        items = p.front ++ p.last ∷ [];
        next_cursor = some (encode_delivery_cursor codec p.last);
      }
  unfolding page_of
  page_more p more =
      let items : take n (take (n + 1) xs) ≡ p.front ++ p.last ∷ [] = take-take n xs ∙ p.page in
      rw (items, get_last?-append p.front p.last, length-page n xs ∙ more)

  page_last :
      ltb n (length xs) ≡ false
      → page_of codec n (take (n + 1) xs) ≡ record { items = xs; next_cursor = none }
  unfolding page_of
  page_last done =
      let items : take n (take (n + 1) xs) ≡ xs = take-take n xs ∙ take_short n xs (ground arith) in
      rw (items, length-page n xs ∙ done)

module _ (codec : Codec) (db : Database) (tenant : Tenant) (status : Option String)
    (endpoint_id : Option Uuid) (limit : ℕ) (v : IsValid db) (positive : 1 ≤ limit) where
  abbrev page_size : ℕ
  page_size = min limit max_delivery_log_limit

  abbrev whole : List Delivery
  whole = delivery_log db tenant.id status endpoint_id

  -- One round of the loop, when the query has found the first rows of `xs`.
  fetch_round :
      (fuel : ℕ) (cursor : Option String) (xs : List Delivery)
      → list_delivery_logs codec db tenant status endpoint_id cursor limit
        ≡ ok (page_of codec page_size (take (page_size + 1) xs))
      → ((p : IsFullPage page_size xs)
          → fetch_from codec db tenant status endpoint_id limit fuel
              (some (encode_delivery_cursor codec p.last))
            ≡ some (ok p.rest))
      → fetch_from codec db tenant status endpoint_id limit (suc fuel) cursor ≡ some (ok xs)
  unfolding fetch_from
  fetch_round fuel cursor xs page later = elim (Bool-cases (ltb page_size (length xs))) [
    | inl more ↦
        let p = full_page page_size xs (omega arith) (ground arith) in
        rw (page, page_more codec page_size xs p more, later p)
          (ap (λ l. some (ok l)) (append_assoc p.front (p.last ∷ []) p.rest ∙ sym p.split))
    | inr done ↦ rw (page, page_last codec page_size xs done)
  ]

  log_after :
      (c : Delivery) (pre post : List Delivery)
      → whole ≡ pre ++ c ∷ post
      → list_delivery_logs codec db tenant status endpoint_id
          (some (encode_delivery_cursor codec c))
          limit
        ≡ ok (page_of codec page_size (take (page_size + 1) post))
  unfolding list_delivery_logs encode_delivery_cursor decode_delivery_cursor
  log_after c pre post e = rw (
    codec.decode-encode c.created_at c.id,
    query_after db tenant.id status endpoint_id v (page_size + 1) c pre post e,
  )

  log_start :
      list_delivery_logs codec db tenant status endpoint_id none limit
      ≡ ok (page_of codec page_size (take (page_size + 1) whole))
  unfolding list_delivery_logs decode_delivery_cursor
  log_start = rw (query_start db tenant.id status endpoint_id (page_size + 1))

  fetch_after :
      (fuel : ℕ) (c : Delivery) (pre post : List Delivery)
      → whole ≡ pre ++ c ∷ post
      → length post < fuel
      → fetch_from codec db tenant status endpoint_id limit fuel
          (some (encode_delivery_cursor codec c))
        ≡ some (ok post)
  fetch_after zero c pre post e h = absurd (omega arith)
  fetch_after (suc fuel) c pre post e h =
      fetch_round fuel (some (encode_delivery_cursor codec c)) post (log_after c pre post e) (λ p.
        fetch_after fuel p.last (pre ++ c ∷ p.front) p.rest
          (e ∙ rw p.split (sym (append_assoc pre (c ∷ p.front) (p.last ∷ p.rest))))
          (omega (arith, p.shorter)))

  -- In a well-formed database, reading page by page ends after no more rounds than there are rows
  -- and one, and gives the tenant's deliveries that match: each row once, the newest first, for
  -- every page size of at least one.
  pub fetch_deliveries_complete :
      (fuel : ℕ)
      → length whole < fuel
      → (fetch_deliveries codec db tenant status endpoint_id limit fuel ≡ some (ok whole))
        × Perm whole (select (is_in_log tenant.id status endpoint_id) db.deliveries)
        × IsSorted newer whole
  unfolding fetch_deliveries delivery_log
  fetch_deliveries_complete zero h = absurd (omega arith)
  fetch_deliveries_complete (suc fuel) h = (
    fetch_round fuel none whole log_start
        (λ p. fetch_after fuel p.last p.front p.rest p.split (omega (arith, p.shorter))),
    order_by-perm newer _,
    log-IsSorted db tenant.id status endpoint_id v,
  )
