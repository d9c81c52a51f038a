-- ===== src/LoadTest.antt =====
-- scripts/load_test.py: a client that posts events, counts the endpoints that match, and reads the
-- delivery log until each delivery has ended. A request is answered by the routes; a response that
-- never comes (`httpx.HTTPError`) is `none` where the script handles it. Times are in milliseconds.
pub mod Counts
pub mod Expected
pub mod Waiting
use webhook_delivery_service.Base.{
  ℕ, zero, suc, ◌+◌, String, Bool, true, false, Option, none, some, List, [], ◌∷◌, ◌&&◌, ◌||◌, any,
  length, leb, ◌==◌, str_eq, if◌then◌else◌,
}
use webhook_delivery_service.Models.{Uuid, Status, status_text, success, exhausted}
use webhook_delivery_service.Models.Json.{number, end_fields, field}
use webhook_delivery_service.Database.{Database}
use webhook_delivery_service.Events.{EventCreate}
use webhook_delivery_service.Api.{
  Context, Served, Response, Body, event_body, endpoints_body, delivery_page_body, EndpointResponse,
  DeliveryListResponse, post_event, get_endpoints, get_deliveries, serve,
}

abbrev pub delivery_page_limit : ℕ
delivery_page_limit = 100

-- What a call of the script gives: a value, or the exception of `raise_for_status`, or of a body of
-- another form.
pub data Outcome {ℓ} (Value : Type ℓ) : Type ℓ where
  ended : Value → Outcome Value
  http_status_error : ℕ → Outcome Value
  bad_body : Outcome Value

abbrev id_of : Body → Option Uuid
id_of (event_body id) = some id
id_of _ = none

abbrev accepted_id : Option Response → Option Uuid
accepted_id none = none
accepted_id (some r) = if r.status_code == 200 || r.status_code == 202 then id_of r.body else none

-- `arrives`: whether the response comes back. The event may be posted either way.
unfoldable pub send_event :
    Context → Database → String → String → String → Bool → Served × Option Uuid
unfolding serve
send_event c db api_key event_type i arrives =
    let event : EventCreate = record {
      event_type = event_type;
      payload = field "i" (number i) end_fields;
      idempotency_key = none;
    } in
    let served = serve c db (some api_key) (post_event event) in
    (served, accepted_id (if arrives then some served.1 else none))

abbrev pub is_matching : String → EndpointResponse → Bool
is_matching event_type e = e.is_active && any (λ t. str_eq t event_type) e.event_types

abbrev pub count_matches : String → List EndpointResponse → ℕ
count_matches event_type [] = 0
count_matches event_type (e ∷ es) =
    let rest = count_matches event_type es in if is_matching event_type e then suc rest else rest

abbrev count_in : String → Body → Outcome ℕ
count_in event_type (endpoints_body es) = ended (count_matches event_type es)
count_in event_type _ = bad_body

-- `response.raise_for_status()`
abbrev pub checked {ℓ} : {A : Type ℓ} → Response → (Body → Outcome A) → Outcome A
checked r go = if leb 400 r.status_code then http_status_error r.status_code else go r.body

unfoldable pub count_matching_endpoints : Context → Database → String → String → Outcome ℕ
unfolding serve
count_matching_endpoints c db api_key event_type =
    checked (serve c db (some api_key) get_endpoints).1 (count_in event_type)

-- `Counter[str]`
abbrev pub Counter : Type 0
Counter = Status → ℕ

abbrev pub same_status : Status → Status → Bool
same_status a b = str_eq (status_text a) (status_text b)

abbrev pub is_in : List Uuid → Uuid → Bool
is_in ids id = any (λ k. k == id) ids

-- `if delivery["event_id"] in event_ids: counts[delivery["status"]] += 1`
abbrev pub count_item : List Uuid → DeliveryListResponse → Counter → Counter
count_item ids d counts st =
    if is_in ids d.event_id && same_status d.status st then counts st + 1 else counts st

-- The loop over the items of a page.
abbrev pub count_items : List Uuid → List DeliveryListResponse → Counter → Counter
count_items ids [] counts = counts
count_items ids (d ∷ ds) counts = count_items ids ds (count_item ids d counts)

-- The end of a round: the next page, or the counts.
abbrev pub next_page :
    (Option String → Counter → Option (Outcome Counter))
    → Counter
    → Option String
    → Option (Outcome Counter)
next_page rest counts none = some (ended counts)
next_page rest counts (some cursor) = rest (some cursor) counts

abbrev read_page :
    (Option String → Counter → Option (Outcome Counter))
    → List Uuid
    → Counter
    → Body
    → Option (Outcome Counter)
read_page rest ids counts (delivery_page_body items next_cursor) =
    next_page rest (count_items ids items counts) next_cursor
read_page rest ids counts _ = some bad_body

abbrev pub checked_page :
    (Option String → Counter → Option (Outcome Counter))
    → List Uuid
    → Counter
    → Response
    → Option (Outcome Counter)
checked_page rest ids counts r =
    if leb 400 r.status_code
    then some (http_status_error r.status_code)
    else read_page rest ids counts r.body

module _ (c : Context) (db : Database) (api_key : String) (event_ids : List Uuid) where
  -- `none`: the fuel ran out.
  unfoldable pub fetch_pages : ℕ → Option String → Counter → Option (Outcome Counter)
  unfolding serve
  fetch_pages zero cursor counts = none
  fetch_pages (suc fuel) cursor counts =
      checked_page (fetch_pages fuel) event_ids counts
        (serve c db (some api_key) (get_deliveries none none cursor delivery_page_limit)).1

  -- One round more than there are rows is enough.
  unfoldable pub fetch_delivery_status_counts : Option (Outcome Counter)
  unfolding fetch_pages
  fetch_delivery_status_counts = fetch_pages (suc (length db.deliveries)) none (λ st. 0)

-- `sum(counts[status] for status in TERMINAL_DELIVERY_STATUSES)`
abbrev pub terminal : Counter → ℕ
terminal counts = counts success + counts exhausted

abbrev pub Waited : Type 0
Waited = Counter × ℕ

module _ (c : Context) (api_key : String) (event_ids : List Uuid)
    (expected_deliveries delivery_timeout : ℕ) (tables : ℕ → Database) (elapsed : ℕ → ℕ) where
  abbrev end_of_round :
      Option (Outcome Waited) → ℕ → Option (Outcome Counter) → Option (Outcome Waited)
  end_of_round rest i none = none
  end_of_round rest i (some (http_status_error code)) = some (http_status_error code)
  end_of_round rest i (some bad_body) = some bad_body
  end_of_round rest i (some (ended counts)) =
      if leb expected_deliveries (terminal counts) || leb delivery_timeout (elapsed i)
      then some (ended (counts, elapsed i))
      else rest

  -- Round `i` reads the tables as they are then, and the clock behind that. `none`: the fuel ran out.
  unfoldable pub wait_for_deliveries : ℕ → ℕ → Option (Outcome Waited)
  wait_for_deliveries zero i = none
  wait_for_deliveries (suc fuel) i =
      end_of_round (wait_for_deliveries fuel (suc i)) i
        (fetch_delivery_status_counts c (tables i) api_key event_ids)
