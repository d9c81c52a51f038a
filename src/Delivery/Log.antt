-- ===== src/Delivery/Log.antt =====
-- `list_delivery_logs` and `get_delivery_log`. A cursor is the key of the last row of a page; its
-- text form is `Codec`, given by `encode` and `decode`.
pub mod Query
pub mod Pages
use webhook_delivery_service.Base.{
  ◌≡◌, ℕ, ◌+◌, String, Option, none, some, List, take, get_last?, length, ltb, min, if◌then◌else◌,
}
use webhook_delivery_service.Models.{Uuid, Datetime, Tenant, Delivery}
use webhook_delivery_service.Errors.{Result, ok, raised, ◌>>=◌, app_error, not_found_error}
use webhook_delivery_service.Database.{Database}
use webhook_delivery_service.Queries.{list_deliveries_by_tenant, get_delivery_by_id_for_tenant}

abbrev pub default_delivery_log_limit : ℕ
default_delivery_log_limit = 50

abbrev pub max_delivery_log_limit : ℕ
max_delivery_log_limit = 100

-- `_encode_delivery_cursor` and the `try` of `_decode_delivery_cursor`: base64 of a JSON object
-- with the two parts of the key.
pub record Codec : Type 0 where
  pub encode : Datetime → Uuid → String
  pub decode : String → Result (Datetime × Uuid)
  pub decode-encode : (at : Datetime) (id : Uuid) → decode (encode at id) ≡ ok (at, id)

pub record DeliveryLogPage : Type 0 where
  pub items : List Delivery
  pub next_cursor : Option String

module _ (codec : Codec) where
  unfoldable pub decode_delivery_cursor : Option String → Result (Option (Datetime × Uuid))
  decode_delivery_cursor none = ok none
  decode_delivery_cursor (some cursor) = codec.decode cursor >>= λ key. ok (some key)

  unfoldable pub encode_delivery_cursor : Delivery → String
  encode_delivery_cursor d = codec.encode d.created_at d.id

  -- The cursor of the last item of a page that has one.
  abbrev pub last_cursor : Option Delivery → Option String
  last_cursor none = none
  last_cursor (some d) = some (encode_delivery_cursor d)

  unfoldable pub page_of : ℕ → List Delivery → DeliveryLogPage
  unfolding encode_delivery_cursor
  page_of page_size deliveries =
      let items = take page_size deliveries in
      record {
        items = items;
        next_cursor =
            if ltb page_size (length deliveries) then last_cursor (get_last? items) else none;
      }

  unfoldable pub list_delivery_logs :
      Database → Tenant → Option String → Option Uuid → Option String → ℕ → Result DeliveryLogPage
  unfolding decode_delivery_cursor page_of
  list_delivery_logs db tenant status endpoint_id cursor limit = do
    key ← decode_delivery_cursor cursor
    let page_size = min limit max_delivery_log_limit
    ok (
        page_of page_size
          (list_deliveries_by_tenant db tenant.id status endpoint_id key (page_size + 1)))

unfoldable pub get_delivery_log : Database → Tenant → Uuid → Result Delivery
get_delivery_log db tenant delivery_id =
    elim (get_delivery_by_id_for_tenant db tenant.id delivery_id) [
      | none ↦ raised (app_error (not_found_error "Delivery not found." "DELIVERY_NOT_FOUND"))
      | some d ↦ ok d
    ]
