-- ===== src/Api/Cursors.antt =====
-- A cursor that no page gave, through the route.
use webhook_delivery_service.Base.{
  leb-true, ℕ, ◌<◌, ◌≤◌, ◌≡◌, refl, String, Option, some, List, All, All-mono, arith,
}
use webhook_delivery_service.Models.{Uuid, Tenant}
use webhook_delivery_service.Models.Json.{utf8_encode}
use webhook_delivery_service.Errors.{ok, raised, type_error}
use webhook_delivery_service.Text.Base64.{b64encode}
use webhook_delivery_service.Text.Base64.Digits.{b64encode-IsAscii}
use webhook_delivery_service.Text.Base64.RoundTrip.{b64decode-b64encode}
use webhook_delivery_service.Text.Utf8.{IsAscii, utf8_encode-ascii, utf8_decode-ascii}
use webhook_delivery_service.Database.{Database}
use webhook_delivery_service.Tenants.{get_current_tenant}
use webhook_delivery_service.Delivery.Log.{list_delivery_logs, decode_delivery_cursor}
use webhook_delivery_service.Delivery.Cursor.{
  Value, text, no_text, dictionary, no_dictionary, Moment, Reader, member, get_text, decode_cursor,
}
use webhook_delivery_service.Delivery.Cursor.RoundTrip.{delivery_cursor}
use webhook_delivery_service.Api.{Context, get_deliveries, error_body, serve, respond}

-- JSON that is no object; or an object whose `created_at` is there and is no text; or an object whose
-- `created_at` is a text that `fromisoformat` reads, and whose `id` is there and is no text.
pub data IsMisshapen (r : Reader) (s : List ℕ) : Type 0 where
  no_object : r.loads s ≡ some no_dictionary → IsMisshapen r s
  no_time :
      (fields : List (String × Value))
      → r.loads s ≡ some (dictionary fields)
      → member "created_at" fields ≡ some no_text
      → IsMisshapen r s
  no_id :
      (fields : List (String × Value)) (at : List ℕ) (moment : Moment)
      → r.loads s ≡ some (dictionary fields)
      → member "created_at" fields ≡ some (text at)
      → r.fromisoformat at ≡ some moment
      → member "id" fields ≡ some no_text
      → IsMisshapen r s

module _ (r : Reader) (s : List ℕ) (ascii : All IsAscii s) where
  decode_cursor-misshapen :
      IsMisshapen r s → decode_cursor r (b64encode (utf8_encode s)) ≡ raised type_error
  unfolding decode_cursor get_text
  decode_cursor-misshapen h = rw (utf8_encode-ascii s ascii) (
      rw
        (
          utf8_encode-ascii _ (b64encode-IsAscii s),
          b64decode-b64encode s (All-mono IsAscii (λ b. b < 256) (λ b h. omega arith) s ascii),
          utf8_decode-ascii s ascii,
        )
        (elim h [
          | no_object e ↦ rw e refl
          | no_time fields e time ↦ rw (e, time) refl
          | no_id fields at moment e time moment_of id ↦ rw (e, time, moment_of, id) refl
        ]))

  -- A tenant that asks for 1 to 100 deliveries and sends, as its cursor, the base64 of an ASCII text of JSON
  -- gets a response with status 500, and not the 400 of a bad cursor, where the JSON is no object; where it is
  -- an object whose `created_at` is there and is no text; and where it is an object whose `created_at` is a text
  -- that `fromisoformat` reads and whose `id` is there and is no text.
  pub misshapen_cursor_is_a_500 :
      (c : Context) (db : Database) (api_key : Option String) (tenant : Tenant)
      (status : Option String) (endpoint_id : Option Uuid) (limit : ℕ)
      → get_current_tenant db api_key ≡ ok tenant
      → 1 ≤ limit
      → limit ≤ 100
      → IsMisshapen r s
      → serve
          (record c { codec = delivery_cursor r })
          db
          api_key
          (get_deliveries status endpoint_id (some (b64encode (utf8_encode s))) limit)
        ≡ respond db 500 (error_body "Internal Server Error" "")
  unfolding serve list_delivery_logs decode_delivery_cursor
  misshapen_cursor_is_a_500 c db api_key tenant status endpoint_id limit known low high h =
      rw (known, leb-true 1 limit low, leb-true limit 100 high, decode_cursor-misshapen h) refl
