-- ===== src/Tests/Routes.antt =====
-- Requests to the small database.
use webhook_delivery_service.Base.{arith, ◌≡◌, refl, none, some, [], ◌∷◌, All}
use webhook_delivery_service.Tasks.{deliver_event, default_queue}
use webhook_delivery_service.Queries.{list_deliveries_by_tenant, get_tenant_by_api_key}
use webhook_delivery_service.Tenants.{get_current_tenant}
use webhook_delivery_service.Events.{ingest_event, validate_event_create_payload}
use webhook_delivery_service.Delivery.Log.{list_delivery_logs}
use webhook_delivery_service.Api.{
  Context, serve, respond, error_body, post_event, remove_endpoint, get_deliveries,
}
use webhook_delivery_service.Api.Refusal.{unknown_key_is_refused}
use webhook_delivery_service.Api.Events.{event_response, post_event_twice}
use webhook_delivery_service.Api.Cursors.{misshapen_cursor_is_a_500}
use webhook_delivery_service.Delivery.Cursor.RoundTrip.{delivery_cursor}
use webhook_delivery_service.Text.Base64.{b64encode}
use webhook_delivery_service.Models.Json.{utf8_encode}
use webhook_delivery_service.Api.Isolation.{IsAllowed, page-IsAllowed}
use webhook_delivery_service.Tests.Fixtures.{acme, small_db, first_delivery}
use webhook_delivery_service.Tests.Cursors.{small_reader, small_reader-IsMisshapen, cursor_codec}
use webhook_delivery_service.Tests.Events.{refund, after_refund}

abbrev pub context : Context
context = record {
  new_id = 21;
  now = 90;
  new_api_key = "new-key";
  new_secret = "new-secret";
  jsonb = λ p. p;
  explain = "a field is missing";
  codec = cursor_codec;
}

unknown_key_is_refused_example :
    serve context small_db (some "guess") (remove_endpoint 10)
    ≡ respond small_db 401 (error_body "Invalid API key." "AUTHENTICATION_FAILED")
unknown_key_is_refused_example =
    unknown_key_is_refused context small_db (some "guess") (remove_endpoint 10) refl

post_event_twice_example :
    serve
      (record context { new_id = 22; now = 95 })
      after_refund
      (some "acme-key")
      (post_event refund)
    ≡ event_response after_refund 200 21 []
unfolding serve get_current_tenant validate_event_create_payload ingest_event get_tenant_by_api_key
post_event_twice_example =
    post_event_twice context (record context { new_id = 22; now = 95 }) small_db (some "acme-key")
      refund "refund-1" {db' = after_refund} {status_code = 202} {id = 21}
      {tasks = deliver_event 21 1 (some "refund-1") default_queue ∷ []} refl refl

page-IsAllowed_example : All (IsAllowed 1 none none) (first_delivery ∷ [])
unfolding list_delivery_logs list_deliveries_by_tenant
page-IsAllowed_example =
    page-IsAllowed cursor_codec small_db acme none none none 10
      {page = record { items = first_delivery ∷ []; next_cursor = none }} refl

-- The cursor `W10=` is `[]`.
misshapen_cursor_is_a_500_example :
    serve
      (record context { codec = delivery_cursor small_reader })
      small_db
      (some "acme-key")
      (get_deliveries none none (some "W10=") 10)
    ≡ respond small_db 500 (error_body "Internal Server Error" "")
unfolding get_current_tenant get_tenant_by_api_key b64encode utf8_encode
misshapen_cursor_is_a_500_example =
    misshapen_cursor_is_a_500 small_reader (0x5B ∷ 0x5D ∷ []) (omega arith, (omega arith, tt))
      context small_db (some "acme-key") acme none none 10 refl (omega arith) (omega arith)
      small_reader-IsMisshapen
