-- ===== src/Tests/Logs.antt =====
-- Reading the delivery log of the small database.
use mathlib.Core.List.{Perm}
use webhook_delivery_service.Base.{◌≡◌, none, some, select, arith}
use webhook_delivery_service.Base.Sort.{IsSorted, order_by}
use webhook_delivery_service.Errors.{ok}
use webhook_delivery_service.Queries.{newer}
use webhook_delivery_service.Delivery.Log.Query.{delivery_log, is_in_log}
use webhook_delivery_service.Delivery.Log.Pages.{fetch_deliveries, fetch_deliveries_complete}
use webhook_delivery_service.Tests.Cursors.{cursor_codec}
use webhook_delivery_service.Tests.Fixtures.{acme, small_db, small_db-IsValid}

fetch_deliveries_complete_example :
    (fetch_deliveries cursor_codec small_db acme none none 1 2
      ≡ some (ok (delivery_log small_db 1 none none)))
    × Perm (delivery_log small_db 1 none none) (select (is_in_log 1 none none) small_db.deliveries)
    × IsSorted newer (delivery_log small_db 1 none none)
unfolding delivery_log order_by
fetch_deliveries_complete_example =
    fetch_deliveries_complete cursor_codec small_db acme none none 1 small_db-IsValid (omega arith)
      2 (omega arith)
