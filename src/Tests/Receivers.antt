-- ===== src/Tests/Receivers.antt =====
-- A receiver in its failure mode, and its log.
use webhook_delivery_service.Base.{ℕ, ◌≡◌, refl, none, some, [], ◌∷◌, arith}
use webhook_delivery_service.Receiver.{Incoming, Receiver, default_config, update_config}
use webhook_delivery_service.Receiver.Flaky.{statuses, fail_next_n_then_recover}
use webhook_delivery_service.Models.{success}
use webhook_delivery_service.Receiver.Delivered.{Setting, deliver_against}
use webhook_delivery_service.Receiver.Ending.{flaky_delivery_ends}
use webhook_delivery_service.Tests.Fixtures.{shop, first_delivery, reading_at}

abbrev posting : ℕ → Incoming
posting byte = record { headers = []; content = byte ∷ []; received_at = 5 }

abbrev fresh : Receiver
fresh = record { received_webhooks = []; config = default_config }

fail_next_n_then_recover_example :
    statuses
      ((posting 1) ∷ (posting 2) ∷ (posting 3) ∷ [])
      (update_config
        (record { status_code = none; delay_ms = none; fail_next_n = some 2; timeout_mode = none })
        fresh).0
    ≡ 500 ∷ 500 ∷ 200 ∷ []
fail_next_n_then_recover_example =
    fail_next_n_then_recover fresh 2 ((posting 1) ∷ (posting 2) ∷ []) ((posting 3) ∷ []) refl
      (omega arith) refl

abbrev setting : Setting
setting = record {
  incoming = posting;
  render = λ body. "body";
  reading = reading_at;
  request = record {
    url = shop.url;
    body = [];
    event_id = 20;
    event_type = "order.created";
    signature = "digest";
  };
  tenant_id = 1;
}

-- Two failures and a success.
flaky_delivery_ends_example :
    let told =
      (update_config
        (record { status_code = none; delay_ms = none; fail_next_n = some 2; timeout_mode = none })
        fresh).0 in
    ((deliver_against setting 4 0 told first_delivery).1.status ≡ success)
    × ((deliver_against setting 4 0 told first_delivery).1.attempt_number ≡ 3)
flaky_delivery_ends_example =
    flaky_delivery_ends setting fresh first_delivery 2 refl refl (omega arith) refl refl
