-- ===== src/Tests/Attempts.antt =====
-- One delivery row through its attempts.
use webhook_delivery_service.Base.{ℕ, ◌≡◌, refl, inr, some, [], ◌∷◌, arith}
use webhook_delivery_service.Models.{exhausted, pending}
use webhook_delivery_service.Delivery.Attempt.Schedule.{
  Try, attempt_in_turn, countdowns, failures-exhausted,
}
use webhook_delivery_service.Tests.Fixtures.{first_delivery, answers, reading_at}

abbrev down : ℕ → Try
down t = record {
  client = answers 503;
  reading = reading_at t;
  request = record {
    url = "u";
    body = [];
    event_id = 20;
    event_type = "order.created";
    signature = "s";
  };
}

failures-exhausted_example :
    let (d, tasks) = attempt_in_turn 1 (down 1 ∷ down 2 ∷ down 3 ∷ down 4 ∷ []) first_delivery in
    (countdowns tasks ≡ some 30 ∷ some 120 ∷ some 600 ∷ [])
    × (d.status ≡ exhausted)
    × (d.attempt_number ≡ 4)
    × ((attempt_in_turn 1 (down 1 ∷ down 2 ∷ down 3 ∷ []) first_delivery).0.status ≡ pending)
failures-exhausted_example =
    failures-exhausted 1 (down 1) (down 2) (down 3) (down 4) [] first_delivery (inr (omega arith))
      (inr (omega arith)) (inr (omega arith)) (inr (omega arith)) refl refl
