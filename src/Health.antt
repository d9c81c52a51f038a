-- ===== src/Health.antt =====
-- app/api/routes/health.py and app/services/health.py. `ping` tells whether Redis answered; without an
-- answer the call raises a RedisError, which is caught and logged.
use webhook_delivery_service.Base.{ℕ, String, Bool, if◌then◌else◌, ◌≡◌, refl}

pub record HealthResponse : Type 0 where
  pub status : String
  pub app_name : String
  pub redis : String

unfoldable pub get_health_status : String → Bool → HealthResponse
get_health_status app_name ping = record {
  status = "ok";
  app_name = app_name;
  redis = if ping then "ok" else "unavailable";
}

-- The status code and the body.
unfoldable pub health_check : String → Bool → ℕ × HealthResponse
unfolding get_health_status
health_check app_name ping = (200, get_health_status app_name ping)

-- Redis may be down: the service still answers that it is up.
health_check-status :
    (app_name : String) (ping : Bool) → (health_check app_name ping).1.status ≡ "ok"
unfolding health_check
health_check-status app_name ping = refl
