-- ===== src/Models.antt =====
-- The tables of app/models: tenant, endpoint, event, delivery.
-- A UUID is the 128-bit number that it denotes, which Postgres orders in the same way. A naive
-- UTC datetime is its number of microseconds. `JsonObject` is the payload column.
use webhook_delivery_service.Base.{ℕ, String, List, Bool, Option, none, true}
use Json.{Fields}
pub mod Json

abbrev pub Uuid : Type 0
Uuid = ℕ

abbrev pub Datetime : Type 0
Datetime = ℕ

pub record Tenant : Type 0 where
  pub id : Uuid
  pub name : String
  pub api_key : String
  pub signing_secret : String
  pub created_at : Datetime

pub record Endpoint : Type 0 where
  pub id : Uuid
  pub tenant_id : Uuid
  pub url : String
  pub event_types : List String
  pub is_active : Bool
  pub created_at : Datetime

pub record Event : Type 0 where
  pub id : Uuid
  pub tenant_id : Uuid
  pub event_type : String
  pub payload : Fields
  pub idempotency_key : Option String
  pub received_at : Datetime

-- The four texts that the code writes into `delivery.status`, and the text itself.
pub data Status : Type 0 where
  pending success failed exhausted : Status

abbrev pub status_text : Status → String
status_text pending = "pending"
status_text success = "success"
status_text failed = "failed"
status_text exhausted = "exhausted"

pub record Delivery : Type 0 where
  pub id : Uuid
  pub event_id : Uuid
  pub endpoint_id : Uuid
  pub tenant_id : Uuid
  pub status : Status
  pub attempt_number : ℕ
  pub next_retry_at : Option Datetime
  pub http_status_code : Option ℕ
  pub response_body : Option String
  pub latency_ms : Option ℕ
  pub created_at : Datetime
  pub updated_at : Datetime

-- A row as `Delivery(event_id=…, endpoint_id=…, tenant_id=…)` is flushed: the column defaults.
abbrev pub new_delivery : Uuid → Datetime → Uuid → Uuid → Uuid → Delivery
new_delivery id now event_id endpoint_id tenant_id = record {
  id = id;
  event_id = event_id;
  endpoint_id = endpoint_id;
  tenant_id = tenant_id;
  status = pending;
  attempt_number = 0;
  next_retry_at = none;
  http_status_code = none;
  response_body = none;
  latency_ms = none;
  created_at = now;
  updated_at = now;
}

abbrev pub new_endpoint : Uuid → Datetime → Uuid → String → List String → Endpoint
new_endpoint id now tenant_id url event_types = record {
  id = id;
  tenant_id = tenant_id;
  url = url;
  event_types = event_types;
  is_active = true;
  created_at = now;
}

abbrev pub new_tenant : Uuid → Datetime → String → String → String → Tenant
new_tenant id now api_key signing_secret name = record {
  id = id;
  name = name;
  api_key = api_key;
  signing_secret = signing_secret;
  created_at = now;
}
