-- ===== src/Delivery/Attempt.antt =====
-- `_post_and_record_delivery`: one HTTP POST and what it writes to the delivery row.
-- `requests` is a parameter, `Client`: it answers a request or raises RequestException. So is
-- `hmac.new(…, hashlib.sha256).hexdigest()`. Clocks are read from `Reading`, in microseconds.
pub mod Lifecycle
pub mod Schedule
use Prim.Native.String.{◌++◌ as text_append}
use webhook_delivery_service.Base.{
  ℕ, zero, suc, ◌+◌, ◌-◌, ◌*◌, ◌/◌, ◌<◌, String, Bool, true, false, Option, none, some, List, [],
  ◌∷◌, ◌&&◌, leb, if◌then◌else◌,
}
use webhook_delivery_service.Models.{
  Uuid, Datetime, Tenant, Endpoint, Event, Delivery, Status, pending, success, failed, exhausted,
}
use webhook_delivery_service.Models.Json.{payload_bytes}
use webhook_delivery_service.Tasks.{Task, deliver_to_endpoint, Queue, delivery_queue}

-- The request that is posted: `X-Webhook-Event-ID`, `-Type` and `-Signature` are its headers. The
-- signature header is the text `sha256=` before the digest.
pub record HttpRequest : Type 0 where
  pub url : String
  pub body : List ℕ
  pub event_id : Uuid
  pub event_type : String
  pub signature : String

pub data Reply : Type 0 where
  response : ℕ → String → Reply
  request_exception : String → Reply

abbrev pub Client : Type 0
Client = HttpRequest → Reply

abbrev pub Hmac : Type 0
Hmac = String → List ℕ → String

-- `time.perf_counter()` at both ends, `_utcnow()`, and the database's `now()` for `updated_at`.
pub record Reading : Type 0 where
  pub started_at : ℕ
  pub ended_at : ℕ
  pub utcnow : Datetime
  pub db_now : Datetime

abbrev pub retry_delays_seconds : List ℕ
retry_delays_seconds = 30 ∷ 120 ∷ 600 ∷ []

-- `RETRY_DELAYS_SECONDS[retry_index]`, with the test of its length.
abbrev pub get_elem? : List ℕ → ℕ → Option ℕ
get_elem? [] i = none
get_elem? (x ∷ xs) zero = some x
get_elem? (x ∷ xs) (suc i) = get_elem? xs i

-- `s[:n]`
unfoldable pub text_take : ℕ → String → String
text_take zero s = String.[]
text_take (suc n) String.[] = String.[]
text_take (suc n) (String.◌∷◌ c s) = String.◌∷◌ c (text_take n s)

-- `"success" if 200 <= status_code <= 299 else "failed"`
abbrev pub status_of_code : ℕ → Status
status_of_code code = if leb 200 code && leb code 299 then success else failed

-- The body of `try` and of `except requests.RequestException`.
unfoldable pub record_reply : Reply → Delivery → Delivery
unfolding text_take
record_reply (response code body) d = record d {
  http_status_code = some code;
  response_body = some (text_take 500 body);
  status = status_of_code code;
}
record_reply (request_exception message) d = record d {
  http_status_code = none;
  response_body = some (text_take 500 message);
  status = failed;
}

abbrev pub after_delay : Datetime → ℕ → Datetime
after_delay now delay = now + delay * 1000000

-- A failed attempt with `delay` left in the table, or none.
abbrev pub retry_or_exhaust : Option ℕ → Datetime → Uuid → Delivery → Delivery × List Task
retry_or_exhaust (some delay) now tenant_id d = (
  record d { status = pending; next_retry_at = some (after_delay now delay) },
  deliver_to_endpoint d.id tenant_id delivery_queue (some delay) ∷ [],
)
retry_or_exhaust none now tenant_id d = (record d { status = exhausted; next_retry_at = none }, [])

abbrev pub is_failed : Status → Bool
is_failed failed = true
is_failed _ = false

-- The part behind the POST.
unfoldable pub settle : Datetime → Uuid → Delivery → Delivery × List Task
settle now tenant_id d =
    if is_failed d.status
    then retry_or_exhaust (get_elem? retry_delays_seconds (d.attempt_number - 1)) now tenant_id d
    else (record d { next_retry_at = none }, [])

unfoldable pub build_request : Hmac → String → Endpoint → Event → HttpRequest
unfolding payload_bytes
build_request hmac signing_secret endpoint event = record {
  url = endpoint.url;
  body = payload_bytes event.payload;
  event_id = event.id;
  event_type = event.event_type;
  signature = text_append "sha256=" (hmac signing_secret (payload_bytes event.payload));
}

-- All that follows the reply, from a row whose attempt is counted.
unfoldable pub after_reply : Reading → Uuid → Reply → Delivery → Delivery × List Task
unfolding record_reply settle
after_reply reading tenant_id reply d =
    settle reading.utcnow tenant_id (record (record_reply reply d) {
      latency_ms = some ((reading.ended_at - reading.started_at) / 1000);
    })

-- The row after the attempt, and the tasks that were dispatched meanwhile.
unfoldable pub post_and_record :
    Client → Reading → HttpRequest → Uuid → Delivery → Delivery × List Task
unfolding after_reply
post_and_record client reading request tenant_id delivery =
    after_reply reading tenant_id (client request)
      (record delivery { attempt_number = delivery.attempt_number + 1 })
