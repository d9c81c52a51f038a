-- ===== src/Receiver.antt =====
-- test-receiver/main.py: the webhook consumer with failure modes. Times are in milliseconds. A reply is
-- what a caller gets that waits as long as `wait_ms`.
pub mod Flaky
pub mod Bounds
pub mod Delivered
pub mod Exchange
pub mod Ending
use webhook_delivery_service.Base.{
  ℕ, ◌+◌, String, Bool, false, Option, none, some, List, [], ◌∷◌, take, length, ltb, leb,
  if◌then◌else◌,
}
use webhook_delivery_service.Models.{Datetime}

abbrev pub max_log_size : ℕ
max_log_size = 500

pub data ResponseBody : Type 0 where
  accepted : ℕ → ResponseBody
  simulated_failure : ℕ → ℕ → ResponseBody
  empty : ResponseBody

-- `content-length` is left out of the headers.
pub record Reply : Type 0 where
  pub status_code : ℕ
  pub content_type : Option String
  pub body : ResponseBody
  pub wait_ms : ℕ

-- A request, with the time at which it is read.
pub record Incoming : Type 0 where
  pub headers : List (String × String)
  pub content : List ℕ
  pub received_at : Datetime

-- A log entry. Its body is kept as the bytes, of which the receiver shows the JSON or the text.
pub record Entry : Type 0 where
  pub id : ℕ
  pub received_at : Datetime
  pub headers : List (String × String)
  pub content : List ℕ
  pub size_bytes : ℕ
  pub response : Reply

pub record Config : Type 0 where
  pub status_code : ℕ
  pub delay_ms : ℕ
  pub fail_next_n : ℕ
  pub timeout_mode : Bool
  pub fail_count : ℕ

pub record Receiver : Type 0 where
  pub received_webhooks : List Entry
  pub config : Config

abbrev pub default_config : Config
default_config = record {
  status_code = 200;
  delay_ms = 0;
  fail_next_n = 0;
  timeout_mode = false;
  fail_count = 0;
}

-- `deque(maxlen=MAX_LOG_SIZE).appendleft`: a full deque drops its last entry.
unfoldable pub append_left : Entry → List Entry → List Entry
append_left e es = take max_log_size (e ∷ es)

abbrev pub logged : Incoming → Reply → Receiver → Receiver
logged request reply r = record r {
  received_webhooks =
      append_left
        (record {
          id = length r.received_webhooks + 1;
          received_at = request.received_at;
          headers = request.headers;
          content = request.content;
          size_bytes = length request.content;
          response = reply;
        })
        r.received_webhooks;
}

-- The last part: the configured status.
abbrev pub accept : Incoming → Receiver → Receiver × Reply
accept request r =
    let reply : Reply = record {
      status_code = r.config.status_code;
      content_type = some "application/json";
      wait_ms = r.config.delay_ms;
      body = accepted (length r.received_webhooks + 1);
    } in
    (logged request reply r, reply)

-- The part under `if config["fail_next_n"] > 0`, with the count already raised.
abbrev pub fail_or_recover : Incoming → Receiver → Receiver × Reply
fail_or_recover request r =
    let reply : Reply = record {
      status_code = 500;
      content_type = some "text/plain; charset=utf-8";
      wait_ms = r.config.delay_ms;
      body = simulated_failure r.config.fail_count r.config.fail_next_n;
    } in
    if leb r.config.fail_count r.config.fail_next_n
    then (logged request reply r, reply)
    else accept request (record r { config = record r.config { fail_next_n = 0; fail_count = 0 } })

unfoldable pub receive_webhook : Incoming → Receiver → Receiver × Reply
unfolding append_left
receive_webhook request r =
    let silent : Reply = record {
      status_code = 200;
      content_type = none;
      body = empty;
      wait_ms = 60000;
    } in
    if r.config.timeout_mode
    then (logged request silent r, silent)
    else if ltb 0 r.config.fail_next_n
    then fail_or_recover request
        (record r { config = record r.config { fail_count = r.config.fail_count + 1 } })
    else accept request r

unfoldable pub list_webhooks : ℕ → Receiver → List Entry
list_webhooks limit r = take limit r.received_webhooks

unfoldable pub clear_webhooks : Receiver → Receiver
clear_webhooks r = record r { received_webhooks = [] }

unfoldable pub get_config : Receiver → Config
get_config r = r.config

pub record ConfigUpdate : Type 0 where
  pub status_code : Option ℕ
  pub delay_ms : Option ℕ
  pub fail_next_n : Option ℕ
  pub timeout_mode : Option Bool

abbrev pub or_keep {ℓ} : {A : Type ℓ} → Option A → A → A
or_keep none a = a
or_keep (some b) a = b

-- Setting `fail_next_n` starts its count again.
abbrev pub or_zero : Option ℕ → ℕ → ℕ
or_zero none count = count
or_zero (some n) count = 0

unfoldable pub update_config : ConfigUpdate → Receiver → Receiver × Config
update_config u r =
    let c = r.config in
    let config : Config = record {
      status_code = or_keep u.status_code c.status_code;
      delay_ms = or_keep u.delay_ms c.delay_ms;
      fail_next_n = or_keep u.fail_next_n c.fail_next_n;
      timeout_mode = or_keep u.timeout_mode c.timeout_mode;
      fail_count = or_zero u.fail_next_n c.fail_count;
    } in
    (record r { config = config }, config)

unfoldable pub reset_config : Receiver → Receiver × Config
reset_config r = (record r { config = default_config }, default_config)
