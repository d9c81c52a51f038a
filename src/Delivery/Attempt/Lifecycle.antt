-- ===== src/Delivery/Attempt/Lifecycle.antt =====
-- The life of a delivery row: which attempt numbers, retry times and answers go with which status.
use webhook_delivery_service.Base.{
  ℕ, zero, suc, ◌+◌, ◌≤◌, ◌≡◌, Option, none, some, arith, String, length,
}
use webhook_delivery_service.Models.{
  Uuid, Datetime, Delivery, Status, pending, success, failed, exhausted,
}
use webhook_delivery_service.Models.Json.{codes}
use webhook_delivery_service.Delivery.Attempt.{
  HttpRequest, Client, Reading, Reply, response, request_exception, text_take, post_and_record,
  after_reply,
}

-- `next_retry_at` is set exactly on a row that waits for a retry.
abbrev pub Waits : ℕ → Option Datetime → Type 0
Waits a none = a ≡ 0
Waits a (some t) = (1 ≤ a) × (a ≤ 3)

abbrev pub IsSuccessCode : Option ℕ → Type 0
IsSuccessCode none = ⊥
IsSuccessCode (some c) = (200 ≤ c) × (c ≤ 299)

abbrev pub HasLifecycle : Status → ℕ → Option Datetime → Option ℕ → Type 0
HasLifecycle pending a next code = Waits a next
HasLifecycle success a next code = (1 ≤ a) × (a ≤ 4) × (next ≡ none) × IsSuccessCode code
HasLifecycle failed a next code = a ≤ 3
HasLifecycle exhausted a next code = (a ≡ 4) × (next ≡ none)

abbrev pub IsShort : Option String → Type 0
IsShort none = Unit
IsShort (some s) = length (codes s) ≤ 500

-- What holds of every row of the delivery table.
pub record IsRow (d : Delivery) : Type 0 where
  pub lifecycle : HasLifecycle d.status d.attempt_number d.next_retry_at d.http_status_code
  pub short : IsShort d.response_body

length-text_take : (n : ℕ) (s : String) → length (codes (text_take n s)) ≤ n
unfolding text_take
length-text_take zero s = omega arith
length-text_take (suc n) String.[] = omega arith
length-text_take (suc n) (String.◌∷◌ c s) = omega (arith, length-text_take n s)

-- What an attempt never touches, and the count that it raises by one.
pub record IsAttempted (d d' : Delivery) : Type 0 where
  pub same_id : d'.id ≡ d.id
  pub same_event : d'.event_id ≡ d.event_id
  pub same_endpoint : d'.endpoint_id ≡ d.endpoint_id
  pub same_tenant : d'.tenant_id ≡ d.tenant_id
  pub same_created_at : d'.created_at ≡ d.created_at
  pub counted : d'.attempt_number ≡ d.attempt_number + 1

after_reply-IsAttempted :
    (reading : Reading) (tenant_id : Uuid) (r : Reply) (d : Delivery)
    → IsAttempted d
        (after_reply reading tenant_id r (record d { attempt_number = d.attempt_number + 1 })).0
unfolding after_reply
after_reply-IsAttempted reading tenant_id (response code body) d = ground arith
after_reply-IsAttempted reading tenant_id (request_exception message) d = ground arith

-- An attempt is counted once, and moves the row to no other event, endpoint or tenant.
pub post_and_record-IsAttempted :
    (client : Client) (reading : Reading) (request : HttpRequest) (tenant_id : Uuid) (d : Delivery)
    → IsAttempted d (post_and_record client reading request tenant_id d).0
unfolding post_and_record
post_and_record-IsAttempted client reading request tenant_id d =
    after_reply-IsAttempted reading tenant_id (client request) d

after_reply-IsRow :
    (reading : Reading) (tenant_id : Uuid) (r : Reply) (d : Delivery)
    → 1 ≤ d.attempt_number
    → d.attempt_number ≤ 4
    → IsRow (after_reply reading tenant_id r d).0
unfolding after_reply
after_reply-IsRow reading tenant_id (response code body) d h k =
    ground (arith, length-text_take 500 body)
after_reply-IsRow reading tenant_id (request_exception message) d h k =
    ground (arith, length-text_take 500 message)

-- A pending row has attempts left.
pub pending_count : (d : Delivery) → IsRow d → d.status ≡ pending → d.attempt_number ≤ 3
pending_count d row p = ground arith

-- The attempt of a pending row gives a row again.
pub post_and_record-IsRow :
    (client : Client) (reading : Reading) (request : HttpRequest) (tenant_id : Uuid) (d : Delivery)
    → IsRow d
    → d.status ≡ pending
    → IsRow (post_and_record client reading request tenant_id d).0
unfolding post_and_record
post_and_record-IsRow client reading request tenant_id d row p =
    after_reply-IsRow reading tenant_id (client request) _ (omega arith)
      (omega (arith, pending_count d row p))
