-- ===== src/Delivery/Attempt/Schedule.antt =====
-- The retry schedule of a delivery whose every attempt fails.
use webhook_delivery_service.Base.{
  ℕ, ◌+◌, ◌≤◌, ◌<◌, ◌≡◌, ◌⊎◌, refl, Option, none, some, List, [], ◌∷◌, ◌++◌, arith, if◌then◌else◌,
}
use webhook_delivery_service.Models.{Uuid, Delivery, pending, exhausted}
use webhook_delivery_service.Tasks.{Task, deliver_to_endpoint, delivery_queue}
use webhook_delivery_service.Queries.{is_pending}
use webhook_delivery_service.Delivery.Attempt.{
  HttpRequest, Client, Reading, Reply, response, request_exception, after_reply, post_and_record,
  after_delay,
}
use webhook_delivery_service.Delivery.Attempt.Lifecycle.{post_and_record-IsAttempted}

-- A reply that is no 2xx, or none at all.
abbrev pub IsFailure : Reply → Type 0
IsFailure (response code body) = (code < 200) ⊎ (299 < code)
IsFailure (request_exception message) = Unit

-- One attempt: the client that answers it, the clocks, and the request.
pub record Try : Type 0 where
  pub client : Client
  pub reading : Reading
  pub request : HttpRequest

-- A row attempted again as long as it is pending, with all the tasks that this dispatches.
pub attempt_in_turn : Uuid → List Try → Delivery → Delivery × List Task
attempt_in_turn tenant_id [] d = (d, [])
attempt_in_turn tenant_id (t ∷ ts) d =
    let (d', tasks) = post_and_record t.client t.reading t.request tenant_id d in
    let (d'', more) = attempt_in_turn tenant_id ts d' in
    if is_pending d.status then (d'', tasks ++ more) else (d, [])

-- The countdowns of the dispatched tasks.
abbrev pub countdowns : List Task → List (Option ℕ)
countdowns [] = []
countdowns (deliver_to_endpoint id tenant_id q c ∷ ts) = c ∷ countdowns ts
countdowns (_ ∷ ts) = countdowns ts

-- A failed attempt before the last one, and the last.
after_reply-retry :
    (reading : Reading) (tenant_id : Uuid) (r : Reply) (d : Delivery) (n delay : ℕ)
    → IsFailure r
    → d.attempt_number ≡ n
    → ((n ≡ 1) × (delay ≡ 30)) ⊎ ((n ≡ 2) × (delay ≡ 120)) ⊎ ((n ≡ 3) × (delay ≡ 600))
    → ((after_reply reading tenant_id r d).0.status ≡ pending)
      × ((after_reply reading tenant_id r d).0.attempt_number ≡ n)
      × ((after_reply reading tenant_id r d).0.next_retry_at
          ≡ some (after_delay reading.utcnow delay))
      × ((after_reply reading tenant_id r d).1
          ≡ deliver_to_endpoint d.id tenant_id delivery_queue (some delay) ∷ [])
unfolding after_reply
after_reply-retry reading tenant_id (response code body) d n delay f e k = ground arith
after_reply-retry reading tenant_id (request_exception message) d n delay f e k = ground arith

after_reply-exhausted :
    (reading : Reading) (tenant_id : Uuid) (r : Reply) (d : Delivery)
    → IsFailure r
    → 4 ≤ d.attempt_number
    → ((after_reply reading tenant_id r d).0.status ≡ exhausted)
      × ((after_reply reading tenant_id r d).0.next_retry_at ≡ none)
      × ((after_reply reading tenant_id r d).1 ≡ [])
unfolding after_reply
after_reply-exhausted reading tenant_id (response code body) d f h = ground arith
after_reply-exhausted reading tenant_id (request_exception message) d f h = ground arith

abbrev Fails : Try → Type 0
Fails t = IsFailure (t.client t.request)

abbrev after : Uuid → Try → Delivery → Delivery
after tenant_id t d = (post_and_record t.client t.reading t.request tenant_id d).0

module _ (tenant_id : Uuid) (t : Try) (f : Fails t) (d : Delivery) (p : d.status ≡ pending) where
  try_retry :
      (n delay : ℕ)
      → d.attempt_number + 1 ≡ n
      → ((n ≡ 1) × (delay ≡ 30)) ⊎ ((n ≡ 2) × (delay ≡ 120)) ⊎ ((n ≡ 3) × (delay ≡ 600))
      → ((after tenant_id t d).status ≡ pending)
        × ((after tenant_id t d).attempt_number ≡ n)
        × ((post_and_record t.client t.reading t.request tenant_id d).1
            ≡ deliver_to_endpoint d.id tenant_id delivery_queue (some delay) ∷ [])
  unfolding post_and_record
  try_retry n delay e k =
      let r =
        after_reply-retry t.reading tenant_id (t.client t.request)
          (record d { attempt_number = d.attempt_number + 1 }) n delay f e k in
      (r.0, r.1, r.3)

  try_exhausted :
      4 ≤ d.attempt_number + 1
      → ((after tenant_id t d).status ≡ exhausted)
        × ((post_and_record t.client t.reading t.request tenant_id d).1 ≡ [])
  unfolding post_and_record
  try_exhausted h =
      let r =
        after_reply-exhausted t.reading tenant_id (t.client t.request)
          (record d { attempt_number = d.attempt_number + 1 }) f h in
      (r.0, r.2)

  in_turn_step :
      (ts : List Try)
      → attempt_in_turn tenant_id (t ∷ ts) d ≡ (
        (attempt_in_turn tenant_id ts (after tenant_id t d)).0,
        (post_and_record t.client t.reading t.request tenant_id d).1
            ++ (attempt_in_turn tenant_id ts (after tenant_id t d)).1,
      )
  unfolding attempt_in_turn
  in_turn_step ts = rw p

in_turn_done :
    (tenant_id : Uuid) (ts : List Try) (d : Delivery)
    → d.status ≡ exhausted
    → attempt_in_turn tenant_id ts d ≡ (d, [])
unfolding attempt_in_turn
in_turn_done tenant_id [] d e = refl
in_turn_done tenant_id (t ∷ ts) d e = rw e

in_turn_nil_status :
    (tenant_id : Uuid) (d : Delivery)
    → d.status ≡ pending
    → (attempt_in_turn tenant_id [] d).0.status ≡ pending
unfolding attempt_in_turn
in_turn_nil_status tenant_id d p = p

-- A pending row with no attempt whose first four attempts all fail is attempted four times: the
-- first three failures dispatch the retries after 30, 120 and 600 seconds and leave the row
-- pending, the fourth dispatches nothing and leaves it `exhausted`, and it is not attempted again.
pub failures-exhausted :
    (tenant_id : Uuid) (t1 t2 t3 t4 : Try) (ts : List Try) (d : Delivery)
    → Fails t1
    → Fails t2
    → Fails t3
    → Fails t4
    → d.status ≡ pending
    → d.attempt_number ≡ 0
    → let (d', tasks) = attempt_in_turn tenant_id (t1 ∷ t2 ∷ t3 ∷ t4 ∷ ts) d in
      (countdowns tasks ≡ some 30 ∷ some 120 ∷ some 600 ∷ [])
      × (d'.status ≡ exhausted)
      × (d'.attempt_number ≡ 4)
      × ((attempt_in_turn tenant_id (t1 ∷ t2 ∷ t3 ∷ []) d).0.status ≡ pending)
failures-exhausted tenant_id t1 t2 t3 t4 ts d f1 f2 f3 f4 p z =
    let a = after tenant_id t1 d in
    let b = after tenant_id t2 a in
    let c = after tenant_id t3 b in
    let s1 = try_retry tenant_id t1 f1 d p 1 30 (omega arith) (ground arith) in
    let s2 = try_retry tenant_id t2 f2 a s1.0 2 120 (omega arith) (ground arith) in
    let s3 = try_retry tenant_id t3 f3 b s2.0 3 600 (omega arith) (ground arith) in
    let s4 = try_exhausted tenant_id t4 f4 c s3.0 (omega arith) in
    let last = post_and_record-IsAttempted t4.client t4.reading t4.request tenant_id c in
    let e1 = in_turn_step tenant_id t1 f1 d p in
    let e2 = in_turn_step tenant_id t2 f2 a s1.0 in
    let e3 = in_turn_step tenant_id t3 f3 b s2.0 in
    let e4 = in_turn_step tenant_id t4 f4 c s3.0 ts in
    let e5 = in_turn_done tenant_id ts (after tenant_id t4 c) s4.0 in
    (
      rw (e1 (t2 ∷ t3 ∷ t4 ∷ ts), e2 (t3 ∷ t4 ∷ ts), e3 (t4 ∷ ts), e4, e5, s1.2, s2.2, s3.2, s4.1),
      rw (e1 (t2 ∷ t3 ∷ t4 ∷ ts), e2 (t3 ∷ t4 ∷ ts), e3 (t4 ∷ ts), e4, e5) s4.0,
      rw (e1 (t2 ∷ t3 ∷ t4 ∷ ts), e2 (t3 ∷ t4 ∷ ts), e3 (t4 ∷ ts), e4, e5)
          (omega (arith, last.counted, s3.1)),
      rw (e1 (t2 ∷ t3 ∷ []), e2 (t3 ∷ []), e3 []) (in_turn_nil_status tenant_id c s3.0),
    )
