-- ===== src/Delivery/Once/Retry.antt =====
-- The retry that a failed attempt schedules.
use webhook_delivery_service.Base.{
  ℕ, ◌≤◌, ◌≡◌, true, false, ◌&&◌, not, some, List, [], ◌∷◌, arith, String, any, ◌==◌, ◌∙◌,
}
use webhook_delivery_service.Models.{Uuid, Datetime, Tenant, Endpoint, Event, Delivery, pending}
use webhook_delivery_service.Tasks.{deliver_to_endpoint, Queue}
use webhook_delivery_service.Database.{Database}
use webhook_delivery_service.Database.Valid.{IsValid}
use webhook_delivery_service.Delivery.Attempt.{
  Client, Reading, HttpRequest, Reply, response, request_exception, after_reply, post_and_record,
  build_request, after_delay,
}
use webhook_delivery_service.Delivery.Attempt.Lifecycle.{post_and_record-IsAttempted}
use webhook_delivery_service.Delivery.Once.{
  Surroundings, Run, give_up, attempt, deliver_to_endpoint_once,
}
use webhook_delivery_service.Queries.{get_pending_delivery_for_update, is_claimable, is_locked}
use webhook_delivery_service.Delivery.Once.Claim.{IsClaimed, claim_lem}
use webhook_delivery_service.Delivery.Once.Commit.{lookup-commit_self, stamped}
use webhook_delivery_service.Delivery.Once.Cases.{once_cases, IsLookedUp}
use webhook_delivery_service.Delivery.Once.Invariant.{deliver_to_endpoint_once-IsValid}

-- What a dispatch with a countdown says of the row.
Schedules : Datetime → Uuid → Delivery → Uuid → Uuid → ℕ → Type 0
Schedules now tenant_id d' id t delay =
    (d'.id ≡ id)
    × (t ≡ tenant_id)
    × (d'.status ≡ pending)
    × (d'.next_retry_at ≡ some (after_delay now delay))

after_reply-Schedules :
    (reading : Reading) (tenant_id : Uuid) (r : Reply) (d : Delivery) (id t : Uuid) (q : Queue)
    (delay : ℕ)
    → (after_reply reading tenant_id r d).1 ≡ deliver_to_endpoint id t q (some delay) ∷ []
    → Schedules reading.utcnow tenant_id (after_reply reading tenant_id r d).0 id t delay
unfolding after_reply Schedules
after_reply-Schedules reading tenant_id (response code body) d id t q delay e = ground arith
after_reply-Schedules reading tenant_id (request_exception message) d id t q delay e = ground arith

post_and_record-Schedules :
    (client : Client) (reading : Reading) (request : HttpRequest) (tenant_id : Uuid) (d : Delivery)
    (id t : Uuid) (q : Queue) (delay : ℕ)
    → (post_and_record client reading request tenant_id d).1
      ≡ deliver_to_endpoint id t q (some delay) ∷ []
    → let d' = (post_and_record client reading request tenant_id d).0 in
      (d'.status ≡ pending) × (d'.next_retry_at ≡ some (after_delay reading.utcnow delay))
unfolding post_and_record Schedules
post_and_record-Schedules client reading request tenant_id d id t q delay e =
    let k = after_reply-Schedules reading tenant_id (client request) _ id t q delay e in (k.2, k.3)

-- The claim of a row that waits for a retry, at its time or later.
waiting_claim :
    (locked : List Uuid) (now t : Datetime) (tenant_id : Uuid) (d : Delivery)
    → d.tenant_id ≡ tenant_id
    → d.status ≡ pending
    → d.next_retry_at ≡ some t
    → t ≤ now
    → is_locked locked d ≡ false
    → (is_claimable now tenant_id d && not (is_locked locked d)) ≡ true
waiting_claim locked now t tenant_id d e1 e2 e3 h free = ground arith

abbrev Retries : Surroundings → Uuid → Uuid → Run → Type 0
Retries s id tenant_id r =
    (q : Queue) (delay : ℕ) (locked : List Uuid) (now : Datetime)
    → IsValid r.database
    → s.commits ≡ true
    → r.dispatched ≡ deliver_to_endpoint id tenant_id q (some delay) ∷ []
    → any (λ k. k == id) locked ≡ false
    → after_delay s.reading.utcnow delay ≤ now
    → (d : Delivery) × (get_pending_delivery_for_update locked now r.database id tenant_id ≡ some d)

module _ (s : Surroundings) (db : Database) (id tenant_id : Uuid) where
  give_up-Retries :
      (d : Delivery)
      → IsClaimed db id tenant_id d
      → (message : String) → Retries s id tenant_id (give_up s db message d)
  give_up-Retries d c message q delay locked now v e dispatched free h = cc

  attempt-Retries :
      (d : Delivery) (endpoint : Endpoint) (event : Event) (tenant : Tenant)
      → IsClaimed db id tenant_id d
      → IsLookedUp db tenant_id d endpoint event tenant
      → Retries s id tenant_id (attempt s db tenant_id d endpoint event tenant)
  attempt-Retries d endpoint event tenant c l q delay locked now v e dispatched free h =
      let request = build_request s.hmac tenant.signing_secret endpoint event in
      let d' = (post_and_record s.client s.reading request tenant_id d).0 in
      let a = post_and_record-IsAttempted s.client s.reading request tenant_id d in
      let k =
        post_and_record-Schedules s.client s.reading request tenant_id d id tenant_id q delay
          dispatched in
      let same : (stamped s d').id ≡ id = a.same_id ∙ c.same_id in
      (
        stamped s d',
        rw (
          claim_lem locked now _ id tenant_id v (stamped s d')
              (lookup-commit_self s db d' id tenant_id d c a.same_id e),
          waiting_claim locked now (after_delay s.reading.utcnow delay) tenant_id (stamped s d')
              (a.same_tenant ∙ c.same_tenant) k.0 k.1 h (rw same free),
        ),
      )

  -- The task that a failed attempt dispatches with a countdown is not in vain: where the attempt
  -- committed, in a well-formed database, the task claims the delivery when it runs at the end of
  -- its countdown or later, counted from the time that the attempt read, and no other worker holds
  -- the row.
  pub retry_is_claimable :
      (q : Queue) (delay : ℕ) (locked : List Uuid) (now : Datetime)
      → IsValid db
      → s.commits ≡ true
      → (deliver_to_endpoint_once s db id tenant_id).dispatched
        ≡ deliver_to_endpoint id tenant_id q (some delay) ∷ []
      → any (λ k. k == id) locked ≡ false
      → after_delay s.reading.utcnow delay ≤ now
      → (d : Delivery) × (get_pending_delivery_for_update locked now
            (deliver_to_endpoint_once s db id tenant_id).database
            id
            tenant_id
          ≡ some d)
  retry_is_claimable q delay locked now v e dispatched free h =
      once_cases (Retries s id tenant_id) s db id tenant_id give_up-Retries attempt-Retries v
        (λ q delay locked now v e dispatched free h. cc) q delay locked now
        (deliver_to_endpoint_once-IsValid s db v id tenant_id) e dispatched free h
