-- ===== src/Delivery/Once/Ending.antt =====
-- Which runs of its task bring a delivery to an end.
use mathlib.Core.Option.{some-injective}
use webhook_delivery_service.Base.{
  ℕ, suc, ◌+◌, ◌≤◌, ◌≡◌, ◌≢◌, ◌⊎◌, refl, sym, ◌∙◌, subst, inl, inr, true, false, ◌&&◌, not, some,
  List, [], ◌∷◌, map, length, any, arith, ◌==◌, String, All-lookup, key-lookup,
}
use webhook_delivery_service.Models.{
  Uuid, Datetime, Tenant, Endpoint, Event, Delivery, Status, pending, success, failed, exhausted,
}
use webhook_delivery_service.Database.{Database}
use webhook_delivery_service.Database.Valid.{IsValid, IsOwned}
use webhook_delivery_service.Queries.{is_claimable, is_locked, get_pending_delivery_for_update}
use webhook_delivery_service.Delivery.Attempt.{
  Reading, Reply, response, request_exception, after_delay, after_reply, post_and_record,
  build_request,
}
use webhook_delivery_service.Delivery.Attempt.Lifecycle.{pending_count, post_and_record-IsAttempted}
use webhook_delivery_service.Delivery.Once.{
  Surroundings, Run, give_up, given_up, attempt, deliver_to_endpoint_once,
}
use webhook_delivery_service.Delivery.Once.Claim.{
  lookup_delivery, IsClaimed, claim_lem, claim-IsClaimed,
}
use webhook_delivery_service.Delivery.Once.Commit.{stamped, lookup-commit_self}
use webhook_delivery_service.Delivery.Once.Cases.{process_cases}
use webhook_delivery_service.Delivery.Once.Guards.{once-IsBlocked, finished}
use webhook_delivery_service.Delivery.Once.Invariant.{deliver_to_endpoint_once-IsValid}
use webhook_delivery_service.Delivery.Once.Budget.{Job, run_job, run_jobs, run_jobs-IsValid}

-- A row that can be claimed from a time on, after that many attempts at least.
record IsOpen (tenant_id : Uuid) (due : Datetime) (n : ℕ) (d : Delivery) : Type 0 where
  counted : n ≤ d.attempt_number
  claimable : (now : Datetime) → due ≤ now → is_claimable now tenant_id d ≡ true

-- The row with the id is finished, or open.
abbrev Stands : Uuid → Uuid → Datetime → ℕ → Database → Type 0
Stands id tenant_id due n db =
    (d : Delivery) × (lookup_delivery id db ≡ some d)
    × ((d.status ≢ pending) ⊎ IsOpen tenant_id due n d)

after_reply-claimable :
    (reading : Reading) (tenant_id : Uuid) (r : Reply) (d : Delivery) (now : Datetime)
    → d.tenant_id ≡ tenant_id
    → after_delay reading.utcnow 600 ≤ now
    → (after_reply reading tenant_id r d).0.status ≡ pending
    → is_claimable now tenant_id (after_reply reading tenant_id r d).0 ≡ true
unfolding after_reply
after_reply-claimable reading tenant_id (response code body) d now t h p = ground arith
after_reply-claimable reading tenant_id (request_exception message) d now t h p = ground arith

claimable_open :
    (now : Datetime) (locked : List Uuid) (tenant_id id : Uuid) (d : Delivery)
    → d.id ≡ id
    → is_claimable now tenant_id d ≡ true
    → any (λ k. k == id) locked ≡ false
    → (is_claimable now tenant_id d && not (is_locked locked d)) ≡ true
claimable_open now locked tenant_id id d same h free =
    let unlocked : is_locked locked d ≡ false =
      subst (λ k. any (λ l. l == k) locked ≡ false) (sym same) free in
    rw (h, unlocked)

claimable_later :
    (now later : Datetime) (tenant_id : Uuid) (d : Delivery)
    → now ≤ later
    → is_claimable now tenant_id d ≡ true
    → is_claimable later tenant_id d ≡ true
claimable_later now later tenant_id d h c = ground arith

pending_or : (st : Status) → (st ≢ pending) ⊎ (st ≡ pending)
pending_or pending = inr refl
pending_or success = inl (λ e. cc)
pending_or failed = inl (λ e. cc)
pending_or exhausted = inl (λ e. cc)

module _ (s : Surroundings) (db : Database) (id tenant_id : Uuid) (n : ℕ)
    (commits : s.commits ≡ true) where
  -- What one run leaves of a row that it claimed.
  abbrev Next : Run → Type 0
  Next r = Stands id tenant_id (after_delay s.reading.utcnow 600) (suc n) r.database

  give_up-Next :
      (d : Delivery)
      → IsClaimed db id tenant_id d
      → (message : String) → Next (give_up s db message d)
  give_up-Next d c message = (
    stamped s (given_up message d),
    lookup-commit_self s db (given_up message d) id tenant_id d c refl commits,
    inl (λ e. cc),
  )

  attempt-Next :
      (d : Delivery) (endpoint : Endpoint) (event : Event) (tenant : Tenant)
      → IsClaimed db id tenant_id d
      → n ≤ d.attempt_number
      → Next (attempt s db tenant_id d endpoint event tenant)
  unfolding post_and_record
  attempt-Next d endpoint event tenant c counted =
      let request = build_request s.hmac tenant.signing_secret endpoint event in
      let d' = (post_and_record s.client s.reading request tenant_id d).0 in
      let a = post_and_record-IsAttempted s.client s.reading request tenant_id d in
      (
        stamped s d',
        lookup-commit_self s db d' id tenant_id d c a.same_id commits,
        elim (pending_or d'.status) [
          | inl other ↦ inl other
          | inr p ↦ inr (record {
            counted = omega (arith, a.counted);
            claimable = λ now h.
                after_reply-claimable s.reading tenant_id (s.client request) _ now c.same_tenant h
                  p;
          })
        ],
      )

  -- A run that finds the row open.
  run_open :
      IsValid db
      → (d : Delivery) → lookup_delivery id db ≡ some d
      → n ≤ d.attempt_number
      → is_claimable s.claim_now tenant_id d ≡ true
      → any (λ k. k == id) s.locked ≡ false
      → Next (deliver_to_endpoint_once s db id tenant_id)
  unfolding deliver_to_endpoint_once
  run_open v d found counted claimable free =
      let same : d.id ≡ id = key-lookup (λ x. x.id) id db.deliveries found in
      let claim : get_pending_delivery_for_update s.locked s.claim_now db id tenant_id ≡ some d =
        rw
          (
            claim_lem s.locked s.claim_now db id tenant_id v d found,
            claimable_open s.claim_now s.locked tenant_id id d same claimable free,
          )
          refl in
      rw claim (
        process_cases Next s db id tenant_id give_up-Next
          (λ x endpoint event tenant c l. attempt-Next x endpoint event tenant c (
            subst (λ (y : Delivery). n ≤ y.attempt_number)
              (some-injective d x (sym found ∙ c.found)) counted))
          d (claim-IsClaimed s.locked s.claim_now db id tenant_id v claim))

  -- Any run that comes in time moves the row on, or finds it finished.
  run-Stands :
      {due : Datetime}
      → IsValid db
      → Stands id tenant_id due n db
      → any (λ k. k == id) s.locked ≡ false
      → due ≤ s.claim_now
      → Next (deliver_to_endpoint_once s db id tenant_id)
  run-Stands v (d, found, inl other) free h =
      rw (once-IsBlocked s db id tenant_id v (inr (d, found, finished other))) (d, found, inl other)
  run-Stands v (d, found, inr o) free h =
      run_open v d found o.counted (o.claimable s.claim_now h) free

-- Runs that commit, that find the row unlocked, and that start no earlier than `due`, then each at least
-- the longest delay, ten minutes, after the clock that the one before it read.
abbrev pub IsInTime : Uuid → Datetime → List Surroundings → Type 0
IsInTime id due [] = Unit
IsInTime id due (s ∷ ss) =
    (s.commits ≡ true)
    × (any (λ k. k == id) s.locked ≡ false)
    × (due ≤ s.claim_now)
    × IsInTime id (after_delay s.reading.utcnow 600) ss

abbrev pub jobs_of : Uuid → Uuid → List Surroundings → List Job
jobs_of id tenant_id ss =
    map (λ s. record { surroundings = s; delivery_id = id; tenant_id = tenant_id }) ss

runs-Stands :
    (id tenant_id : Uuid) (ss : List Surroundings) (db : Database) (due : Datetime) (n : ℕ)
    → IsValid db
    → Stands id tenant_id due n db
    → IsInTime id due ss
    → (late : Datetime) × Stands id tenant_id late
        (n + length ss)
        (run_jobs (jobs_of id tenant_id ss) db)
unfolding run_jobs run_job
runs-Stands id tenant_id [] db due n v h t =
    (due, subst (λ k. Stands id tenant_id due k db) (omega arith) h)
runs-Stands id tenant_id (s ∷ ss) db due n v h t =
    let db' = (deliver_to_endpoint_once s db id tenant_id).database in
    let (late, k) =
      runs-Stands id tenant_id ss db' (after_delay s.reading.utcnow 600) (suc n)
        (deliver_to_endpoint_once-IsValid s db v id tenant_id)
        (run-Stands s db id tenant_id n t.0 v h t.1 t.2) t.3 in
    (
      late,
      subst (λ m. Stands id tenant_id late m (run_jobs (jobs_of id tenant_id ss) db')) (omega arith)
          k,
    )

-- Four runs of its task are enough for a delivery to end: in a well-formed database, a pending row
-- that can be claimed when the first run starts is not pending any more after four or more runs
-- that commit, that find the row unlocked and that start at least ten minutes after the clock that
-- the run before read, whatever the endpoint answers.
pub four_runs_finish :
    (id tenant_id : Uuid) (s : Surroundings) (ss : List Surroundings) (db : Database) {d : Delivery}
    → IsValid db
    → lookup_delivery id db ≡ some d
    → is_claimable s.claim_now tenant_id d ≡ true
    → IsInTime id s.claim_now (s ∷ ss)
    → 3 ≤ length ss
    → (d' : Delivery) × (lookup_delivery id (run_jobs (jobs_of id tenant_id (s ∷ ss)) db) ≡ some d')
      × (d'.status ≢ pending)
four_runs_finish id tenant_id s ss db {d} v found claimable t long =
    let open_now : IsOpen tenant_id s.claim_now 0 d = record {
      counted = omega arith;
      claimable = λ now h. claimable_later s.claim_now now tenant_id d h claimable;
    } in
    let (late, (d', found', state)) =
      runs-Stands id tenant_id (s ∷ ss) db s.claim_now 0 v (d, found, inr open_now) t in
    (d', found', state_ends _ (run_jobs-IsValid _ db v) d' found' state long)
  where
    state_ends :
        (db' : Database)
        → IsValid db'
        → (d' : Delivery) → lookup_delivery id db' ≡ some d'
        → {late : Datetime}
        → ((d'.status ≢ pending) ⊎ IsOpen tenant_id late (0 + length (s ∷ ss)) d')
        → 3 ≤ length ss
        → d'.status ≢ pending
    state_ends db' v' d' found' (inl other) long = other
    state_ends db' v' d' found' (inr o) long = λ p. omega (
      arith,
      o.counted,
      pending_count d'
          (All-lookup (λ x. x.id) (IsOwned db') id db'.deliveries v'.deliveries_owned found').row p,
    )
