-- ===== src/Worker/Work.antt =====
-- The work that is left for a worker, and what a delivery task leaves of it, whatever the endpoint answers.
use webhook_delivery_service.Base.{
  ℕ, ◌+◌, ◌-◌, ◌*◌, ◌≤◌, ◌≡◌, refl, ap, sym, ◌∙◌, subst, true, false, some, List, [], ◌∷◌, ◌++◌,
  length, arith, any, lookup, replace, Distinct, same_id, ◌==◌, ==→eq, Bool-cases, inl, inr, String,
}
use mathlib.Core.Option.{some-injective}
use webhook_delivery_service.Models.{Uuid, Tenant, Endpoint, Event, Delivery}
use webhook_delivery_service.Tasks.{Task, deliver_event, deliver_to_endpoint}
use webhook_delivery_service.Database.{Database, update_delivery}
use webhook_delivery_service.Database.Valid.{IsValid}
use webhook_delivery_service.Delivery.Attempt.{
  Reading, Reply, response, request_exception, after_reply, post_and_record, build_request,
}
use webhook_delivery_service.Delivery.Attempt.Lifecycle.{post_and_record-IsAttempted}
use webhook_delivery_service.Delivery.Once.{
  Surroundings, Run, attempt, give_up, given_up, commit_delivery, deliver_to_endpoint_once,
}
use webhook_delivery_service.Worker.Recovery.{not_among}
use webhook_delivery_service.Delivery.Once.Claim.{lookup_delivery, IsClaimed}
use webhook_delivery_service.Delivery.Once.Commit.{stamped, commit_tables}
use webhook_delivery_service.Delivery.Once.Cases.{once_cases, IsLookedUp}

-- The retries that a row can still have.
abbrev pub retries_left : Delivery → ℕ
retries_left d = 3 - d.attempt_number

abbrev pub all_retries : List Delivery → ℕ
all_retries [] = 0
all_retries (d ∷ ds) = retries_left d + all_retries ds

-- The tasks that one task stands for at most: an event's are itself and four for each endpoint.
abbrev pub weight : List Endpoint → Task → ℕ
weight es (deliver_event event_id tenant_id key queue) = 1 + 4 * length es
weight es (deliver_to_endpoint id tenant_id queue countdown) = 1

abbrev pub weigh : List Endpoint → List Task → ℕ
weigh es [] = 0
weigh es (t ∷ ts) = weight es t + weigh es ts

-- The tasks that are left, with those that will come.
abbrev pub work : Database → List Task → ℕ
work db queue = weigh db.endpoints queue + all_retries db.deliveries

pub weight-pos : (es : List Endpoint) (t : Task) → 1 ≤ weight es t
weight-pos es (deliver_event event_id tenant_id key queue) = omega arith
weight-pos es (deliver_to_endpoint id tenant_id queue countdown) = omega arith

pub weigh-append :
    (es : List Endpoint) (xs ys : List Task) → weigh es (xs ++ ys) ≡ weigh es xs + weigh es ys
weigh-append es [] ys = omega arith
weigh-append es (x ∷ xs) ys = omega (arith, weigh-append es xs ys)

-- One more attempt costs the retry that it may send.
after_reply-spends :
    (es : List Endpoint) (reading : Reading) (tenant_id : Uuid) (r : Reply) (d : Delivery)
    → let out =
        after_reply reading tenant_id r (record d { attempt_number = d.attempt_number + 1 }) in
      weigh es out.1 + retries_left out.0 ≤ retries_left d
unfolding after_reply
after_reply-spends es reading tenant_id (response code body) d = ground arith
after_reply-spends es reading tenant_id (request_exception message) d = ground arith

-- The row with the id of `d'` is replaced.
missed_retries :
    (d' : Delivery) (xs : List Delivery)
    → any (λ x. x.id == d'.id) xs ≡ false
    → all_retries (replace (λ x. x.id) d' xs) ≡ all_retries xs
missed_retries d' [] h = refl
missed_retries d' (x ∷ xs) h = ground (arith, missed_retries d' xs)

replaced_retries :
    (d' : Delivery) (xs : List Delivery) {d : Delivery}
    → Distinct (same_id (λ x. x.id)) xs
    → lookup (λ x. x.id) d'.id xs ≡ some d
    → all_retries (replace (λ x. x.id) d' xs) + retries_left d ≡ all_retries xs + retries_left d'
replaced_retries d' [] h found = cc
replaced_retries d' (x ∷ xs) {d} h found = elim (Bool-cases (x.id == d'.id)) [
  | inl hit ↦
      let same : x ≡ d = some-injective x d (rw hit at found) in
      let missed = missed_retries d' xs (
        subst (λ k. any (λ (y : Delivery). y.id == k) xs ≡ false) (==→eq x.id d'.id hit)
          (not_among x xs h.0)) in
      rw hit (omega (arith, missed, ap retries_left same))
  | inr miss ↦ rw miss (omega (arith, replaced_retries d' xs h.1 (rw miss at found)))
]

module _ (s : Surroundings) (db : Database) (id tenant_id : Uuid) (v : IsValid db)
    (commits : s.commits ≡ true) where
  -- A run of a delivery task leaves no more work than there was, itself not counted.
  abbrev pub Spends : Run → Type 0
  Spends r =
      (r.database.endpoints ≡ db.endpoints)
      × (weigh db.endpoints r.dispatched + all_retries r.database.deliveries
          ≤ all_retries db.deliveries)

  committed_retries :
      (d d' : Delivery)
      → IsClaimed db id tenant_id d
      → d'.id ≡ d.id
      → all_retries (commit_delivery s db d').deliveries + retries_left d
        ≡ all_retries db.deliveries + retries_left d'
  unfolding commit_delivery update_delivery
  committed_retries d d' c same = rw commits (
      replaced_retries (stamped s d') db.deliveries v.deliveries_distinct
        (subst (λ k. lookup_delivery k db ≡ some d) (sym (same ∙ c.same_id)) c.found))

  give_up-Spends :
      (d : Delivery)
      → IsClaimed db id tenant_id d
      → (message : String) → Spends (give_up s db message d)
  give_up-Spends d c message = (
    (commit_tables s db (given_up message d)).1,
    omega (arith, committed_retries d (given_up message d) c refl),
  )

  attempt-Spends :
      (d : Delivery) (endpoint : Endpoint) (event : Event) (tenant : Tenant)
      → IsClaimed db id tenant_id d
      → IsLookedUp db tenant_id d endpoint event tenant
      → Spends (attempt s db tenant_id d endpoint event tenant)
  unfolding post_and_record
  attempt-Spends d endpoint event tenant c l =
      let request = build_request s.hmac tenant.signing_secret endpoint event in
      let d' = (post_and_record s.client s.reading request tenant_id d).0 in
      let a = post_and_record-IsAttempted s.client s.reading request tenant_id d in
      (
        (commit_tables s db d').1,
        omega (
          arith,
          committed_retries d d' c a.same_id,
          after_reply-spends db.endpoints s.reading tenant_id (s.client request) d,
        ),
      )

  pub once-Spends : Spends (deliver_to_endpoint_once s db id tenant_id)
  once-Spends =
      once_cases Spends s db id tenant_id give_up-Spends attempt-Spends v (refl, omega arith)
