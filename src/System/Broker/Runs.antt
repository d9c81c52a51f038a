-- ===== src/System/Broker/Runs.antt =====
-- What a run of the delivery task does to the rows that the queued tasks name.
use mathlib.Core.Option.{some-injective}
use webhook_delivery_service.Base.{
  ℕ, ◌-◌, ◌+◌, ◌/◌, ◌≡◌, refl, sym, ap, ◌∙◌, subst, Bool, true, false, ◌&&◌, Option, none, some,
  any, All, ◌==◌, ==→eq, inl, inr, Bool-cases,
}
use webhook_delivery_service.Models.{Uuid, Datetime, Event, Delivery}
use webhook_delivery_service.Tasks.{Task, deliver_event, deliver_to_endpoint}
use webhook_delivery_service.Database.{Database}
use webhook_delivery_service.Database.Valid.{IsValid}
use webhook_delivery_service.Delivery.Once.Claim.{lookup_delivery, IsClaimed}
use webhook_delivery_service.Delivery.Once.{
  Surroundings, Run, deliver_to_endpoint_once, given_up, commit_delivery,
}
use webhook_delivery_service.Delivery.Once.Commit.{
  stamped, commit_refused, commit_tables, lookup-commit_ne, lookup-commit_self,
}
use webhook_delivery_service.Delivery.Once.Cases.{once_cases}
use webhook_delivery_service.Delivery.Attempt.{
  Reading, Reply, response, request_exception, after_reply, post_and_record, build_request,
  is_failed, retry_or_exhaust, settle, record_reply, Client, HttpRequest,
}
use webhook_delivery_service.Delivery.Attempt.Lifecycle.{post_and_record-IsAttempted}
use webhook_delivery_service.System.Rows.{IsKept}

-- The event, or the delivery, that a task names is there and is one of the task's tenant.
abbrev pub IsKnown : Database → Task → Type 0
IsKnown db (deliver_event e t key q) = any (λ x. x.id == e && x.tenant_id == t) db.events ≡ true
IsKnown db (deliver_to_endpoint d t q c) =
    (x : Delivery) × (lookup_delivery d db ≡ some x) × (x.tenant_id ≡ t)

pub record IsGrown (db db' : Database) : Type 0 where
  pub events : (p : Event → Bool) → any p db.events ≡ true → any p db'.events ≡ true
  pub rows :
      (id : Uuid) {x : Delivery}
      → lookup_delivery id db ≡ some x
      → (y : Delivery) × (lookup_delivery id db' ≡ some y) × (y.tenant_id ≡ x.tenant_id)

pub IsKnown-later : (db db' : Database) → IsGrown db db' → (t : Task) → IsKnown db t → IsKnown db' t
IsKnown-later db db' g (deliver_event e t key q) k = g.events (λ x. x.id == e && x.tenant_id == t) k
IsKnown-later db db' g (deliver_to_endpoint d t q c) (x, found, owned) =
    let (y, found', same) = g.rows d found in (y, found', same ∙ owned)

-- The commit of a claimed row.
commit-rows :
    (s : Surroundings) (db : Database) (id tenant_id : Uuid) (d d' : Delivery)
    → IsClaimed db id tenant_id d
    → d'.id ≡ d.id
    → d'.tenant_id ≡ d.tenant_id
    → IsGrown db (commit_delivery s db d')
commit-rows s db id tenant_id d d' c same tenant = record {
  events = λ p h. subst (λ es. any p es ≡ true) (sym (commit_tables s db d').2) h;
  rows = λ k {x} h. elim (Bool-cases s.commits) [
    | inl e ↦ elim (Bool-cases (id == k)) [
      | inl mine ↦
          let q : id ≡ k = ==→eq id k mine in
          (
            stamped s d',
            subst (λ j. lookup_delivery j (commit_delivery s db d') ≡ some (stamped s d')) q
                (lookup-commit_self s db d' id tenant_id d c same e),
            tenant
                ∙ ap (λ (y : Delivery). y.tenant_id)
                    (some-injective d x
                      (sym c.found ∙ subst (λ j. lookup_delivery j db ≡ some x) (sym q) h)),
          )
      | inr other ↦ (
        x,
        lookup-commit_ne s db d' k (subst (λ j. (j == k) ≡ false) (sym (same ∙ c.same_id)) other)
            ∙ h,
        refl,
      )
    ]
    | inr e ↦
        (x, subst (λ b. lookup_delivery k b ≡ some x) (sym (commit_refused s db d' e)) h, refl)
  ];
}

-- What one run of the delivery task does to the tables, and the tasks that it sends.
abbrev pub IsRun : Database → Run → Type 0
IsRun db r = IsGrown db r.database × All (IsKnown r.database) r.dispatched

retry-IsKnown :
    (db : Database) (tenant_id : Uuid) (now : Datetime) (delay : Option ℕ) (d x : Delivery)
    → lookup_delivery d.id db ≡ some x
    → x.tenant_id ≡ tenant_id
    → All (IsKnown db) (retry_or_exhaust delay now tenant_id d).1
retry-IsKnown db tenant_id now none d x found owned = tt
retry-IsKnown db tenant_id now (some delay) d x found owned = ((x, found, owned), tt)

settle-IsKnown :
    (db : Database) (tenant_id : Uuid) (now : Datetime) (d x : Delivery)
    → lookup_delivery d.id db ≡ some x
    → x.tenant_id ≡ tenant_id
    → All (IsKnown db) (settle now tenant_id d).1
unfolding settle
settle-IsKnown db tenant_id now d x found owned = elim (Bool-cases (is_failed d.status)) [
  | inl e ↦ rw e (retry-IsKnown db tenant_id now _ d x found owned)
  | inr e ↦ rw e tt
]

after_reply-IsKnown :
    (db : Database) (reading : Reading) (tenant_id : Uuid) (r : Reply) (d x : Delivery)
    → lookup_delivery d.id db ≡ some x
    → x.tenant_id ≡ tenant_id
    → All (IsKnown db) (after_reply reading tenant_id r d).1
unfolding after_reply
after_reply-IsKnown db reading tenant_id (response code body) d x found owned =
    settle-IsKnown db tenant_id reading.utcnow
      (record (record_reply (response code body) d) {
        latency_ms = some ((reading.ended_at - reading.started_at) / 1000);
      })
      x found owned
after_reply-IsKnown db reading tenant_id (request_exception message) d x found owned =
    settle-IsKnown db tenant_id reading.utcnow
      (record (record_reply (request_exception message) d) {
        latency_ms = some ((reading.ended_at - reading.started_at) / 1000);
      })
      x found owned

posted-IsKnown :
    (db : Database) (client : Client) (reading : Reading) (request : HttpRequest) (tenant_id : Uuid)
    (d x : Delivery)
    → lookup_delivery d.id db ≡ some x
    → x.tenant_id ≡ tenant_id
    → All (IsKnown db) (post_and_record client reading request tenant_id d).1
unfolding post_and_record
posted-IsKnown db client reading request tenant_id d x found owned =
    after_reply-IsKnown db reading tenant_id (client request)
      (record d { attempt_number = d.attempt_number + 1 }) x found owned

pub deliver_to_endpoint_once-IsRun :
    (s : Surroundings) (db : Database) (id tenant_id : Uuid)
    → IsValid db
    → IsRun db (deliver_to_endpoint_once s db id tenant_id)
deliver_to_endpoint_once-IsRun s db id tenant_id v =
    once_cases (IsRun db) s db id tenant_id
      (λ d c message. (commit-rows s db id tenant_id d (given_up message d) c refl refl, tt))
      (λ d endpoint event tenant c l.
        let request = build_request s.hmac tenant.signing_secret endpoint event in
        let d' = (post_and_record s.client s.reading request tenant_id d).0 in
        let a = post_and_record-IsAttempted s.client s.reading request tenant_id d in
        let g = commit-rows s db id tenant_id d d' c a.same_id a.same_tenant in
        let (y, found, same) = g.rows id c.found in
        (
          g,
          posted-IsKnown (commit_delivery s db d') s.client s.reading request tenant_id d y
              (subst (λ j. lookup_delivery j (commit_delivery s db d') ≡ some y) (sym c.same_id)
                found)
              (same ∙ c.same_tenant),
        ))
      v (record { events = λ p h. h; rows = λ k {x} h. (x, h, refl) }, tt)

pub same_tables : (db db' : Database) → db'.events ≡ db.events → IsKept db db' → IsGrown db db'
same_tables db db' e k = record {
  events = λ p h. subst (λ es. any p es ≡ true) (sym e) h;
  rows = λ id {x} h. (x, k.same_row id h, refl);
}
