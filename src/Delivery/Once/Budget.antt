-- ===== src/Delivery/Once/Budget.antt =====
-- How often the service posts for one delivery.
use webhook_delivery_service.Base.{
  ℕ, ◌+◌, ◌≤◌, ◌≡◌, refl, sym, true, false, Option, none, some, List, [], ◌∷◌, arith, inl, inr,
  Bool-cases, Option-cases, length, ◌==◌, if◌then◌else◌, String, All-lookup, ==→eq,
}
use webhook_delivery_service.Models.{Uuid, Tenant, Endpoint, Event, Delivery}
use webhook_delivery_service.Database.{Database}
use webhook_delivery_service.Database.Valid.{IsValid, IsOwned}
use webhook_delivery_service.Delivery.Attempt.{build_request, post_and_record}
use webhook_delivery_service.Delivery.Attempt.Lifecycle.{IsRow, post_and_record-IsAttempted}
use webhook_delivery_service.Delivery.Once.{
  Surroundings, Run, give_up, given_up, attempt, deliver_to_endpoint_once,
}
use webhook_delivery_service.Delivery.Once.Claim.{IsClaimed, lookup_delivery}
use webhook_delivery_service.Delivery.Once.Commit.{lookup-commit_self, lookup-commit_ne}
use webhook_delivery_service.Delivery.Once.Cases.{once_cases, IsLookedUp}
use webhook_delivery_service.Delivery.Once.Invariant.{deliver_to_endpoint_once-IsValid}

abbrev pub attempts_of : Option Delivery → ℕ
attempts_of none = 0
attempts_of (some d) = d.attempt_number

-- A run touches no other row, and counts what it posts.
pub record IsCounted (s : Surroundings) (db : Database) (id : Uuid) (r : Run) : Type 0 where
  pub others : (k : Uuid) → (id == k) ≡ false → lookup_delivery k r.database ≡ lookup_delivery k db
  pub counted :
      s.commits ≡ true
      → attempts_of (lookup_delivery id r.database)
        ≡ attempts_of (lookup_delivery id db) + length r.posted

module _ (s : Surroundings) (db : Database) (id tenant_id : Uuid) where
  give_up-IsCounted :
      (d : Delivery)
      → IsClaimed db id tenant_id d
      → (message : String) → IsCounted s db id (give_up s db message d)
  give_up-IsCounted d c message = record {
    others = λ k h. lookup-commit_ne s db _ k (rw c.same_id h);
    counted = λ e.
        rw (lookup-commit_self s db (given_up message d) id tenant_id d c refl e, c.found)
          (omega arith);
  }

  attempt-IsCounted :
      (d : Delivery) (endpoint : Endpoint) (event : Event) (tenant : Tenant)
      → IsClaimed db id tenant_id d
      → IsLookedUp db tenant_id d endpoint event tenant
      → IsCounted s db id (attempt s db tenant_id d endpoint event tenant)
  attempt-IsCounted d endpoint event tenant c l =
      let request = build_request s.hmac tenant.signing_secret endpoint event in
      let d' = (post_and_record s.client s.reading request tenant_id d).0 in
      let a = post_and_record-IsAttempted s.client s.reading request tenant_id d in
      record {
        others = λ k h. lookup-commit_ne s db _ k (rw (a.same_id, c.same_id) h);
        counted =
            λ e. rw (lookup-commit_self s db d' id tenant_id d c a.same_id e, c.found) a.counted;
      }

  pub once-IsCounted : IsValid db → IsCounted s db id (deliver_to_endpoint_once s db id tenant_id)
  once-IsCounted v =
      once_cases (IsCounted s db id) s db id tenant_id give_up-IsCounted attempt-IsCounted v
        (record { others = λ k h. refl; counted = λ e. omega arith })

row-attempts-le : (d : Delivery) → IsRow d → d.attempt_number ≤ 4
row-attempts-le d r = ground arith

pub attempts_of-le :
    (id : Uuid) (db : Database) → IsValid db → attempts_of (lookup_delivery id db) ≤ 4
attempts_of-le id db v = elim (Option-cases (lookup_delivery id db)) [
  | inl e ↦ rw e (omega arith)
  | inr (d, e) ↦ rw e (
      row-attempts-le d
        (All-lookup (λ x. x.id) (IsOwned db) id db.deliveries v.deliveries_owned e).row)
]

-- A delivery task that a worker takes from the queue, and what the worker meets.
pub record Job : Type 0 where
  pub surroundings : Surroundings
  pub delivery_id : Uuid
  pub tenant_id : Uuid

unfoldable pub run_job : Job → Database → Run
run_job j db = deliver_to_endpoint_once j.surroundings db j.delivery_id j.tenant_id

-- The database after the jobs, one after the other, and the number of POSTs for one delivery.
unfoldable pub run_jobs : List Job → Database → Database
unfolding run_job
run_jobs [] db = db
run_jobs (j ∷ js) db = run_jobs js (run_job j db).database

pub posts_for : Uuid → List Job → Database → ℕ
unfolding run_job
posts_for id [] db = 0
posts_for id (j ∷ js) db =
    (if j.delivery_id == id then length (run_job j db).posted else 0)
    + posts_for id js (run_job j db).database

abbrev pub AllCommit : List Job → Type 0
AllCommit [] = Unit
AllCommit (j ∷ js) = (j.surroundings.commits ≡ true) × AllCommit js

job-attempts :
    (id : Uuid) (j : Job) (db : Database)
    → IsValid db
    → j.surroundings.commits ≡ true
    → attempts_of (lookup_delivery id (run_job j db).database)
      ≡ attempts_of (lookup_delivery id db)
        + (if j.delivery_id == id then length (run_job j db).posted else 0)
unfolding run_job
job-attempts id j db v e =
    let c = once-IsCounted j.surroundings db j.delivery_id j.tenant_id v in
    elim (Bool-cases (j.delivery_id == id)) [
      | inl same ↦ rw (same, ← ==→eq j.delivery_id id same) (c.counted e)
      | inr other ↦ rw (other, c.others id other) (omega arith)
    ]

run_job-IsValid : (j : Job) (db : Database) → IsValid db → IsValid (run_job j db).database
unfolding run_job
run_job-IsValid j db v =
    deliver_to_endpoint_once-IsValid j.surroundings db v j.delivery_id j.tenant_id

pub run_jobs-IsValid : (js : List Job) (db : Database) → IsValid db → IsValid (run_jobs js db)
unfolding run_jobs
run_jobs-IsValid [] db v = v
run_jobs-IsValid (j ∷ js) db v = run_jobs-IsValid js _ (run_job-IsValid j db v)

jobs-attempts :
    (id : Uuid) (js : List Job) (db : Database)
    → IsValid db
    → AllCommit js
    → attempts_of (lookup_delivery id (run_jobs js db))
      ≡ attempts_of (lookup_delivery id db) + posts_for id js db
unfolding run_jobs posts_for
jobs-attempts id [] db v c = omega arith
jobs-attempts id (j ∷ js) db v c = omega (
  arith,
  job-attempts id j db v c.0,
  jobs-attempts id js (run_job j db).database (run_job-IsValid j db v) c.1,
)

-- However many delivery tasks run on a well-formed database, in whatever order, and whatever the
-- endpoints answer: where every run commits, a delivery is posted at most four times over its life,
-- and exactly as often as its attempt number has grown.
pub posts-le-four :
    (id : Uuid) (js : List Job) (db : Database)
    → IsValid db
    → AllCommit js
    → (attempts_of (lookup_delivery id db) + posts_for id js db
        ≡ attempts_of (lookup_delivery id (run_jobs js db)))
      × (attempts_of (lookup_delivery id db) + posts_for id js db ≤ 4)
posts-le-four id js db v c = (
  sym (jobs-attempts id js db v c),
  omega (
    arith,
    jobs-attempts id js db v c,
    attempts_of-le id (run_jobs js db) (run_jobs-IsValid js db v),
  ),
)
