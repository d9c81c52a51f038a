-- ===== src/Worker/Backlog.antt =====
-- The worker on the tasks of the recovery: one row.
use webhook_delivery_service.Base.{
  ◌≤◌, ◌≡◌, refl, ◌∙◌, subst, Bool, true, false, ◌&&◌, Option, none, some, List, [], ◌∷◌, arith,
  any, select, scalar_one_or_none, scalar-select, scalar-All, ◌==◌, ==→eq, &&_right, Bool-cases,
  Option-cases, inl, inr,
}
use webhook_delivery_service.Models.{
  Uuid, Datetime, Tenant, Endpoint, Event, Delivery, Status, success, failed,
}
use webhook_delivery_service.Database.{Database, has_tenant}
use webhook_delivery_service.Database.Valid.{IsValid, IsOwned}
use webhook_delivery_service.Queries.{
  get_event_for_tenant, get_tenant_by_id, get_active_endpoint_for_tenant, is_due, is_claimable,
  get_pending_delivery_for_update,
}
use webhook_delivery_service.Delivery.Attempt.{HttpRequest, Hmac, build_request, post_and_record}
use webhook_delivery_service.Delivery.Attempt.Lifecycle.{post_and_record-IsAttempted}
use webhook_delivery_service.Delivery.Once.{
  Surroundings, Run, given_up, commit_delivery, process, deliver_to_endpoint_once,
}
use webhook_delivery_service.Delivery.Once.Claim.{
  lookup_delivery, IsClaimed, claim_lem, claim-IsClaimed,
}
use webhook_delivery_service.Delivery.Once.Commit.{
  stamped, commit_tables, lookup-commit_ne, lookup-commit_self,
}
use webhook_delivery_service.Worker.Visit.{IsWilling, post_and_record-accepted}

scalar-any {ℓ} :
    {A : Type ℓ} (p : A → Bool) (xs : List A)
    → any p xs ≡ true
    → (x : A) × (scalar_one_or_none (select p xs) ≡ some x)
scalar-any p [] h = cc
scalar-any p (x ∷ xs) h = elim (Bool-cases (p x)) [
  | inl hit ↦ rw hit (x, refl)
  | inr miss ↦ rw miss (scalar-any p xs (rw miss at h))
]

-- A delivery's event and tenant are found.
owned_records :
    (db : Database) (d : Delivery)
    → IsValid db
    → IsOwned db d
    → (event : Event) × (tenant : Tenant) × (get_event_for_tenant db d.event_id d.tenant_id
        ≡ some event)
      × (get_tenant_by_id db d.tenant_id ≡ some tenant)
unfolding get_event_for_tenant get_tenant_by_id
owned_records db d v o =
    let of_event : Event → Bool = λ e. e.id == d.event_id && e.tenant_id == d.tenant_id in
    let (event, found) = scalar-any of_event db.events o.event in
    let same : event.tenant_id ≡ d.tenant_id =
      ==→eq event.tenant_id d.tenant_id
        (&&_right (event.id == d.event_id) _ (scalar-select of_event db.events found)) in
    let known =
      scalar-All (λ e. has_tenant db e.tenant_id ≡ true) of_event db.events v.events_owned found in
    let (tenant, known') =
      scalar-any (λ (t : Tenant). t.id == d.tenant_id) db.tenants
        (subst (λ k. has_tenant db k ≡ true) same known) in
    (event, tenant, found, known')

-- What a delivery comes to, with the endpoint that is looked up.
abbrev pub outcome : Option Endpoint → Status
outcome none = failed
outcome (some e) = success

abbrev pub endpoint_of : Database → Delivery → Option Endpoint
endpoint_of db d = get_active_endpoint_for_tenant db d.endpoint_id d.tenant_id

-- What the task of a due row does, when the endpoint accepts.
pub record IsDone (db : Database) (d : Delivery) (run : Run) : Type 0 where
  pub dispatched : run.dispatched ≡ []
  pub endpoints : run.database.endpoints ≡ db.endpoints
  pub others_kept :
      (j : Uuid) → (d.id == j) ≡ false → lookup_delivery j run.database ≡ lookup_delivery j db
  pub delivery : Delivery
  pub found : lookup_delivery d.id run.database ≡ some delivery
  pub ended : delivery.status ≡ outcome (endpoint_of db d)

module _ (hmac : Hmac) (s : Surroundings) (db : Database) (d : Delivery)
    (w : IsWilling hmac s) where
  -- The commit of a row, whatever was written into it.
  committed :
      (d' : Delivery) (posted : List HttpRequest)
      → IsClaimed db d.id d.tenant_id d
      → d'.id ≡ d.id
      → d'.status ≡ outcome (endpoint_of db d)
      → IsDone db d
          (record { database = commit_delivery s db d'; posted = posted; dispatched = [] })
  committed d' posted c same e = record {
    dispatched = refl;
    endpoints = (commit_tables s db d').1;
    others_kept = λ j ne. lookup-commit_ne s db d' j (rw same ne);
    delivery = stamped s d';
    found = lookup-commit_self s db d' d.id d.tenant_id d c same w.commits;
    ended = e;
  }

  due_claim :
      {now : Datetime}
      → IsValid db
      → lookup_delivery d.id db ≡ some d
      → is_due now d ≡ true
      → now ≤ s.claim_now
      → get_pending_delivery_for_update s.locked s.claim_now db d.id d.tenant_id ≡ some d
  due_claim {now} v found due h =
      claim_lem s.locked s.claim_now db d.id d.tenant_id v d found
      ∙ rw (w.unlocked, due_claimable now due h) refl
    where
      due_claimable :
          (now : Datetime)
          → is_due now d ≡ true
          → now ≤ s.claim_now
          → is_claimable s.claim_now d.tenant_id d ≡ true
      due_claimable now due h = ground (arith, due, h)

  process-IsDone :
      IsClaimed db d.id d.tenant_id d → IsValid db → IsDone db d (process s db d.tenant_id d)
  unfolding process
  process-IsDone c v =
      let (event, tenant, event_found, tenant_found) = owned_records db d v c.owned in
      elim (Option-cases (endpoint_of db d)) [
        | inl gone ↦
            rw gone (committed (given_up "Endpoint or event not found" d) [] c refl (rw gone refl))
        | inr there ↦
            let (endpoint, endpoint_found) = there in
            let sent = build_request s.hmac tenant.signing_secret endpoint event in
            let (quiet, good) =
              post_and_record-accepted s.client s.reading sent d.tenant_id d (w.accepts sent) in
            let a = post_and_record-IsAttempted s.client s.reading sent d.tenant_id d in
            rw (endpoint_found, event_found, tenant_found, quiet)
              (committed (post_and_record s.client s.reading sent d.tenant_id d).0 (sent ∷ []) c
                a.same_id (good ∙ rw endpoint_found refl))
      ]

  pub visit-IsDone :
      {now : Datetime}
      → IsValid db
      → lookup_delivery d.id db ≡ some d
      → is_due now d ≡ true
      → now ≤ s.claim_now
      → IsDone db d (deliver_to_endpoint_once s db d.id d.tenant_id)
  unfolding deliver_to_endpoint_once
  visit-IsDone v found due h =
      let claim = due_claim v found due h in
      rw claim (process-IsDone (claim-IsClaimed s.locked s.claim_now db d.id d.tenant_id v claim) v)
