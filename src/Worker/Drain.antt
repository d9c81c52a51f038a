-- ===== src/Worker/Drain.antt =====
-- The worker on the tasks of a fan-out, when every endpoint accepts.
use webhook_delivery_service.Base.{
  ℕ, zero, suc, ◌≤◌, ◌≡◌, refl, ap, sym, ◌∙◌, subst, false, some, List, [], ◌∷◌, ◌++◌, map, length,
  arith, All, ◌==◌,
}
use mathlib.Core.List.{append-nil}
use webhook_delivery_service.Models.{
  Uuid, Datetime, Tenant, Endpoint, Event, Delivery, new_delivery, success,
}
use webhook_delivery_service.Tasks.{Task}
use webhook_delivery_service.Database.{Database}
use webhook_delivery_service.Database.Valid.{IsValid}
use webhook_delivery_service.Queries.{get_event_for_tenant, get_tenant_by_id}
use webhook_delivery_service.Delivery.Attempt.{HttpRequest, Hmac, build_request, post_and_record}
use webhook_delivery_service.Delivery.Attempt.Lifecycle.{post_and_record-IsAttempted}
use webhook_delivery_service.Delivery.FanOut.{build_deliveries, delivery_task}
use webhook_delivery_service.Delivery.Once.{Surroundings, Run, attempt, deliver_to_endpoint_once}
use webhook_delivery_service.Delivery.Once.Claim.{lookup_delivery, claim-IsClaimed}
use webhook_delivery_service.Delivery.Once.Commit.{
  stamped, commit_tables, lookup-commit_ne, lookup-commit_self,
}
use webhook_delivery_service.Delivery.Once.Cases.{IsLookedUp}
use webhook_delivery_service.Delivery.Once.Invariant.{deliver_to_endpoint_once-IsValid}
use webhook_delivery_service.Worker.{Turn, Drained, step, drain}
use webhook_delivery_service.Worker.Visit.{
  IsWilling, post_and_record-accepted, fresh-claim, visit_lem,
}
use webhook_delivery_service.Worker.Batch.{rows, Others, IsReady, AllReady, AllReady-kept}

-- A delivery of the event to the endpoint that has succeeded.
pub record HasDelivered (event_id : Uuid) (db : Database) (e : Endpoint) : Type 0 where
  pub id : Uuid
  pub delivery : Delivery
  pub found : lookup_delivery id db ≡ some delivery
  pub of_event : delivery.event_id ≡ event_id
  pub to_endpoint : delivery.endpoint_id ≡ e.id
  pub succeeded : delivery.status ≡ success

module _ (hmac : Hmac) (ids : ℕ → Uuid) (now : Datetime) (event_id tenant_id : Uuid) (event : Event)
    (tenant : Tenant) where
  -- The records that the tasks look up.
  pub record IsKnown (db : Database) : Type 0 where
    pub valid : IsValid db
    pub event_found : get_event_for_tenant db event_id tenant_id ≡ some event
    pub tenant_found : get_tenant_by_id db tenant_id ≡ some tenant

  abbrev pub request : Endpoint → HttpRequest
  request e = build_request hmac tenant.signing_secret e event

  -- What the task of one ready row does.
  record IsVisit (db : Database) (m : ℕ) (e : Endpoint) (run : Run) : Type 0 where
    posted : run.posted ≡ request e ∷ []
    dispatched : run.dispatched ≡ []
    known : IsKnown run.database
    endpoints : run.database.endpoints ≡ db.endpoints
    others_kept :
        (j : Uuid) → (ids m == j) ≡ false → lookup_delivery j run.database ≡ lookup_delivery j db
    delivery : Delivery
    found : lookup_delivery (ids m) run.database ≡ some delivery
    of_event : delivery.event_id ≡ event_id
    to_endpoint : delivery.endpoint_id ≡ e.id
    succeeded : delivery.status ≡ success

  pub same_records :
      (db db' : Database)
      → db'.tenants ≡ db.tenants
      → db'.events ≡ db.events
      → (get_event_for_tenant db' event_id tenant_id ≡ get_event_for_tenant db event_id tenant_id)
        × (get_tenant_by_id db' tenant_id ≡ get_tenant_by_id db tenant_id)
  unfolding get_event_for_tenant get_tenant_by_id
  same_records db db' t e = (rw e refl, rw t refl)

  visit :
      (s : Surroundings) (db : Database) (m : ℕ) (e : Endpoint) (es : List Endpoint)
      → IsWilling hmac s
      → IsKnown db
      → IsReady ids now event_id tenant_id db m e es
      → IsVisit db m e (deliver_to_endpoint_once s db (ids m) tenant_id)
  visit s db m e es w k r =
      let d = new_delivery (ids m) now event_id e.id tenant_id in
      let looked : IsLookedUp db tenant_id d e event tenant = record {
        endpoint_found = r.endpoint_found;
        event_found = k.event_found;
        tenant_found = k.tenant_found;
      } in
      let same =
        visit_lem s db now (ids m) event_id tenant_id e event tenant w.unlocked k.valid r.row_found
          looked in
      let claimed = claim-IsClaimed s.locked s.claim_now db (ids m) tenant_id k.valid (
        fresh-claim s db now (ids m) event_id tenant_id e event tenant w.unlocked k.valid
          r.row_found) in
      let sent = build_request s.hmac tenant.signing_secret e event in
      let d' = (post_and_record s.client s.reading sent tenant_id d).0 in
      let (quiet, good) =
        post_and_record-accepted s.client s.reading sent tenant_id d (w.accepts sent) in
      let a = post_and_record-IsAttempted s.client s.reading sent tenant_id d in
      let (tenants, endpoints, events) = commit_tables s db d' in
      let (events_same, tenant_same) =
        same_records db (attempt s db tenant_id d e event tenant).database tenants events in
      subst (λ run. IsVisit db m e run) (sym same)
        (record {
          posted = ap (λ h. build_request h tenant.signing_secret e event ∷ []) w.same_hmac;
          dispatched = quiet;
          known = record {
            valid =
                subst (λ (run : Run). IsValid run.database) same
                  (deliver_to_endpoint_once-IsValid s db k.valid (ids m) tenant_id);
            event_found = events_same ∙ k.event_found;
            tenant_found = tenant_same ∙ k.tenant_found;
          };
          endpoints = endpoints;
          others_kept =
              λ j ne. lookup-commit_ne s db d' j (subst (λ i. (i == j) ≡ false) (sym a.same_id) ne);
          delivery = stamped s d';
          found = lookup-commit_self s db d' (ids m) tenant_id d claimed a.same_id w.commits;
          of_event = a.same_event;
          to_endpoint = a.same_endpoint;
          succeeded = good;
        })

  -- What draining the tasks of the rows from number `m` on gives.
  pub record IsDrained (db : Database) (m : ℕ) (es : List Endpoint) (out : Drained) : Type 0 where
    pub empty : out.queue ≡ []
    pub posted : out.posted ≡ map request es
    pub kept :
        (j : Uuid)
        → Others ids now event_id tenant_id j m es
        → lookup_delivery j out.database ≡ lookup_delivery j db
    pub delivered : All (HasDelivered event_id out.database) es

  step-IsDrained :
      (turns : ℕ → Turn) (rest : ℕ → Database → List Task → Drained) (n m : ℕ) (e : Endpoint)
      (es : List Endpoint) (db : Database) (queue : List Task) (run : Run)
      → IsVisit db m e run
      → IsReady ids now event_id tenant_id db m e es
      → IsDrained run.database (suc m) es (rest (suc n) run.database queue)
      → IsDrained db m (e ∷ es) (step turns rest n queue run)
  step-IsDrained turns rest n m e es db queue run v r later =
      let same : queue ++ run.dispatched ≡ queue =
        ap (λ ts. queue ++ ts) v.dispatched ∙ append-nil queue in
      let d =
        subst (λ q. IsDrained run.database (suc m) es (rest (suc n) run.database q)) (sym same)
          later in
      record {
        empty = d.empty;
        posted = rw (v.posted, d.posted) refl;
        kept = λ j o. d.kept j o.1 ∙ v.others_kept j o.0;
        delivered = (
          record {
            id = ids m;
            delivery = v.delivery;
            found = d.kept (ids m) r.others ∙ v.found;
            of_event = v.of_event;
            to_endpoint = v.to_endpoint;
            succeeded = v.succeeded;
          },
          d.delivered,
        );
      }

  pub drain_rows :
      (turns : ℕ → Turn)
      → ((i : ℕ) → IsWilling hmac (turns i).surroundings)
      → (fuel n m : ℕ) (es : List Endpoint) (db : Database) → length es ≤ fuel
      → IsKnown db
      → AllReady ids now event_id tenant_id db m es
      → IsDrained db m es (
          drain turns fuel n db
            (map (delivery_task tenant_id) (rows ids now event_id tenant_id m es)))
  unfolding drain build_deliveries
  drain_rows turns w zero n m [] db le k r = record {
    empty = refl;
    posted = refl;
    kept = λ j o. refl;
    delivered = tt;
  }
  drain_rows turns w (suc fuel) n m [] db le k r = record {
    empty = refl;
    posted = refl;
    kept = λ j o. refl;
    delivered = tt;
  }
  drain_rows turns w zero n m (e ∷ es) db le k r = absurd (omega (arith, le))
  drain_rows turns w (suc fuel) n m (e ∷ es) db le k r =
      let v = visit (turns n).surroundings db m e es (w n) k r.0 in
      let db1 = (deliver_to_endpoint_once (turns n).surroundings db (ids m) tenant_id).database in
      let ready =
        AllReady-kept ids now event_id tenant_id db db1 v.endpoints (ids m) v.others_kept (suc m) es
          r.0.others r.1 in
      let rest = drain_rows turns w fuel (suc n) (suc m) es db1 (omega (arith, le)) v.known ready in
      step-IsDrained turns (drain turns fuel) n m e es db
        (map (delivery_task tenant_id) (rows ids now event_id tenant_id (suc m) es))
        (deliver_to_endpoint_once (turns n).surroundings db (ids m) tenant_id) v r.0 rest
