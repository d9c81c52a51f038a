-- ===== src/System/Broker/Known.antt =====
-- Which rows the queued tasks name.
use webhook_delivery_service.Base.{
  ℕ, ◌≡◌, refl, sym, ap, ◌∙◌, subst, Bool, true, none, List, [], ◌∷◌, ◌++◌, map, any, All,
  All-append, All-mono,
}
use webhook_delivery_service.Models.{Datetime, Endpoint, Event, Delivery, new_tenant, new_endpoint}
use webhook_delivery_service.Errors.{>>=-eq-ok, ok_injective}
use webhook_delivery_service.Tasks.{Task, deliver_to_endpoint, delivery_queue}
use webhook_delivery_service.Database.{Database, insert_endpoint}
use webhook_delivery_service.Database.Valid.{IsValid, empty-IsValid}
use webhook_delivery_service.Database.Keeps.{
  insert_tenant-inversion, insert_endpoint-inversion, update_endpoint_row-inversion,
}
use webhook_delivery_service.Tenants.Access.{create-inversion}
use webhook_delivery_service.Endpoints.{or_conflict, create_endpoint, apply_update}
use webhook_delivery_service.Endpoints.Lifecycle.{
  or_conflict-ok, update-inversion, delete-inversion,
}
use webhook_delivery_service.Events.Idempotency.{ingest-Ingested}
use webhook_delivery_service.Delivery.Once.Claim.{claim-IsClaimed}
use webhook_delivery_service.Delivery.Recovery.{send_stuck_deliveries}
use webhook_delivery_service.Delivery.Recovery.Due.{IsClaimableTask, listed-IsClaimableTask}
use webhook_delivery_service.System.{
  Service, tenant_created, endpoint_created, endpoint_updated, endpoint_deleted, event_ingested,
  event_fanned_out, delivery_run,
}
use webhook_delivery_service.System.Reachable.{Service-IsValid, Step-IsValid}
use webhook_delivery_service.System.Rows.{Service-IsKept}
use webhook_delivery_service.System.Broker.{
  Broker, Queued, first, later, Tick, serves, ingests, fans_out, delivers, recovers, leaves, Ticks,
  booted, then_tick,
}
use webhook_delivery_service.System.Broker.Runs.{
  IsKnown, IsGrown, IsKnown-later, deliver_to_endpoint_once-IsRun,
}
use webhook_delivery_service.System.Broker.Sent.{ingest-IsGrown, ingest-IsKnown, fan_out-IsKnown}

Service-events :
    {db db' : Database}
    → Service db db'
    → IsValid db
    → (p : Event → Bool) → any p db.events ≡ true
    → any p db'.events ≡ true
unfolding create_endpoint
Service-events {db = db} (tenant_created k now key s name h) v p q =
    subst (λ (d : Database). any p d.events ≡ true)
      (sym
        (insert_tenant-inversion (new_tenant k now key s name) db
          (create-inversion k now key s db name h).0).1)
      q
Service-events {db = db} (endpoint_created k now tenant e h) v p q =
    let x = new_endpoint k now tenant.id e.url e.event_types in
    let (db1, e1, e2) = >>=-eq-ok (or_conflict _ (insert_endpoint x db)) _ h in
    subst (λ (d : Database). any p d.events ≡ true)
      (sym (insert_endpoint-inversion x db (or_conflict-ok _ _ e1)).2
        ∙ ap (λ (o : Database × Endpoint). o.0) (ok_injective e2))
      q
Service-events {db = db} (endpoint_updated tenant k u h) v p q =
    let (e, found, written) = update-inversion db v tenant k u h in
    subst (λ (d : Database). any p d.events ≡ true)
      (sym (update_endpoint_row-inversion (apply_update u e) db written)) q
Service-events {db = db} (endpoint_deleted tenant k h) v p q =
    let (e, found, written) = delete-inversion db v tenant k h in
    subst (λ (d : Database). any p d.events ≡ true) (sym written) q
Service-events {db = db} (event_ingested jsonb k now tenant e h) v p q =
    ingest-IsGrown jsonb k now db tenant e (ingest-Ingested jsonb k now db tenant e h) p q
Service-events {db = db} {db' = db'} (event_fanned_out ids now event_id tenant_id h) v p q =
    subst (λ es. any p es ≡ true)
      (sym
        (fan_out-IsKnown ids now db event_id tenant_id h
          (Service-IsValid (event_fanned_out ids now event_id tenant_id h) v)).0)
      q

Service-IsGrown : {db db' : Database} → Service db db' → IsValid db → IsGrown db db'
Service-IsGrown h v = record {
  events = Service-events h v;
  rows = λ id {x} e. (x, (Service-IsKept h v).same_row id e, refl);
}

-- The tasks of the recovery task.
recovered-IsKnown :
    (now : Datetime) (db : Database) (ds : List Delivery)
    → IsValid db
    → All (IsClaimableTask now db) ds
    → All (IsKnown db) (map (λ d. deliver_to_endpoint d.id d.tenant_id delivery_queue none) ds)
recovered-IsKnown now db [] v h = tt
recovered-IsKnown now db (d ∷ ds) v h =
    let c = claim-IsClaimed [] now db d.id d.tenant_id v h.0 in
    ((d, c.found, refl), recovered-IsKnown now db ds v h.1)

recovery-IsKnown :
    (now : Datetime) (n : ℕ) (db : Database)
    → IsValid db
    → All (IsKnown db) (send_stuck_deliveries now n db).0
unfolding send_stuck_deliveries
recovery-IsKnown now n db v = recovered-IsKnown now db _ v (listed-IsClaimableTask now n db v)

All-left :
    {ts rest : List Task} {t : Task} (P : Task → Type 0) → Queued ts t rest → All P ts → All P rest
All-left P first h = h.1
All-left P (later q) h = (h.0, All-left P q h.1)

grown-queue :
    (db db' : Database) (new old : List Task)
    → IsGrown db db'
    → All (IsKnown db') new
    → All (IsKnown db) old
    → All (IsKnown db') (new ++ old)
grown-queue db db' new old g h k =
    All-append (IsKnown db') new old h (All-mono _ _ (IsKnown-later db db' g) old k)

pub record IsSound (b : Broker) : Type 0 where
  pub valid : IsValid b.database
  pub known : All (IsKnown b.database) b.queue

Tick-IsSound : {b b' : Broker} → Tick b b' → IsSound b → IsSound b'
Tick-IsSound {b = b} (serves {db'} h) s = record {
  valid = Service-IsValid h s.valid;
  known = All-mono _ _ (IsKnown-later b.database db' (Service-IsGrown h s.valid)) b.queue s.known;
}
Tick-IsSound {b = b} (ingests jsonb id now tenant e {db'} {r} {tasks} h) s =
    let step = event_ingested jsonb id now tenant e h in
    record {
      valid = Service-IsValid step s.valid;
      known =
          grown-queue b.database db' tasks b.queue (Service-IsGrown step s.valid)
            (ingest-IsKnown jsonb id now b.database tenant e
              (ingest-Ingested jsonb id now b.database tenant e h))
            s.known;
    }
Tick-IsSound {b = b} (fans_out ids now {event_id} {tenant_id} {key} {q} {rest} {db'} {tasks} t h)
      s =
    let step = event_fanned_out ids now event_id tenant_id h in
    let v = Service-IsValid step s.valid in
    record {
      valid = v;
      known =
          grown-queue b.database db' tasks b.queue (Service-IsGrown step s.valid)
            (fan_out-IsKnown ids now b.database event_id tenant_id h v).1 s.known;
    }
Tick-IsSound {b = b} (delivers w {id} {tenant_id} t) s =
    let r = deliver_to_endpoint_once-IsRun w b.database id tenant_id s.valid in
    record {
      valid = Step-IsValid (delivery_run w id tenant_id) s.valid;
      known = grown-queue b.database _ _ b.queue r.0 r.1 s.known;
    }
Tick-IsSound {b = b} (recovers now n) s = record {
  valid = s.valid;
  known =
      All-append (IsKnown b.database) _ b.queue (recovery-IsKnown now n b.database s.valid) s.known;
}
Tick-IsSound {b = b} (leaves q) s = record {
  valid = s.valid;
  known = All-left (IsKnown b.database) q s.known;
}

-- From empty tables and an empty queue, with tasks that run once, more than once or never, each task in the
-- queue names a row that is there: the event of a `deliver_event` task and the delivery of a
-- `deliver_to_endpoint` task exist, and belong to the tenant that the task carries.
pub queued-IsKnown : {b : Broker} → Ticks b → All (IsKnown b.database) b.queue
queued-IsKnown ts = (sound ts).known
  where
    sound : {b : Broker} → Ticks b → IsSound b
    sound booted = record { valid = empty-IsValid; known = tt }
    sound (then_tick us t) = Tick-IsSound t (sound us)
