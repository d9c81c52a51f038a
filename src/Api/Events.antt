-- ===== src/Api/Events.antt =====
-- Posting an event twice, through the route.
use webhook_delivery_service.Base.{
  ℕ, ◌≡◌, ltb, length, not, refl, sym, ap, ◌∙◌, subst, String, Option, none, some, [], List, Bool,
  true, false, if◌then◌else◌, Bool-cases, inl, inr,
}
use webhook_delivery_service.Models.{Uuid, Datetime, Tenant}
use webhook_delivery_service.Errors.{
  Exn, app_error, bad_request_error, Result, ok, raised, >>=-eq-ok, ok_injective,
}
use webhook_delivery_service.Tasks.{Task}
use webhook_delivery_service.Database.{Database}
use webhook_delivery_service.Database.Keeps.{insert_event-inversion}
use webhook_delivery_service.Queries.{get_tenant_by_api_key}
use webhook_delivery_service.Tenants.{get_current_tenant, authenticate_tenant}
use webhook_delivery_service.Models.Json.{Fields, payload_bytes}
use webhook_delivery_service.Events.{
  max_event_payload_bytes, EventCreate, EventInsertResult, new_event, is_well_formed,
  validate_event_create_payload, ingest_event,
}
use webhook_delivery_service.Events.Idempotency.{
  Ingested, duplicate, fresh, ingest-Ingested, ingest_twice,
}
use webhook_delivery_service.Api.{
  Context, post_event, Served, event_body, event_status, serve, answer, route, unprocessable,
}

-- A response with the id of an event.
abbrev pub event_response : Database → ℕ → Uuid → List Task → Served
event_response db status_code id tasks =
    (db, record { status_code = status_code; body = event_body id }, tasks)

-- What the answer with an event id tells of the request.
record IsPosted (c : Context) (db : Database) (api_key : Option String) (payload : EventCreate)
    (s : Served) : Type 0 where
  tenant : Tenant
  result : EventInsertResult
  authenticated : get_current_tenant db api_key ≡ ok tenant
  well_formed : is_well_formed payload ≡ true
  small : validate_event_create_payload payload ≡ ok payload
  ingested : ingest_event c.jsonb c.new_id c.now db tenant payload ≡ ok (s.0, result, s.2)
  same_id : s.1.body ≡ event_body result.event_id

if-ok :
    {A : Type 0} (b : Bool) (e : Exn) (r : Result A) {a : A}
    → (if b then raised e else r) ≡ ok a
    → r ≡ ok a
if-ok true e r h = cc
if-ok false e r h = h

pub validated-same :
    (p : EventCreate) {q : EventCreate} → validate_event_create_payload p ≡ ok q → p ≡ q
unfolding validate_event_create_payload
validated-same p h = ok_injective (
    if-ok (ltb max_event_payload_bytes (length (payload_bytes p.payload))) too_large _
      (if-ok (not (is_well_formed p)) invalid _ h))
  where
    too_large : Exn
    too_large =
        app_error
          (bad_request_error "Event payload must be 256KB or smaller." "EVENT_PAYLOAD_TOO_LARGE")

    invalid : Exn
    invalid = app_error (bad_request_error "Invalid event payload." "INVALID_EVENT_PAYLOAD")

answer-event :
    (db : Database) (r : Result Served) {s : Served} {id : Uuid}
    → answer db r ≡ s
    → s.1.body ≡ event_body id
    → r ≡ ok s
unfolding answer
answer-event db (ok x) h b = ap ok h
answer-event db (raised e) h b = cc (ap (λ (x : Served). x.1.body) h ∙ b)

IsPosted-inversion :
    (c : Context) (db : Database) (api_key : Option String) (payload : EventCreate) {s : Served}
    {id : Uuid}
    → serve c db api_key (post_event payload) ≡ s
    → s.1.body ≡ event_body id
    → IsPosted c db api_key payload s
unfolding serve route
IsPosted-inversion c db api_key payload {s = s} h b =
    let (tenant, e1, e2) = >>=-eq-ok (get_current_tenant db api_key) _ (answer-event db _ h b) in
    elim (Bool-cases (is_well_formed payload)) [
      | inl good ↦
          let (p, e3, e4) = >>=-eq-ok (validate_event_create_payload payload) _ (rw good at e2) in
          let same : payload ≡ p = validated-same payload e3 in
          let ingests : (p : EventCreate) → Result (Database × EventInsertResult × List Task) =
            λ p. ingest_event c.jsonb c.new_id c.now db tenant p in
          let (q, e5, e6) = >>=-eq-ok (ingests p) _ e4 in
          let made : (
            q.0,
            record { status_code = event_status q.1; body = event_body q.1.event_id },
            q.2,
          )
              ≡ s =
            ok_injective e6 in
          record {
            tenant = tenant;
            result = q.1;
            authenticated = e1;
            well_formed = good;
            small = subst (λ x. validate_event_create_payload payload ≡ ok x) (sym same) e3;
            ingested =
                subst (λ x. ingests x ≡ ok (s.0, q.1, s.2)) (sym same)
                  (e5 ∙ ap (λ (x : Served). ok (x.0, q.1, x.2)) made);
            same_id = ap (λ (x : Served). x.1.body) (sym made);
          }
      | inr bad ↦
          let made : unprocessable c db ≡ s = ok_injective (rw bad at e2) in
          cc (ap (λ (x : Served). x.1.body) made ∙ b)
    ]

-- Ingestion leaves the tenants alone, so a key is whose it was.
ingest-tenants :
    (jsonb : Fields → Fields) (id : Uuid) (now : Datetime) (db : Database) (tenant : Tenant)
    (e : EventCreate) {db' : Database} {r : EventInsertResult} {tasks : List Task}
    → Ingested jsonb id now db tenant e db' r tasks
    → db'.tenants ≡ db.tenants
ingest-tenants jsonb id now db tenant e (duplicate x found same p q) =
    ap (λ (d : Database). d.tenants) same
ingest-tenants jsonb id now db tenant e (fresh done p q) =
    ap (λ (d : Database). d.tenants)
      (insert_event-inversion (new_event jsonb id now tenant.id e) db done).2

get_current_tenant-tenants :
    (db db' : Database) (api_key : Option String)
    → db'.tenants ≡ db.tenants
    → get_current_tenant db' api_key ≡ get_current_tenant db api_key
unfolding get_current_tenant authenticate_tenant get_tenant_by_api_key
get_current_tenant-tenants db db' none e = refl
get_current_tenant-tenants db db' (some key) e = rw e

served_again :
    (c : Context) (db : Database) (api_key : Option String) (payload : EventCreate)
    (tenant : Tenant) (db' : Database) (r : EventInsertResult) (tasks : List Task)
    → get_current_tenant db api_key ≡ ok tenant
    → is_well_formed payload ≡ true
    → validate_event_create_payload payload ≡ ok payload
    → ingest_event c.jsonb c.new_id c.now db tenant payload ≡ ok (db', r, tasks)
    → serve c db api_key (post_event payload) ≡ event_response db' (event_status r) r.event_id tasks
unfolding serve answer route
served_again c db api_key payload tenant db' r tasks e1 e2 e3 e4 = rw (e1, e2, e3, e4)

-- A client that repeats a request with an idempotency key, with the same API key, gets the id that the first
-- answer had, now with status 200, and the repeated request changes nothing and sends no task.
pub post_event_twice :
    (c c' : Context) (db : Database) (api_key : Option String) (payload : EventCreate) (k : String)
    {db' : Database} {status_code : ℕ} {id : Uuid} {tasks : List Task}
    → payload.idempotency_key ≡ some k
    → serve c db api_key (post_event payload) ≡ event_response db' status_code id tasks
    → serve c' db' api_key (post_event payload) ≡ event_response db' 200 id []
post_event_twice c c' db api_key payload k {db' = db'} key h =
    let p = IsPosted-inversion c db api_key payload h refl in
    let same = get_current_tenant-tenants db db' api_key (
      ingest-tenants c.jsonb c.new_id c.now db p.tenant payload
        (ingest-Ingested c.jsonb c.new_id c.now db p.tenant payload p.ingested)) in
    served_again c' db' api_key payload p.tenant db' _ [] (same ∙ p.authenticated) p.well_formed
      p.small
      (ingest_twice c.jsonb c'.jsonb c.new_id c'.new_id c.now c'.now db p.tenant payload payload k
        key key p.ingested)
    ∙ ap (λ b. (db', record { status_code = 200; body = b }, [])) (sym p.same_id)
