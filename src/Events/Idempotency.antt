-- ===== src/Events/Idempotency.antt =====
-- The idempotency of event ingestion, for events with an idempotency key.
use webhook_delivery_service.Base.{
  ◌≡◌, ◌⊎◌, refl, sym, ap, ◌∙◌, subst, Bool, true, false, ◌&&◌, Option, none, some, List, [], ◌∷◌,
  arith, any, select, scalar_one_or_none, ◌==◌, ==_refl, str_eq, eq_iff, Bool-cases, Option-cases,
  inl, inr, String,
}
use webhook_delivery_service.Models.{Uuid, Datetime, Tenant, Event}
use webhook_delivery_service.Models.Json.{Fields}
use webhook_delivery_service.Errors.{Result, ok, raised, ◌>>=◌, >>=-eq-ok, ok_injective}
use webhook_delivery_service.Tasks.{Task, deliver_event, default_queue}
use webhook_delivery_service.Database.{Database, insert_event, key_clash, same_key}
use webhook_delivery_service.Database.Valid.{IsValid}
use webhook_delivery_service.Database.Keeps.{insert_event-IsValid, insert_event-inversion}
use webhook_delivery_service.Events.{
  EventCreate, EventInsertResult, new_event, find_event_by_key, existing, inserted, insert_by_key,
  ingest_tasks, ingest_event,
}

-- The clause of the lookup, as the constraint states it.
abbrev has_event_key : Uuid → Option String → Event → Bool
has_event_key tenant_id key e = e.tenant_id == tenant_id && same_key e.idempotency_key key

str_eq_sym : (s t : String) → str_eq s t ≡ true → str_eq t s ≡ true
str_eq_sym s t h = (eq_iff t s).1 (sym ((eq_iff s t).0 h))

same_key_sym : (a b : Option String) → same_key a b ≡ true → same_key b a ≡ true
same_key_sym none b h = cc
same_key_sym (some k) none h = cc
same_key_sym (some k) (some j) h = str_eq_sym k j h

same_key_self : (k : String) → same_key (some k) (some k) ≡ true
same_key_self k = (eq_iff k k).1 refl

-- Where the constraint refuses an insert, the lookup finds the row in the way.
pub clash-found :
    (x : Event) (es : List Event)
    → any (key_clash x) es ≡ true
    → (e : Event) × (scalar_one_or_none (select (has_event_key x.tenant_id x.idempotency_key) es)
        ≡ some e)
clash-found x [] h = cc
clash-found x (e ∷ es) h = elim (Bool-cases (has_event_key x.tenant_id x.idempotency_key e)) [
  | inl hit ↦ (e, rw hit)
  | inr miss ↦
      let (f, found) =
        clash-found x es (ground (arith, same_key_sym x.idempotency_key e.idempotency_key, h)) in
      (f, rw miss found)
]

found-clash :
    (x : Event) (es : List Event) {e : Event}
    → scalar_one_or_none (select (has_event_key x.tenant_id x.idempotency_key) es) ≡ some e
    → any (key_clash x) es ≡ true
found-clash x [] h = cc
found-clash x (f ∷ es) h = elim (Bool-cases (has_event_key x.tenant_id x.idempotency_key f)) [
  | inl hit ↦ ground (arith, same_key_sym f.idempotency_key x.idempotency_key)
  | inr miss ↦ any_later x f es (found-clash x es (rw miss at h))
]
  where
    any_later :
        (x f : Event) (es : List Event)
        → any (key_clash x) es ≡ true
        → any (key_clash x) (f ∷ es) ≡ true
    any_later x f es h = ground arith

-- The insert of a row whose key is taken, and of one whose key is free.
insert_by_key-taken :
    (x : Event) (db : Database) (k : String) {e : Event}
    → x.idempotency_key ≡ some k
    → find_event_by_key db x.tenant_id x.idempotency_key ≡ some e
    → insert_by_key x.idempotency_key x db ≡ ok (db, record { event_id = e.id; created = false })
unfolding find_event_by_key
insert_by_key-taken x db k key found =
    subst
      (λ o. insert_by_key o x db ≡ existing db (find_event_by_key db x.tenant_id x.idempotency_key))
      (sym key) (rw (found-clash x db.events found))
    ∙ ap (existing db) found

insert_by_key-free :
    (x : Event) (db : Database)
    → (x.idempotency_key ≡ none) ⊎ (any (key_clash x) db.events ≡ false)
    → insert_by_key x.idempotency_key x db ≡ inserted x.id (insert_event x db)
insert_by_key-free x db (inl e) = rw e
insert_by_key-free x db (inr free) = by_key x.idempotency_key
  where
    by_key : (o : Option String) → insert_by_key o x db ≡ inserted x.id (insert_event x db)
    by_key none = refl
    by_key (some k) = rw free

pub find_lem :
    (x : Event) (db : Database) {e : Event}
    → scalar_one_or_none (select (has_event_key x.tenant_id x.idempotency_key) db.events) ≡ some e
    → find_event_by_key db x.tenant_id x.idempotency_key ≡ some e
unfolding find_event_by_key
find_lem x db h = h

-- A row that was just inserted is the first to be found.
find_new :
    (k : String) (db : Database) (x : Event)
    → x.idempotency_key ≡ some k
    → find_event_by_key (record db { events = x ∷ db.events }) x.tenant_id x.idempotency_key
      ≡ some x
unfolding find_event_by_key
find_new k db x key =
    let same : same_key x.idempotency_key x.idempotency_key ≡ true =
      subst (λ o. same_key o o ≡ true) (sym key) (same_key_self k) in
    rw (==_refl x.tenant_id, same)

abbrev answer :
    Database → EventInsertResult → List Task → Result (Database × EventInsertResult × List Task)
answer db r tasks = ok (db, r, tasks)

ok_parts :
    {a b : Database} {r q : EventInsertResult} {ts us : List Task}
    → answer a r ts ≡ answer b q us
    → (a ≡ b) × (r ≡ q) × (ts ≡ us)
ok_parts e =
    let p = ok_injective e in
    (
      ap (λ (x : Database × EventInsertResult × List Task). x.0) p,
      ap (λ (x : Database × EventInsertResult × List Task). x.1) p,
      ap (λ (x : Database × EventInsertResult × List Task). x.2) p,
    )

-- The tasks of the request that created an event.
abbrev pub created_tasks : Uuid → Tenant → EventCreate → List Task
created_tasks id tenant event_in =
    deliver_event id tenant.id event_in.idempotency_key default_queue ∷ []

module _ (jsonb : Fields → Fields) (id : Uuid) (now : Datetime) (db : Database) (tenant : Tenant)
    (event_in : EventCreate) where
  abbrev row : Event
  row = new_event jsonb id now tenant.id event_in

  -- A request whose key the tenant has used before writes nothing and dispatches nothing, whatever its
  -- type and payload; it is answered with the id of the event that has the key, as not created.
  pub ingest_duplicate :
      (k : String) (e : Event)
      → event_in.idempotency_key ≡ some k
      → find_event_by_key db tenant.id event_in.idempotency_key ≡ some e
      → ingest_event jsonb id now db tenant event_in
        ≡ ok (db, record { event_id = e.id; created = false }, [])
  unfolding ingest_event
  ingest_duplicate k e key found = rw (insert_by_key-taken row db k key found)

  pub ingest_free :
      (event_in.idempotency_key ≡ none) ⊎ (any (key_clash row) db.events ≡ false)
      → ingest_event jsonb id now db tenant event_in ≡ (
          insert_event row db >>= λ db'.
          answer db' (record { event_id = id; created = true }) (created_tasks id tenant event_in))
  unfolding ingest_event
  ingest_free free = rw (insert_by_key-free row db free) (bind_inserted (insert_event row db))
    where
      bind_inserted :
          (r : Result Database)
          → (inserted id r >>= λ (p : Database × EventInsertResult).
              answer p.0 p.1 (ingest_tasks tenant.id event_in.idempotency_key p.1))
            ≡ (r >>= λ db'.
                answer db'
                  (record { event_id = id; created = true })
                  (created_tasks id tenant event_in))
      bind_inserted (ok x) = refl
      bind_inserted (raised e) = refl

  -- How a request that is answered went: its key was taken, or its row was inserted.
  pub data Ingested (db' : Database) (r : EventInsertResult) (tasks : List Task) : Type 0 where
    duplicate :
        (e : Event)
        → find_event_by_key db tenant.id event_in.idempotency_key ≡ some e
        → db' ≡ db
        → r ≡ record { event_id = e.id; created = false }
        → tasks ≡ []
        → Ingested db' r tasks
    fresh :
        insert_event row db ≡ ok db'
        → r ≡ record { event_id = id; created = true }
        → tasks ≡ created_tasks id tenant event_in
        → Ingested db' r tasks

  -- A request that is answered either found its key taken by an event of the tenant, and then wrote and
  -- dispatched nothing, or inserted its event and dispatched exactly one task for it.
  pub ingest-Ingested :
      {db' : Database} {r : EventInsertResult} {tasks : List Task}
      → ingest_event jsonb id now db tenant event_in ≡ ok (db', r, tasks)
      → Ingested db' r tasks
  ingest-Ingested {db'} {r} {tasks} e = elim (Option-cases event_in.idempotency_key) [
    | inl none_given ↦ of_free (inl none_given)
    | inr (k, key) ↦ elim (Bool-cases (any (key_clash row) db.events)) [
      | inl clash ↦
          let (x, found) = clash-found row db.events clash in
          let parts = ok_parts (sym (ingest_duplicate k x key (find_lem row db found)) ∙ e) in
          duplicate x (find_lem row db found) (sym parts.0) (sym parts.1) (sym parts.2)
      | inr free ↦ of_free (inr free)
    ]
  ]
    where
      of_free :
          (event_in.idempotency_key ≡ none) ⊎ (any (key_clash row) db.events ≡ false)
          → Ingested db' r tasks
      of_free free =
          let (db1, e1, e2) = >>=-eq-ok (insert_event row db) _ (sym (ingest_free free) ∙ e) in
          let parts = ok_parts e2 in
          fresh (subst (λ x. insert_event row db ≡ ok x) parts.0 e1) (sym parts.1) (sym parts.2)

  -- Ingestion keeps the database well-formed.
  pub ingest-IsValid :
      {db' : Database} {r : EventInsertResult} {tasks : List Task}
      → ingest_event jsonb id now db tenant event_in ≡ ok (db', r, tasks)
      → IsValid db
      → IsValid db'
  ingest-IsValid {db'} e v = by_case (ingest-Ingested e)
    where
      by_case : {r : EventInsertResult} {tasks : List Task} → Ingested db' r tasks → IsValid db'
      by_case (duplicate x found same p q) = subst IsValid (sym same) v
      by_case (fresh done p q) = insert_event-IsValid row db done v

  -- After a request with a key was answered, the lookup of the key finds the event of the answer.
  answered-found :
      (k : String) {db' : Database} {r : EventInsertResult} {tasks : List Task}
      → event_in.idempotency_key ≡ some k
      → Ingested db' r tasks
      → (e : Event) × (find_event_by_key db' tenant.id event_in.idempotency_key ≡ some e)
        × (e.id ≡ r.event_id)
  answered-found k key (duplicate x found same p q) =
      (x, rw same found, ap (λ (z : EventInsertResult). z.event_id) (sym p))
  answered-found k key (fresh done p q) = (
    row,
    rw (insert_event-inversion row db done).2 (find_new k db row key),
    ap (λ (z : EventInsertResult). z.event_id) (sym p),
  )

-- Two requests of a tenant with the same key, one after the other: whatever the second one carries, it
-- gets the id that the first one got, is not created, and neither writes nor dispatches anything.
pub ingest_twice :
    (jsonb jsonb' : Fields → Fields) (id id' : Uuid) (now now' : Datetime) (db : Database)
    (tenant : Tenant) (first second : EventCreate) (k : String) {db' : Database}
    {r : EventInsertResult} {tasks : List Task}
    → first.idempotency_key ≡ some k
    → second.idempotency_key ≡ some k
    → ingest_event jsonb id now db tenant first ≡ ok (db', r, tasks)
    → ingest_event jsonb' id' now' db' tenant second
      ≡ ok (db', record { event_id = r.event_id; created = false }, [])
ingest_twice jsonb jsonb' id id' now now' db tenant first second k {db'} key key' e =
    let (x, found, same) =
      answered-found jsonb id now db tenant first k key
        (ingest-Ingested jsonb id now db tenant first e) in
    let found' = subst (λ o. find_event_by_key db' tenant.id o ≡ some x) (key ∙ sym key') found in
    ingest_duplicate jsonb' id' now' db' tenant second k x key' found'
    ∙ ap (λ i. answer db' (record { event_id = i; created = false }) []) same
