-- ===== src/System/Gone.antt =====
-- An endpoint that is off, in what the statements of the service do.
use webhook_delivery_service.Base.{
  ℕ, ◌≡◌, refl, sym, ap, ◌∙◌, subst, true, false, Option, none, some, List, ◌∷◌, arith, any, lookup,
  lookup-replace_ne, ◌==◌, ==_refl, inl, inr, Bool-cases, All, All-replace, any-scalar, any_mono,
  replace,
}
use webhook_delivery_service.Models.Json.{Fields}
use webhook_delivery_service.Models.{Uuid, Datetime, Tenant, Endpoint, Event}
use webhook_delivery_service.Errors.{ok, raised, >>=-eq-ok, ok_injective}
use webhook_delivery_service.Tasks.{Task}
use webhook_delivery_service.Database.{Database}
use webhook_delivery_service.Database.Valid.{IsValid}
use webhook_delivery_service.Database.Keeps.{insert_event-inversion}
use webhook_delivery_service.Queries.{list_active_matching_endpoints_for_tenant}
use webhook_delivery_service.Endpoints.{delete_endpoint, update_endpoint, EndpointUpdate}
use webhook_delivery_service.Endpoints.Lifecycle.{not_found, lookup_endpoint, hidden_not_found}
use webhook_delivery_service.Endpoints.Deletion.{IsOff}
use webhook_delivery_service.Events.{EventCreate, EventInsertResult, new_event}
use webhook_delivery_service.Events.Idempotency.{Ingested, duplicate, fresh}
use webhook_delivery_service.Delivery.FanOut.{build_deliveries, insert_deliveries, fan_out_found}
use webhook_delivery_service.Delivery.FanOut.Batch.{insert_deliveries-push_all}
use webhook_delivery_service.Delivery.Attempt.{post_and_record, build_request}
use webhook_delivery_service.Delivery.Once.{Surroundings, given_up, deliver_to_endpoint_once}
use webhook_delivery_service.Delivery.Once.Commit.{commit_tables}
use webhook_delivery_service.Delivery.Once.Cases.{once_cases}

-- The row is there, and it is off.
pub record IsGone (id : Uuid) (db : Database) : Type 0 where
  pub row : Endpoint
  pub found : lookup_endpoint id db ≡ some row
  pub inactive : row.is_active ≡ false
  pub off : All (IsOff id) db.endpoints

pub same_endpoints :
    (id : Uuid) (db db' : Database) → db'.endpoints ≡ db.endpoints → IsGone id db → IsGone id db'
same_endpoints id db db' e g = record {
  row = g.row;
  found = ap (λ es. lookup (λ x. x.id) id es) e ∙ g.found;
  inactive = g.inactive;
  off = subst (λ es. All (IsOff id) es) (sym e) g.off;
}

pub gone-hidden :
    (id : Uuid) (db : Database) (tenant : Tenant) (u : EndpointUpdate)
    → IsValid db
    → IsGone id db
    → (update_endpoint db tenant id u ≡ raised not_found)
      × (delete_endpoint db tenant id ≡ raised not_found)
gone-hidden id db tenant u v g =
    hidden_not_found db v tenant id u (inr (g.row, g.found, inl g.inactive))

-- Another endpoint's row is replaced.
pub replaced-IsGone :
    (id : Uuid) (db : Database) (x : Endpoint)
    → (x.id == id) ≡ false
    → IsGone id db
    → IsGone id (record db { endpoints = replace (λ e. e.id) x db.endpoints })
replaced-IsGone id db x other g = record {
  row = g.row;
  found = lookup-replace_ne (λ e. e.id) id x db.endpoints other ∙ g.found;
  inactive = g.inactive;
  off =
      All-replace (λ e. e.id) (IsOff id) x db.endpoints g.off (λ same. ground (arith, ==_refl id));
}

pub inserted-IsGone :
    (id : Uuid) (db : Database) (x : Endpoint)
    → any (λ f. x.id == f.id) db.endpoints ≡ false
    → IsGone id db
    → IsGone id (record db { endpoints = x ∷ db.endpoints })
inserted-IsGone id db x unused g =
    let there : any (λ f. f.id == id) db.endpoints ≡ true =
      any-scalar (λ f. f.id == id) db.endpoints g.found in
    elim (Bool-cases (x.id == id)) [
      | inl same ↦ cc (
        any_mono (λ f. x.id == f.id) (λ f. f.id == id) (λ f h. ground arith) db.endpoints unused,
        there,
      )
      | inr other ↦ record {
        row = g.row;
        found = rw other g.found;
        inactive = g.inactive;
        off = ((λ same. ground (arith, ==_refl id)), g.off);
      }
    ]

pub run-endpoints :
    (s : Surroundings) (db : Database) (id tenant_id : Uuid)
    → IsValid db
    → (deliver_to_endpoint_once s db id tenant_id).database.endpoints ≡ db.endpoints
run-endpoints s db id tenant_id v =
    once_cases (λ r. r.database.endpoints ≡ db.endpoints) s db id tenant_id
      (λ d c message. (commit_tables s db (given_up message d)).1)
      (λ d endpoint event tenant c l.
        (commit_tables s db
          (post_and_record s.client s.reading
            (build_request s.hmac tenant.signing_secret endpoint event) tenant_id d).0).1)
      v refl

pub fan_out-endpoints :
    (ids : ℕ → Uuid) (now : Datetime) (db : Database) (event_id tenant_id : Uuid)
    (found : Option Event) {db' : Database} {tasks : List Task}
    → fan_out_found ids now db event_id tenant_id found ≡ ok (db', tasks)
    → db'.endpoints ≡ db.endpoints
fan_out-endpoints ids now db event_id tenant_id none e =
    ap (λ (p : Database × List Task). p.0.endpoints) (sym (ok_injective e))
fan_out-endpoints ids now db event_id tenant_id (some event) e =
    let es = list_active_matching_endpoints_for_tenant db tenant_id event.event_type in
    let ds = build_deliveries ids 0 now event_id tenant_id es in
    let (db1, e1, e2) = >>=-eq-ok (insert_deliveries ds db) _ e in
    ap (λ (p : Database × List Task). p.0.endpoints) (sym (ok_injective e2))
    ∙ ap (λ (x : Database). x.endpoints) (insert_deliveries-push_all ds db e1)

pub ingest-endpoints :
    (jsonb : Fields → Fields) (id : Uuid) (now : Datetime) (db : Database) (tenant : Tenant)
    (e : EventCreate) {db' : Database} {r : EventInsertResult} {tasks : List Task}
    → Ingested jsonb id now db tenant e db' r tasks
    → db'.endpoints ≡ db.endpoints
ingest-endpoints jsonb id now db tenant e (duplicate x found same p q) =
    ap (λ (d : Database). d.endpoints) same
ingest-endpoints jsonb id now db tenant e (fresh done p q) =
    ap (λ (d : Database). d.endpoints)
      (insert_event-inversion (new_event jsonb id now tenant.id e) db done).2
