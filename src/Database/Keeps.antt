-- ===== src/Database/Keeps.antt =====
-- What a statement that succeeds has checked and written, and the invariant under it.
use webhook_delivery_service.Base.{
  ◌≡◌, refl, sym, subst, some, lookup, All-lookup, key-lookup, ◌∙◌, true, false, ◌&&◌, List, ◌∷◌,
  any, All, All-mono, All-replace, Distinct, Distinct-replace, same_id, any_cons, any-replace,
  replace, ◌==◌, arith,
}
use webhook_delivery_service.Models.{Tenant, Endpoint, Event, Delivery}
use webhook_delivery_service.Errors.{ok}
use webhook_delivery_service.Database.{
  Database, tenant_clash, event_clash, has_tenant, insert_tenant, insert_endpoint, insert_event,
  insert_delivery, update_delivery, update_endpoint_row,
}
use webhook_delivery_service.Database.Valid.{IsValid, IsOwned}

-- What a successful statement has checked, and what it made.
pub insert_tenant-inversion :
    (t : Tenant) (db : Database) {db' : Database}
    → insert_tenant t db ≡ ok db'
    → (any (tenant_clash t) db.tenants ≡ false) × (db' ≡ record db { tenants = t ∷ db.tenants })
unfolding insert_tenant
insert_tenant-inversion t db e = ground arith

pub insert_endpoint-inversion :
    (x : Endpoint) (db : Database) {db' : Database}
    → insert_endpoint x db ≡ ok db'
    → (any (λ f. x.id == f.id) db.endpoints ≡ false)
      × (has_tenant db x.tenant_id ≡ true)
      × (db' ≡ record db { endpoints = x ∷ db.endpoints })
unfolding insert_endpoint
insert_endpoint-inversion x db e = ground arith

pub insert_event-inversion :
    (x : Event) (db : Database) {db' : Database}
    → insert_event x db ≡ ok db'
    → (any (event_clash x) db.events ≡ false)
      × (has_tenant db x.tenant_id ≡ true)
      × (db' ≡ record db { events = x ∷ db.events })
unfolding insert_event
insert_event-inversion x db e = ground arith

pub insert_delivery-inversion :
    (d : Delivery) (db : Database) {db' : Database}
    → insert_delivery d db ≡ ok db'
    → (any (λ x. d.id == x.id) db.deliveries ≡ false)
      × (db' ≡ record db { deliveries = d ∷ db.deliveries })
unfolding insert_delivery
insert_delivery-inversion d db e = ground arith

pub update_endpoint_row-inversion :
    (x : Endpoint) (db : Database) {db' : Database}
    → update_endpoint_row x db ≡ ok db'
    → db' ≡ record db { endpoints = replace (λ y. y.id) x db.endpoints }
unfolding update_endpoint_row
update_endpoint_row-inversion x db e = ground arith

pub insert_tenant-IsValid :
    (t : Tenant) (db : Database) {db' : Database}
    → insert_tenant t db ≡ ok db'
    → IsValid db
    → IsValid db'
insert_tenant-IsValid t db e v =
    let i = insert_tenant-inversion t db e in
    subst IsValid (sym i.1) (record {
      tenants_distinct = (i.0, v.tenants_distinct);
      endpoints_distinct = v.endpoints_distinct;
      events_distinct = v.events_distinct;
      deliveries_distinct = v.deliveries_distinct;
      endpoints_owned =
          All-mono _ _ (λ x h. any_cons (λ u. u.id == x.tenant_id) t db.tenants h) db.endpoints
            v.endpoints_owned;
      events_owned =
          All-mono _ _ (λ x h. any_cons (λ u. u.id == x.tenant_id) t db.tenants h) db.events
            v.events_owned;
      deliveries_owned =
          All-mono _ _ (λ d h. record { event = h.event; endpoint = h.endpoint; row = h.row })
            db.deliveries v.deliveries_owned;
    })

pub insert_endpoint-IsValid :
    (x : Endpoint) (db : Database) {db' : Database}
    → insert_endpoint x db ≡ ok db'
    → IsValid db
    → IsValid db'
insert_endpoint-IsValid x db e v =
    let i = insert_endpoint-inversion x db e in
    subst IsValid (sym i.2) (record {
      tenants_distinct = v.tenants_distinct;
      endpoints_distinct = (i.0, v.endpoints_distinct);
      events_distinct = v.events_distinct;
      deliveries_distinct = v.deliveries_distinct;
      endpoints_owned = (i.1, v.endpoints_owned);
      events_owned = v.events_owned;
      deliveries_owned =
          All-mono _ _
            (λ d h. record {
              event = h.event;
              endpoint =
                  any_cons (λ y. y.id == d.endpoint_id && y.tenant_id == d.tenant_id) x db.endpoints
                    h.endpoint;
              row = h.row;
            })
            db.deliveries v.deliveries_owned;
    })

pub insert_event-IsValid :
    (x : Event) (db : Database) {db' : Database}
    → insert_event x db ≡ ok db'
    → IsValid db
    → IsValid db'
insert_event-IsValid x db e v =
    let i = insert_event-inversion x db e in
    subst IsValid (sym i.2) (record {
      tenants_distinct = v.tenants_distinct;
      endpoints_distinct = v.endpoints_distinct;
      events_distinct = (i.0, v.events_distinct);
      deliveries_distinct = v.deliveries_distinct;
      endpoints_owned = v.endpoints_owned;
      events_owned = (i.1, v.events_owned);
      deliveries_owned =
          All-mono _ _
            (λ d h. record {
              event =
                  any_cons (λ y. y.id == d.event_id && y.tenant_id == d.tenant_id) x db.events
                    h.event;
              endpoint = h.endpoint;
              row = h.row;
            })
            db.deliveries v.deliveries_owned;
    })

with_deliveries :
    (ds : List Delivery) (db : Database) (d : Delivery)
    → IsOwned db d
    → IsOwned (record db { deliveries = ds }) d
with_deliveries ds db d h = record { event = h.event; endpoint = h.endpoint; row = h.row }

-- New rows of the delivery table.
set_deliveries-IsValid :
    (ds : List Delivery) (db : Database)
    → IsValid db
    → Distinct (same_id (λ x. x.id)) ds
    → All (IsOwned db) ds
    → IsValid (record db { deliveries = ds })
set_deliveries-IsValid ds db v distinct owned = record {
  tenants_distinct = v.tenants_distinct;
  endpoints_distinct = v.endpoints_distinct;
  events_distinct = v.events_distinct;
  deliveries_distinct = distinct;
  endpoints_owned = v.endpoints_owned;
  events_owned = v.events_owned;
  deliveries_owned = All-mono _ _ (with_deliveries ds db) ds owned;
}

pub insert_delivery-IsValid :
    (d : Delivery) (db : Database) {db' : Database}
    → insert_delivery d db ≡ ok db'
    → IsOwned db d
    → IsValid db
    → IsValid db'
insert_delivery-IsValid d db e own v =
    let i = insert_delivery-inversion d db e in
    subst IsValid (sym i.1) (
      set_deliveries-IsValid (d ∷ db.deliveries) db v (i.0, v.deliveries_distinct)
        (own, v.deliveries_owned))

pub update_delivery-IsValid :
    (d : Delivery) (db : Database) → IsOwned db d → IsValid db → IsValid (update_delivery d db)
unfolding update_delivery
update_delivery-IsValid d db own v =
    set_deliveries-IsValid _ db v
      (Distinct-replace (λ x. x.id) d db.deliveries v.deliveries_distinct)
      (All-replace (λ x. x.id) (IsOwned db) d db.deliveries v.deliveries_owned own)

-- An endpoint keeps its tenant: `same` says so of the row that is replaced.
pub replace_endpoint-IsValid :
    (x : Endpoint) (db : Database) {y : Endpoint}
    → lookup (λ e. e.id) x.id db.endpoints ≡ some y
    → x.tenant_id ≡ y.tenant_id
    → IsValid db
    → IsValid (record db { endpoints = replace (λ z. z.id) x db.endpoints })
replace_endpoint-IsValid x db {y = y} found same v = record {
  tenants_distinct = v.tenants_distinct;
  endpoints_distinct = Distinct-replace (λ z. z.id) x db.endpoints v.endpoints_distinct;
  events_distinct = v.events_distinct;
  deliveries_distinct = v.deliveries_distinct;
  endpoints_owned =
      All-replace (λ z. z.id) (λ z. has_tenant db z.tenant_id ≡ true) x db.endpoints
        v.endpoints_owned
        (rw same (
          All-lookup (λ z. z.id) (λ z. has_tenant db z.tenant_id ≡ true) x.id db.endpoints
            v.endpoints_owned found));
  events_owned = v.events_owned;
  deliveries_owned =
      All-mono _ _
        (λ d h. record {
          event = h.event;
          endpoint =
              any-replace (λ z. z.id) (λ z. z.id == d.endpoint_id && z.tenant_id == d.tenant_id) x
                db.endpoints v.endpoints_distinct found
                (rw (same, key-lookup (λ z. z.id) x.id db.endpoints found) refl)
              ∙ h.endpoint;
          row = h.row;
        })
        db.deliveries v.deliveries_owned;
}

pub update_endpoint_row-IsValid :
    (x : Endpoint) (db : Database) {db' : Database} {y : Endpoint}
    → update_endpoint_row x db ≡ ok db'
    → lookup (λ e. e.id) x.id db.endpoints ≡ some y
    → x.tenant_id ≡ y.tenant_id
    → IsValid db
    → IsValid db'
update_endpoint_row-IsValid x db e found same v =
    subst IsValid (sym (update_endpoint_row-inversion x db e))
      (replace_endpoint-IsValid x db found same v)
