-- ===== src/Database.antt =====
-- The Postgres tables as lists of rows, and what INSERT and UPDATE do to them: the constraints of
-- app/models (primary keys, foreign keys, unique columns, lengths), checked when a row is flushed.
pub mod Valid
pub mod Keeps
use webhook_delivery_service.Base.{
  ℕ, String, Bool, true, false, Option, none, some, List, [], ◌∷◌, replace, ◌&&◌, ◌||◌, not, any,
  length, leb, ◌==◌, str_eq, if◌then◌else◌,
}
use webhook_delivery_service.Models.{Uuid, Tenant, Endpoint, Event, Delivery}
use webhook_delivery_service.Models.Json.{codes}
use webhook_delivery_service.Errors.{Result, ok, raised, data_error, integrity_error}

pub record Database : Type 0 where
  pub tenants : List Tenant
  pub endpoints : List Endpoint
  pub events : List Event
  pub deliveries : List Delivery

-- `String(n)`.
abbrev pub fits : ℕ → String → Bool
fits n s = leb (length (codes s)) n

abbrev pub all_fit : ℕ → List String → Bool
all_fit n [] = true
all_fit n (s ∷ ss) = fits n s && all_fit n ss

abbrev pub key_fits : Option String → Bool
key_fits none = true
key_fits (some k) = fits 255 k

-- Rows that a unique constraint keeps apart.
abbrev pub tenant_clash : Tenant → Tenant → Bool
tenant_clash t u =
    t.id == u.id || (str_eq t.api_key u.api_key || str_eq t.signing_secret u.signing_secret)

abbrev pub same_key : Option String → Option String → Bool
same_key (some k) (some j) = str_eq k j
same_key _ _ = false

-- `uq_event_tenant_id_idempotency_key`: NULLs are distinct.
abbrev pub key_clash : Event → Event → Bool
key_clash e f = e.tenant_id == f.tenant_id && same_key e.idempotency_key f.idempotency_key

abbrev pub event_clash : Event → Event → Bool
event_clash e f = e.id == f.id || key_clash e f

abbrev pub has_tenant : Database → Uuid → Bool
has_tenant db id = any (λ t. t.id == id) db.tenants

abbrev pub has_endpoint : Database → Uuid → Bool
has_endpoint db id = any (λ e. e.id == id) db.endpoints

abbrev pub has_event : Database → Uuid → Bool
has_event db id = any (λ e. e.id == id) db.events

-- Each insert is flushed and committed, or refused with the table unchanged.
unfoldable pub insert_tenant : Tenant → Database → Result Database
insert_tenant t db =
    if not (fits 255 t.name)
    then raised data_error
    else if any (tenant_clash t) db.tenants
    then raised integrity_error
    else ok (record db { tenants = t ∷ db.tenants })

unfoldable pub insert_endpoint : Endpoint → Database → Result Database
insert_endpoint e db =
    if not (fits 2048 e.url && all_fit 255 e.event_types)
    then raised data_error
    else if any (λ f. e.id == f.id) db.endpoints || not (has_tenant db e.tenant_id)
    then raised integrity_error
    else ok (record db { endpoints = e ∷ db.endpoints })

unfoldable pub insert_event : Event → Database → Result Database
insert_event e db =
    if not (fits 255 e.event_type && key_fits e.idempotency_key)
    then raised data_error
    else if any (event_clash e) db.events || not (has_tenant db e.tenant_id)
    then raised integrity_error
    else ok (record db { events = e ∷ db.events })

unfoldable pub insert_delivery : Delivery → Database → Result Database
insert_delivery d db =
    if any (λ x. d.id == x.id) db.deliveries
      || not
          (has_event db d.event_id && (has_endpoint db d.endpoint_id && has_tenant db d.tenant_id))
    then raised integrity_error
    else ok (record db { deliveries = d ∷ db.deliveries })

-- UPDATE … WHERE id = row.id.
unfoldable pub update_delivery : Delivery → Database → Database
update_delivery d db = record db { deliveries = replace (λ x. x.id) d db.deliveries }

unfoldable pub update_endpoint_row : Endpoint → Database → Result Database
update_endpoint_row e db =
    if not (fits 2048 e.url && all_fit 255 e.event_types)
    then raised data_error
    else ok (record db { endpoints = replace (λ x. x.id) e db.endpoints })
