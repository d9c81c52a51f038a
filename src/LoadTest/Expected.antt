-- ===== src/LoadTest/Expected.antt =====
-- How many deliveries the script expects for one event.
use webhook_delivery_service.Base.{
  ℕ, ◌+◌, none, suc, ◌≡◌, refl, ap, ◌∙◌, sym, arith, Bool, some, List, [], ◌∷◌, map, String, length,
  select, Bool-cases, inl, inr, ltb,
}
use webhook_delivery_service.Base.Sort.{order_by}
use webhook_delivery_service.Models.{Uuid, Datetime, Tenant, Endpoint, Event, Delivery}
use webhook_delivery_service.Errors.{ok}
use webhook_delivery_service.Database.{Database}
use webhook_delivery_service.Queries.{
  is_active_of, is_match, list_active_endpoints_by_tenant,
  list_active_matching_endpoints_for_tenant,
}
use webhook_delivery_service.Queries.{get_event_for_tenant}
use webhook_delivery_service.Tasks.{Task, deliver_to_endpoint, delivery_queue}
use webhook_delivery_service.Delivery.FanOut.{fan_out_event_deliveries}
use webhook_delivery_service.Delivery.FanOut.Batch.{fan_out-IsBatch, batch_length, length-of_map}
use webhook_delivery_service.Tenants.{get_current_tenant}
use webhook_delivery_service.Endpoints.{list_endpoints}
use webhook_delivery_service.Delivery.Log.Query.{select-both}
use webhook_delivery_service.Api.{Context, endpoint_response}
use webhook_delivery_service.LoadTest.{is_matching, count_matches, ended, count_matching_endpoints}
use webhook_delivery_service.LoadTest.Counts.{length-select-order_by}

abbrev is_open : String → Endpoint → Bool
is_open event_type e = is_matching event_type (endpoint_response e)

count_matches-select :
    (event_type : String) (es : List Endpoint)
    → count_matches event_type (map endpoint_response es) ≡ length (select (is_open event_type) es)
count_matches-select event_type [] = refl
count_matches-select event_type (e ∷ es) = elim (Bool-cases (is_open event_type e)) [
  | inl hit ↦ rw hit (ap (λ n. suc n) (count_matches-select event_type es))
  | inr miss ↦ rw miss (count_matches-select event_type es)
]

-- The count is the number of endpoints that the query of the fan-out finds.
count_of_matching :
    (c : Context) (db : Database) (api_key event_type : String) (tenant : Tenant)
    → get_current_tenant db (some api_key) ≡ ok tenant
    → count_matching_endpoints c db api_key event_type
      ≡ ended (length (list_active_matching_endpoints_for_tenant db tenant.id event_type))
unfolding count_matching_endpoints list_endpoints list_active_endpoints_by_tenant
    list_active_matching_endpoints_for_tenant
count_of_matching c db api_key event_type tenant known =
    let active = select (is_active_of tenant.id) db.endpoints in
    let by_time : Endpoint → Endpoint → Bool = λ a b. ltb a.created_at b.created_at in
    rw known (
      ap ended (
        count_matches-select event_type (order_by by_time active)
        ∙ length-select-order_by by_time (is_open event_type) active
        ∙ sym (
            ap length (
              select-both (is_active_of tenant.id) (is_open event_type)
                (is_match tenant.id event_type) (λ e. ground arith) db.endpoints))))

-- The number that the script expects for an event is right for the tables that it read: a fan-out of an event
-- of that type on the same tables, where it commits, adds as many delivery rows and sends as many tasks.
pub count_is_fan_out :
    (c : Context) (db : Database) (api_key : String) (tenant : Tenant) (ids : ℕ → Uuid)
    (now : Datetime) (event_id : Uuid) {event : Event} {db' : Database} {tasks : List Task}
    → get_current_tenant db (some api_key) ≡ ok tenant
    → get_event_for_tenant db event_id tenant.id ≡ some event
    → fan_out_event_deliveries ids now db event_id tenant.id ≡ ok (db', tasks)
    → (count_matching_endpoints c db api_key event.event_type ≡ ended (length tasks))
      × (length db'.deliveries ≡ length tasks + length db.deliveries)
count_is_fan_out c db api_key tenant ids now event_id {event} {db'} {tasks} known found ran =
    let b = fan_out-IsBatch ids now db event_id tenant.id found ran in
    let es = list_active_matching_endpoints_for_tenant db tenant.id event.event_type in
    let sent : length tasks ≡ length es = omega (
      arith,
      ap length b.sent,
      length-of_map (λ (d : Delivery). deliver_to_endpoint d.id tenant.id delivery_queue none)
          b.rows,
      ap length b.one_per_endpoint,
      length-of_map (λ (d : Delivery). d.endpoint_id) b.rows,
      length-of_map (λ (e : Endpoint). e.id) es,
    ) in
    (
      count_of_matching c db api_key event.event_type tenant known ∙ ap ended (sym sent),
      omega (arith, batch_length b, sent),
    )
