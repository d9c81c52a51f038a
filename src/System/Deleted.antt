-- ===== src/System/Deleted.antt =====
-- A deleted endpoint in all that the service does later.
use webhook_delivery_service.Base.{
  ◌≡◌, refl, sym, ap, ◌∙◌, subst, false, none, some, lookup-replace_self, key-lookup, ◌==◌, ==→eq,
  inl, inr, Bool-cases, replace,
}
use webhook_delivery_service.Models.{Uuid, Tenant, Endpoint, new_tenant, new_endpoint}
use webhook_delivery_service.Errors.{ok, >>=-eq-ok, ok_injective}
use webhook_delivery_service.Database.{Database, insert_endpoint}
use webhook_delivery_service.Database.Valid.{IsValid}
use webhook_delivery_service.Database.Keeps.{
  insert_tenant-inversion, insert_endpoint-inversion, update_endpoint_row-inversion,
}
use webhook_delivery_service.Queries.{list_active_matching_endpoints_for_tenant}
use webhook_delivery_service.Tenants.Access.{create-inversion}
use webhook_delivery_service.Endpoints.{
  or_conflict, create_endpoint, delete_endpoint, update_endpoint, apply_update, EndpointUpdate,
}
use webhook_delivery_service.Endpoints.Lifecycle.{
  lookup_endpoint, or_conflict-ok, update-inversion, delete-inversion, delete_endpoint-IsValid,
}
use webhook_delivery_service.Endpoints.Deletion.{IsDeleted, IsOff-after, unmatched_after}
use webhook_delivery_service.Events.Idempotency.{ingest-Ingested}
use webhook_delivery_service.Delivery.FanOut.{fan_out_event_deliveries}
use webhook_delivery_service.System.{
  Service, tenant_created, endpoint_created, endpoint_updated, endpoint_deleted, event_ingested,
  event_fanned_out, served, delivery_run, Steps, start, then_step,
}
use webhook_delivery_service.System.Reachable.{Step-IsValid}
use webhook_delivery_service.System.Gone.{
  IsGone, same_endpoints, gone-hidden, replaced-IsGone, inserted-IsGone, run-endpoints,
  fan_out-endpoints, ingest-endpoints,
}

other_id :
    (id k : Uuid) (db : Database) {e : Endpoint}
    → lookup_endpoint k db ≡ some e
    → (k == id) ≡ false
    → (e.id == id) ≡ false
other_id id k db found h =
    subst (λ j. (j == id) ≡ false) (sym (key-lookup (λ x. x.id) k db.endpoints found)) h

updated-IsGone :
    (id : Uuid) (db : Database) (tenant : Tenant) (k : Uuid) (u : EndpointUpdate)
    {out : Database × Endpoint}
    → IsValid db
    → IsGone id db
    → update_endpoint db tenant k u ≡ ok out
    → IsGone id out.0
updated-IsGone id db tenant k u {out = out} v g h = elim (Bool-cases (k == id)) [
  | inl same ↦ cc (
    subst (λ j. update_endpoint db tenant j u ≡ ok out) (==→eq k id same) h,
    (gone-hidden id db tenant u v g).0,
  )
  | inr other ↦
      let (e, found, written) = update-inversion db v tenant k u h in
      subst (IsGone id) (sym (update_endpoint_row-inversion (apply_update u e) db written))
        (replaced-IsGone id db (apply_update u e) (other_id id k db found other) g)
]

removed-IsGone :
    (id : Uuid) (db : Database) (tenant : Tenant) (k : Uuid) {db' : Database}
    → IsValid db
    → IsGone id db
    → delete_endpoint db tenant k ≡ ok db'
    → IsGone id db'
removed-IsGone id db tenant k {db' = db'} v g h = elim (Bool-cases (k == id)) [
  | inl same ↦ cc (
    subst (λ j. delete_endpoint db tenant j ≡ ok db') (==→eq k id same) h,
    (gone-hidden id db tenant (record { url = none; event_types = none }) v g).1,
  )
  | inr other ↦
      let (e, found, written) = delete-inversion db v tenant k h in
      subst (IsGone id) (sym written)
        (replaced-IsGone id db (record e { is_active = false }) (other_id id k db found other) g)
]

Service-IsGone :
    (id : Uuid) {db db' : Database} → Service db db' → IsValid db → IsGone id db → IsGone id db'
unfolding create_endpoint fan_out_event_deliveries
Service-IsGone id {db = db} {db' = db'} (tenant_created k now key s name h) v g =
    same_endpoints id db db'
      (ap (λ (x : Database). x.endpoints)
        (insert_tenant-inversion (new_tenant k now key s name) db
          (create-inversion k now key s db name h).0).1)
      g
Service-IsGone id {db = db} (endpoint_created k now tenant e h) v g =
    let x = new_endpoint k now tenant.id e.url e.event_types in
    let (db1, e1, e2) = >>=-eq-ok (or_conflict _ (insert_endpoint x db)) _ h in
    let (unused, owned, written) = insert_endpoint-inversion x db (or_conflict-ok _ _ e1) in
    subst (IsGone id) (sym written ∙ ap (λ (p : Database × Endpoint). p.0) (ok_injective e2))
      (inserted-IsGone id db x unused g)
Service-IsGone id {db = db} (endpoint_updated tenant k u h) v g =
    updated-IsGone id db tenant k u v g h
Service-IsGone id {db = db} (endpoint_deleted tenant k h) v g = removed-IsGone id db tenant k v g h
Service-IsGone id {db = db} {db' = db'} (event_ingested jsonb k now tenant e h) v g =
    same_endpoints id db db'
      (ingest-endpoints jsonb k now db tenant e (ingest-Ingested jsonb k now db tenant e h)) g
Service-IsGone id {db = db} {db' = db'} (event_fanned_out ids now event_id tenant_id h) v g =
    same_endpoints id db db' (fan_out-endpoints ids now db event_id tenant_id _ h) g

Steps-IsGone :
    (id : Uuid) {db db' : Database}
    → Steps db db'
    → IsValid db
    → IsGone id db
    → IsValid db' × IsGone id db'
Steps-IsGone id start v g = (v, g)
Steps-IsGone id (then_step ss (served h)) v g =
    let (w, k) = Steps-IsGone id ss v g in (Step-IsValid (served h) w, Service-IsGone id h w k)
Steps-IsGone id (then_step {db1} ss (delivery_run s d t)) v g =
    let (w, k) = Steps-IsGone id ss v g in
    (Step-IsValid (delivery_run s d t) w, same_endpoints id db1 _ (run-endpoints s db1 d t w) k)

gone-IsDeleted : (id : Uuid) (db : Database) → IsValid db → IsGone id db → IsDeleted id db
unfolding list_active_matching_endpoints_for_tenant
gone-IsDeleted id db v g = record {
  kept = (g.row, g.found, g.inactive);
  unmatched = λ t et. unmatched_after id t et db.endpoints g.off;
  gone = λ t u. gone-hidden id db t u v g;
}

deleted-IsGone :
    (id : Uuid) (db db' : Database) (e : Endpoint)
    → e.id ≡ id
    → lookup_endpoint id db ≡ some e
    → db'
      ≡ record db { endpoints = replace (λ x. x.id) (record e { is_active = false }) db.endpoints }
    → IsGone id db'
deleted-IsGone id db db' e same found written =
    let x : Endpoint = record e { is_active = false } in
    subst (IsGone id) (sym written) (record {
      row = record e { is_active = false };
      found =
          subst
            (λ k.
              lookup_endpoint k (record db { endpoints = replace (λ y. y.id) x db.endpoints })
              ≡ some x)
            same
            (lookup-replace_self (λ y. y.id) x db.endpoints
              (subst (λ k. lookup_endpoint k db ≡ some e) (sym same) found));
      inactive = refl;
      off = IsOff-after id x same refl db.endpoints;
    })

-- Deletion is for good: after an endpoint was deleted in a well-formed database, whatever steps the service
-- does, its row stays and stays off, no event type of any tenant matches it, and an update or a deletion of
-- it by any tenant is answered with 404.
pub deletion_is_permanent :
    (tenant : Tenant) (id : Uuid) {db db' db'' : Database}
    → IsValid db
    → delete_endpoint db tenant id ≡ ok db'
    → Steps db' db''
    → IsDeleted id db''
deletion_is_permanent tenant id {db} {db'} {db''} v h ss =
    let (e, found, written) = delete-inversion db v tenant id h in
    let same : e.id ≡ id = key-lookup (λ x. x.id) id db.endpoints found in
    let (w, g) =
      Steps-IsGone id ss (delete_endpoint-IsValid db v tenant id h)
        (deleted-IsGone id db db' e same found written) in
    gone-IsDeleted id db'' w g
