-- ===== src/Worker/Stops.antt =====
-- How many tasks a worker takes, whatever the endpoints answer.
use webhook_delivery_service.Base.{
  ℕ, zero, suc, ◌+◌, ◌*◌, ◌≤◌, ◌≡◌, refl, ap, sym, subst, Bool, true, Option, none, List, [], ◌∷◌,
  ◌++◌, map, length, arith, All, select, Option-cases, inl, inr, String,
}
use webhook_delivery_service.Models.{Uuid, Endpoint, Event, Delivery}
use webhook_delivery_service.Tasks.{Task, Queue, delivery_queue, deliver_event, deliver_to_endpoint}
use webhook_delivery_service.Database.{Database}
use webhook_delivery_service.Database.Valid.{IsValid}
use webhook_delivery_service.Errors.{Result, raised, ok, ok_injective}
use webhook_delivery_service.Queries.{
  is_match, get_event_for_tenant, list_active_matching_endpoints_for_tenant,
}
use webhook_delivery_service.Delivery.FanOut.{fan_out_event_deliveries}
use webhook_delivery_service.Delivery.FanOut.Batch.{
  push_all, IsFresh, IsBatch, fan_out-IsBatch, length-of_map,
}
use webhook_delivery_service.Delivery.FanOut.Invariant.{fan_out-IsValid}
use webhook_delivery_service.Worker.{Turn, fan_out_run, run_task, drain}
use webhook_delivery_service.Delivery.Once.{Run, idle_run}
use webhook_delivery_service.Delivery.Once.Invariant.{deliver_to_endpoint_once-IsValid}
use webhook_delivery_service.Worker.Work.{
  all_retries, weight, weigh, work, weight-pos, weigh-append, once-Spends,
}

length-select : (p : Endpoint → Bool) (es : List Endpoint) → length (select p es) ≤ length es
length-select p [] = omega arith
length-select p (e ∷ es) = ground (arith, length-select p es)

few_matching :
    (db : Database) (tenant_id : Uuid) (event_type : String)
    → length (list_active_matching_endpoints_for_tenant db tenant_id event_type)
      ≤ length db.endpoints
unfolding list_active_matching_endpoints_for_tenant
few_matching db tenant_id event_type = length-select (is_match tenant_id event_type) db.endpoints

fresh_retries :
    (event_id tenant_id : Uuid) (ds rows : List Delivery)
    → All (IsFresh event_id tenant_id) ds
    → all_retries (push_all ds rows) ≡ 3 * length ds + all_retries rows
fresh_retries event_id tenant_id [] rows h = omega arith
fresh_retries event_id tenant_id (d ∷ ds) rows h =
    omega (arith, fresh_retries event_id tenant_id ds (d ∷ rows) h.1, h.0.unattempted)

weigh-of_map :
    (es : List Endpoint) (tenant_id : Uuid) (ds : List Delivery)
    → weigh es (map (λ d. deliver_to_endpoint d.id tenant_id delivery_queue none) ds) ≡ length ds
weigh-of_map es tenant_id [] = refl
weigh-of_map es tenant_id (d ∷ ds) = omega (arith, weigh-of_map es tenant_id ds)

-- What a task leaves: no more work than there was, itself counted.
record IsSpent (db : Database) (t : Task) (run : Run) : Type 0 where
  valid : IsValid run.database
  endpoints : run.database.endpoints ≡ db.endpoints
  spent :
      1 + weigh db.endpoints run.dispatched + all_retries run.database.deliveries
      ≤ weight db.endpoints t + all_retries db.deliveries

module _ (turn : Turn) (db : Database) (event_id tenant_id : Uuid) (key : Option String)
    (queue : Queue) (v : IsValid db) where
  batch-IsSpent :
      {event : Event} {db' : Database} {tasks : List Task}
      → IsValid db'
      → IsBatch event_id tenant_id event db db' tasks
      → IsSpent db
          (deliver_event event_id tenant_id key queue)
          (record { database = db'; posted = []; dispatched = tasks })
  batch-IsSpent {event} {db'} {tasks} v' b =
      let es = list_active_matching_endpoints_for_tenant db tenant_id event.event_type in
      record {
        valid = v';
        endpoints = ap (λ (x : Database). x.endpoints) b.inserted;
        spent = omega (
          arith,
          ap (λ (x : Database). all_retries x.deliveries) b.inserted,
          fresh_retries event_id tenant_id b.rows db.deliveries b.fresh,
          ap (λ ts. weigh db.endpoints ts) b.sent,
          weigh-of_map db.endpoints tenant_id b.rows,
          ap length b.one_per_endpoint,
          length-of_map (λ (d : Delivery). d.endpoint_id) b.rows,
          length-of_map (λ (e : Endpoint). e.id) es,
          few_matching db tenant_id event.event_type,
        );
      }

  idle-IsSpent :
      (run : Run) → run ≡ idle_run db → IsSpent db (deliver_event event_id tenant_id key queue) run
  idle-IsSpent run same =
      subst (λ r. IsSpent db (deliver_event event_id tenant_id key queue) r) (sym same)
        (record { valid = v; endpoints = refl; spent = omega arith })

  unknown_event :
      {db' : Database} {tasks : List Task}
      → get_event_for_tenant db event_id tenant_id ≡ none
      → fan_out_event_deliveries turn.ids turn.now db event_id tenant_id ≡ ok (db', tasks)
      → fan_out_run db (ok (db', tasks)) ≡ idle_run db
  unfolding fan_out_event_deliveries
  unknown_event gone ran =
      ap (λ (p : Database × List Task). fan_out_run db (ok p)) (ok_injective (sym (rw gone at ran)))

  fan_out-IsSpent :
      (r : Result (Database × List Task))
      → fan_out_event_deliveries turn.ids turn.now db event_id tenant_id ≡ r
      → IsSpent db (deliver_event event_id tenant_id key queue) (fan_out_run db r)
  fan_out-IsSpent (raised e) ran = idle-IsSpent (idle_run db) refl
  fan_out-IsSpent (ok (db', tasks)) ran =
      elim (Option-cases (get_event_for_tenant db event_id tenant_id)) [
        | inl gone ↦ idle-IsSpent _ (unknown_event gone ran)
        | inr known ↦
            batch-IsSpent (fan_out-IsValid turn.ids turn.now event_id tenant_id db ran v)
              (fan_out-IsBatch turn.ids turn.now db event_id tenant_id known.1 ran)
      ]

task-IsSpent :
    (turn : Turn) (db : Database) (t : Task)
    → IsValid db
    → turn.surroundings.commits ≡ true
    → IsSpent db t (run_task turn db t)
unfolding run_task
task-IsSpent turn db (deliver_event event_id tenant_id key queue) v c =
    fan_out-IsSpent turn db event_id tenant_id key queue v _ refl
task-IsSpent turn db (deliver_to_endpoint id tenant_id queue countdown) v c =
    let spends = once-Spends turn.surroundings db id tenant_id v c in
    record {
      valid = deliver_to_endpoint_once-IsValid turn.surroundings db v id tenant_id;
      endpoints = spends.0;
      spent = omega (arith, spends.1);
    }

-- A worker on well-formed tables whose commits succeed stops, whatever is queued, whatever the endpoints answer
-- and whatever the clocks say: the queue is empty after at most as many tasks as there are in it, with four more
-- for each event's task and each endpoint and one for each retry that a row can still have.
pub worker_stops :
    (turns : ℕ → Turn)
    → ((i : ℕ) → (turns i).surroundings.commits ≡ true)
    → (fuel n : ℕ) (db : Database) (queue : List Task) → IsValid db
    → work db queue ≤ fuel
    → (drain turns fuel n db queue).queue ≡ []
unfolding drain
worker_stops turns c zero n db [] v enough = refl
worker_stops turns c (suc fuel) n db [] v enough = refl
worker_stops turns c zero n db (t ∷ queue) v enough =
    absurd (omega (arith, enough, weight-pos db.endpoints t))
worker_stops turns c (suc fuel) n db (t ∷ queue) v enough =
    let run = run_task (turns n) db t in
    let s = task-IsSpent (turns n) db t v (c n) in
    worker_stops turns c fuel (suc n) run.database (queue ++ run.dispatched) s.valid (
      rw s.endpoints
        (omega (arith, enough, s.spent, weigh-append db.endpoints queue run.dispatched)))
