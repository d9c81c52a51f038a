-- ===== src/Worker/Recovery.antt =====
-- From a backlog to ended deliveries: the recovery task and the worker.
use mathlib.Core.List.{append-nil}
use webhook_delivery_service.Base.{
  ℕ, zero, suc, ◌≤◌, ◌≡◌, refl, ap, sym, ◌∙◌, subst, true, false, some, List, [], ◌∷◌, ◌++◌, map,
  length, arith, any, All, All-mono, All-zip, All-select, select, select_holds, take_short,
  Distinct, same_id, ◌==◌, or_false,
}
use webhook_delivery_service.Base.Sort.{All-of_order_by, order_by, order_by-All, length-order_by}
use webhook_delivery_service.Models.{Uuid, Datetime, Delivery}
use webhook_delivery_service.Tasks.{Task}
use webhook_delivery_service.Database.{Database}
use webhook_delivery_service.Database.Valid.{IsValid}
use webhook_delivery_service.Queries.{
  is_due, retry_before, list_due_pending_deliveries, get_active_endpoint_for_tenant,
}
use webhook_delivery_service.Delivery.Attempt.{Hmac}
use webhook_delivery_service.Delivery.Recovery.{send_stuck_deliveries, requeue_task}
use webhook_delivery_service.Delivery.Recovery.Due.{All-lookup_self}
use webhook_delivery_service.Delivery.Recovery.Listed.{list_due-Distinct, any-order_by}
use webhook_delivery_service.Delivery.Once.{Run, deliver_to_endpoint_once}
use webhook_delivery_service.Delivery.Once.Claim.{lookup_delivery}
use webhook_delivery_service.Delivery.Once.Invariant.{deliver_to_endpoint_once-IsValid}
use webhook_delivery_service.Worker.{Turn, Drained, step, drain}
use webhook_delivery_service.Worker.Visit.{IsWilling}
use webhook_delivery_service.Worker.Backlog.{outcome, endpoint_of, IsDone, visit-IsDone}

-- The row has ended: as a success if its endpoint was active before, else as `failed`.
abbrev pub HasEnded : Database → Database → Delivery → Type 0
HasEnded before after d =
    (d' : Delivery) × (lookup_delivery d.id after ≡ some d')
    × (d'.status ≡ outcome (endpoint_of before d))

-- The queue is empty, the rows have ended, and no other row was touched.
pub record IsRecovered (db : Database) (rows : List Delivery) (out : Drained) : Type 0 where
  pub finished : out.queue ≡ []
  pub ended : All (HasEnded db out.database) rows
  pub kept :
      (j : Uuid)
      → any (λ d. d.id == j) rows ≡ false
      → lookup_delivery j out.database ≡ lookup_delivery j db

abbrev Waits : Datetime → Database → Delivery → Type 0
Waits now db d = (lookup_delivery d.id db ≡ some d) × (is_due now d ≡ true)

pub not_among :
    (d : Delivery) (rows : List Delivery)
    → any (same_id (λ x. x.id) d) rows ≡ false
    → any (λ x. x.id == d.id) rows ≡ false
not_among d [] h = refl
not_among d (x ∷ rows) h =
    let (first, later) = or_false (d.id == x.id) (any (same_id (λ y. y.id) d) rows) h in
    let other : (x.id == d.id) ≡ false = ground (arith, first) in rw other (not_among d rows later)

Waits-kept :
    (now : Datetime) (db db' : Database) (d : Delivery)
    → ((j : Uuid) → (d.id == j) ≡ false → lookup_delivery j db' ≡ lookup_delivery j db)
    → (rows : List Delivery) → any (same_id (λ x. x.id) d) rows ≡ false
    → All (Waits now db) rows
    → All (Waits now db') rows
Waits-kept now db db' d kept [] h ready = tt
Waits-kept now db db' d kept (x ∷ rows) h ready =
    let (first, later) = or_false (d.id == x.id) (any (same_id (λ y. y.id) d) rows) h in
    ((kept x.id first ∙ ready.0.0, ready.0.1), Waits-kept now db db' d kept rows later ready.1)

same_endpoint :
    (db db' : Database) (d : Delivery)
    → db'.endpoints ≡ db.endpoints
    → endpoint_of db' d ≡ endpoint_of db d
unfolding get_active_endpoint_for_tenant
same_endpoint db db' d e = rw e refl

step-IsRecovered :
    (turns : ℕ → Turn) (rest : ℕ → Database → List Task → Drained) (n : ℕ) (d : Delivery)
    (rows : List Delivery) (db : Database) (queue : List Task) (run : Run)
    → any (same_id (λ x. x.id) d) rows ≡ false
    → IsDone db d run
    → IsRecovered run.database rows (rest (suc n) run.database queue)
    → IsRecovered db (d ∷ rows) (step turns rest n queue run)
step-IsRecovered turns rest n d rows db queue run alone v later =
    let same : queue ++ run.dispatched ≡ queue =
      ap (λ ts. queue ++ ts) v.dispatched ∙ append-nil queue in
    let r =
      subst (λ q. IsRecovered run.database rows (rest (suc n) run.database q)) (sym same) later in
    record {
      finished = r.finished;
      ended = (
        (v.delivery, r.kept d.id (not_among d rows alone) ∙ v.found, v.ended),
        All-mono _ _
            (λ x h. (h.0, h.1, h.2 ∙ ap outcome (same_endpoint db run.database x v.endpoints))) rows
            r.ended,
      );
      kept = λ j h.
          let parts = or_false (d.id == j) (any (λ x. x.id == j) rows) h in
          r.kept j parts.1 ∙ v.others_kept j parts.0;
    }

module _ (hmac : Hmac) (turns : ℕ → Turn) (now : Datetime)
    (w : (i : ℕ) → IsWilling hmac (turns i).surroundings)
    (late : (i : ℕ) → now ≤ (turns i).surroundings.claim_now) where
  drain-IsRecovered :
      (fuel n : ℕ) (rows : List Delivery) (db : Database)
      → length rows ≤ fuel
      → IsValid db
      → All (Waits now db) rows
      → Distinct (same_id (λ d. d.id)) rows
      → IsRecovered db rows (drain turns fuel n db (map requeue_task rows))
  unfolding drain
  drain-IsRecovered zero n [] db le v ready alone = record {
    finished = refl;
    ended = tt;
    kept = λ j h. refl;
  }
  drain-IsRecovered (suc fuel) n [] db le v ready alone = record {
    finished = refl;
    ended = tt;
    kept = λ j h. refl;
  }
  drain-IsRecovered zero n (d ∷ rows) db le v ready alone = absurd (omega (arith, le))
  drain-IsRecovered (suc fuel) n (d ∷ rows) db le v ready alone =
      let s = (turns n).surroundings in
      let run = deliver_to_endpoint_once s db d.id d.tenant_id in
      let done = visit-IsDone hmac s db d (w n) v ready.0.0 ready.0.1 (late n) in
      step-IsRecovered turns (drain turns fuel) n d rows db (map requeue_task rows) run alone.0 done
        (drain-IsRecovered fuel (suc n) rows run.database (omega (arith, le))
          (deliver_to_endpoint_once-IsValid s db v d.id d.tenant_id)
          (Waits-kept now db run.database d done.others_kept rows alone.0 ready.1) alone.1)

-- The recovery empties the backlog: in a well-formed database in which no more rows are due than fit into a batch,
-- a worker that runs alone, with clocks that are not behind the recovery's, takes one task for each of these rows;
-- where every endpoint accepts, the queue is then empty and each row that was due has ended, as a success if its
-- endpoint was active and as `failed` if not, and no other row was changed.
pub backlog-IsRecovered :
    (hmac : Hmac) (turns : ℕ → Turn) (db : Database) (now : Datetime) (batch_size fuel : ℕ)
    → IsValid db
    → length (select (is_due now) db.deliveries) ≤ batch_size
    → ((i : ℕ) → IsWilling hmac (turns i).surroundings)
    → ((i : ℕ) → now ≤ (turns i).surroundings.claim_now)
    → length (select (is_due now) db.deliveries) ≤ fuel
    → IsRecovered db
        (select (is_due now) db.deliveries)
        (drain turns fuel 0 db (send_stuck_deliveries now batch_size db).0)
unfolding send_stuck_deliveries list_due_pending_deliveries
backlog-IsRecovered hmac turns db now batch_size fuel v few w late enough =
    let due = select (is_due now) db.deliveries in
    let before = λ (a b : Delivery). retry_before a.next_retry_at b.next_retry_at in
    let rows = order_by before due in
    let all_rows : list_due_pending_deliveries db now batch_size ≡ rows =
      take_short batch_size rows (omega (arith, length-order_by before due)) in
    let waiting : All (Waits now db) due =
      All-zip (λ d. lookup_delivery d.id db ≡ some d) (λ d. is_due now d ≡ true) (Waits now db)
        (λ d found h. (found, h)) due
        (All-select _ (is_due now) db.deliveries
          (All-lookup_self db.deliveries v.deliveries_distinct))
        (select_holds (is_due now) db.deliveries) in
    let out = drain turns fuel 0 db (map requeue_task rows) in
    let r =
      drain-IsRecovered hmac turns now w late fuel 0 rows db
        (omega (arith, enough, length-order_by before due)) v
        (order_by-All before (Waits now db) due waiting)
        (subst (λ ds. Distinct (same_id (λ d. d.id)) ds) all_rows
          (list_due-Distinct db now batch_size v)) in
    subst (λ ds. IsRecovered db due (drain turns fuel 0 db (map requeue_task ds))) (sym all_rows)
      (record {
        finished = r.finished;
        ended = All-of_order_by before (HasEnded db out.database) due r.ended;
        kept = λ j h. r.kept j (any-order_by before (λ d. d.id == j) due h);
      })
