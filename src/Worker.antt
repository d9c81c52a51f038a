-- ===== src/Worker.antt =====
-- The Celery worker of app/tasks/worker.py with the tasks of app/tasks/events.py, one at a time and in
-- the order in which they were sent. A countdown is not waited for: what a task meets, with its clocks, is
-- its `Turn`.
pub mod Visit
pub mod Batch
pub mod Drain
pub mod EndToEnd
pub mod Backlog
pub mod Recovery
pub mod Work
pub mod Stops
use webhook_delivery_service.Base.{ℕ, zero, suc, List, [], ◌∷◌, ◌++◌}
use webhook_delivery_service.Models.{Uuid, Datetime}
use webhook_delivery_service.Errors.{Result, ok, raised}
use webhook_delivery_service.Tasks.{Task, deliver_event, deliver_to_endpoint}
use webhook_delivery_service.Database.{Database}
use webhook_delivery_service.Delivery.Attempt.{HttpRequest}
use webhook_delivery_service.Delivery.FanOut.{fan_out_event_deliveries}
use webhook_delivery_service.Delivery.Once.{Surroundings, Run, deliver_to_endpoint_once}

pub record Turn : Type 0 where
  pub surroundings : Surroundings
  pub ids : ℕ → Uuid
  pub now : Datetime

-- A task that raises has failed: its transaction is rolled back and nothing was sent.
abbrev pub fan_out_run : Database → Result (Database × List Task) → Run
fan_out_run db (raised e) = record { database = db; posted = []; dispatched = [] }
fan_out_run db (ok (db', tasks)) = record { database = db'; posted = []; dispatched = tasks }

unfoldable pub run_task : Turn → Database → Task → Run
run_task turn db (deliver_event event_id tenant_id key queue) =
    fan_out_run db (fan_out_event_deliveries turn.ids turn.now db event_id tenant_id)
run_task turn db (deliver_to_endpoint delivery_id tenant_id queue countdown) =
    deliver_to_endpoint_once turn.surroundings db delivery_id tenant_id

-- What is left when the worker stops, and all that it posted.
pub record Drained : Type 0 where
  pub database : Database
  pub queue : List Task
  pub posted : List HttpRequest

abbrev pub after_posts : List HttpRequest → Drained → Drained
after_posts requests out = record out { posted = requests ++ out.posted }

module _ (turns : ℕ → Turn) where
  abbrev pub step : (ℕ → Database → List Task → Drained) → ℕ → List Task → Run → Drained
  step rest n queue run =
      after_posts run.posted (rest (suc n) run.database (queue ++ run.dispatched))

  -- `n` counts the tasks; the fuel bounds how many are taken.
  unfoldable pub drain : ℕ → ℕ → Database → List Task → Drained
  unfolding run_task
  drain zero n db queue = record { database = db; queue = queue; posted = [] }
  drain (suc fuel) n db [] = record { database = db; queue = []; posted = [] }
  drain (suc fuel) n db (t ∷ queue) = step (drain fuel) n queue (run_task (turns n) db t)
