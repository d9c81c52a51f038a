-- ===== src/Delivery/Recovery.antt =====
-- `send_stuck_deliveries`: dispatch again what is pending and past its retry time.
pub mod Due
pub mod Listed
use webhook_delivery_service.Base.{ℕ, none, List, map, length}
use webhook_delivery_service.Models.{Datetime, Delivery}
use webhook_delivery_service.Tasks.{Task, deliver_to_endpoint, delivery_queue}
use webhook_delivery_service.Database.{Database}
use webhook_delivery_service.Queries.{list_due_pending_deliveries}

abbrev pub default_batch_size : ℕ
default_batch_size = 1000

abbrev pub requeue_task : Delivery → Task
requeue_task d = deliver_to_endpoint d.id d.tenant_id delivery_queue none

-- The tasks, in the order of dispatch, and the count that is returned. No row is written.
unfoldable pub send_stuck_deliveries : Datetime → ℕ → Database → List Task × ℕ
send_stuck_deliveries now batch_size db =
    let stuck = list_due_pending_deliveries db now batch_size in
    (map requeue_task stuck, length stuck)
