-- ===== src/Tasks.antt =====
-- The Celery tasks of app/tasks/events.py and the queues that they are sent to. UUIDs travel as
-- their text; the model keeps the number.
use webhook_delivery_service.Base.{ℕ, String, Option}
use webhook_delivery_service.Models.{Uuid}

pub data Queue : Type 0 where
  default_queue delivery_queue : Queue

-- `apply_async(args=…, queue=…, countdown=…)`.
pub data Task : Type 0 where
  deliver_event : Uuid → Uuid → Option String → Queue → Task
  deliver_to_endpoint : Uuid → Uuid → Queue → Option ℕ → Task
