-- ===== src/System/Workers.antt =====
-- Workers that run delivery tasks at the same time, in app/services/delivery.py. A task claims its row
-- (FOR UPDATE SKIP LOCKED), holds it while it posts, and lets it go when its transaction ends; between
-- the claim and the end, the API, the fan-out and the other workers go on.
pub mod Exclusive
pub mod Posts
use webhook_delivery_service.Base.{Bool, true, List, [], ◌∷◌, ◌≡◌, some, map, ◌++◌}
use webhook_delivery_service.Models.{Uuid, Datetime, Delivery}
use webhook_delivery_service.Database.{Database}
use webhook_delivery_service.Database.Valid.{empty}
use webhook_delivery_service.Queries.{get_pending_delivery_for_update}
use webhook_delivery_service.Delivery.Attempt.{Client, Hmac, Reading, HttpRequest}
use webhook_delivery_service.Delivery.Once.{Surroundings, Run, process}
use webhook_delivery_service.System.{Service}

-- A row that a worker has claimed, as it read it.
pub record Claim : Type 0 where
  pub row : Delivery
  pub tenant_id : Uuid
  pub claim_now : Datetime

abbrev pub held_id : Claim → Uuid
held_id c = c.row.id

-- What a worker meets after its claim.
pub record Outcome : Type 0 where
  pub client : Client
  pub hmac : Hmac
  pub reading : Reading
  pub commits : Bool

abbrev pub met : Claim → Outcome → Surroundings
met c o = record {
  client = o.client;
  hmac = o.hmac;
  locked = [];
  claim_now = c.claim_now;
  reading = o.reading;
  commits = o.commits;
}

-- The tables, the locks on delivery rows, and the delivery id of every POST, the latest first.
pub record Workers : Type 0 where
  pub database : Database
  pub held : List Claim
  pub posted : List Uuid

abbrev pub idle : Workers
idle = record { database = empty; held = []; posted = [] }

-- One claim less.
pub data Taken : List Claim → Claim → List Claim → Type 0 where
  here : {c : Claim} {cs : List Claim} → Taken (c ∷ cs) c cs
  there : {x c : Claim} {cs rest : List Claim} → Taken cs c rest → Taken (x ∷ cs) c (x ∷ rest)

-- The rest of the task, from the row that was claimed.
abbrev pub finish : Outcome → Database → Claim → Run
finish o db c = process (met c o) db c.tenant_id c.row

pub data Move (w : Workers) : Workers → Type 0 where
  served : {db' : Database} → Service w.database db' → Move w (record w { database = db' })
  claimed :
      (now : Datetime) (id tenant_id : Uuid) {d : Delivery}
      → get_pending_delivery_for_update (map held_id w.held) now w.database id tenant_id ≡ some d
      → Move w
          (record w { held = record { row = d; tenant_id = tenant_id; claim_now = now } ∷ w.held })
  finished :
      {c : Claim} {rest : List Claim} (o : Outcome)
      → Taken w.held c rest
      → Move w (record {
        database = (finish o w.database c).database;
        held = rest;
        posted = map (λ _. c.row.id) (finish o w.database c).posted ++ w.posted;
      })
  -- The worker dies before it posts: its transaction is rolled back and its lock is gone.
  died : {c : Claim} {rest : List Claim} → Taken w.held c rest → Move w (record w { held = rest })

pub data Moves : Workers → Type 0 where
  started : Moves idle
  then_move : {w w' : Workers} → Moves w → Move w w' → Moves w'
