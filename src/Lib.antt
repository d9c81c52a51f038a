-- ===== src/Lib.antt =====
-- The webhook delivery service: tenants register endpoints, post events, and a worker delivers each
-- event to every matching endpoint with a signed HTTP POST and retries.
--
-- The parts, and where they are modelled:
--   Models, Models/Json       app/models (Tenant, Endpoint, Event, Delivery); json.dumps of a payload
--   Errors                    app/core/exceptions.py and handle_app_error of app/main.py
--   Database                  the Postgres tables with their constraints; Valid is the invariant, Keeps
--                             the lemmas that every statement keeps it
--   Queries                   app/queries: every SELECT as a function of the tables
--   Tasks                     the Celery messages of app/tasks/events.py
--   Events                    app/schemas/event.py, app/queries/event.py, app/services/event.py
--   Endpoints                 app/schemas/endpoint.py, app/services/endpoint.py
--   Tenants                   app/services/tenant.py, app/api/dependencies/auth.py
--   Delivery/Attempt          _post_and_record_delivery of app/services/delivery.py
--   Delivery/Once             deliver_to_endpoint_once: claim, look up, attempt, commit
--   Delivery/FanOut           fan_out_event_deliveries
--   Delivery/Recovery         send_stuck_deliveries
--   Delivery/Log              list_delivery_logs and get_delivery_log
--   Delivery/Cursor           _encode_delivery_cursor and _decode_delivery_cursor; Text is the base64 and
--                             the UTF-8 of Python that they call
--   Worker                    the tasks of app/tasks/events.py, run one after the other by a worker:
--                             EndToEnd from an event on, Recovery from a backlog on, Stops
--                             for any queue
--   Health                    app/services/health.py and its route
--   LoadTest                  scripts/load_test.py: Counts, Expected and Waiting are its three reads
--   Seed                      app/scripts/seed.py
--   Migrations                alembic/versions: the operations on a schema, and the history
--   Receiver                  test-receiver/main.py; Receiver/Delivered is app/services/delivery.py with
--                             the receiver as the endpoint
--   Api                       app/api/routes, the response models of app/schemas, and the handlers of
--                             app/main.py that turn an error into a response
--                             Effects is what a request does and for whom
--   System                    all of them as one transition system on the database; System/Workers
--                             delivery tasks that run at the same time and hold row locks,
--                             System/Broker the tables with the queue of tasks
--   Base                      lists, tables with a key, sorting; Tests: concrete runs
--
-- How they interact: a request authenticates by API key (Tenants), ingest_event inserts the event and
-- sends a deliver_event task, its fan-out inserts one pending delivery for each matching endpoint and
-- sends a deliver_to_endpoint task for each, and that task claims the row, posts, and on a failure
-- sends itself again with a countdown. A service function takes the database and gives the new one
-- with what it returned and dispatched, or the exception that it raised.
--
-- Correspondence. A table is the list of its rows, the newest first; a UUID is its 128-bit number, a
-- naive UTC datetime its microseconds. Names are the source's. `session.commit()` is the point where
-- the new tables are returned; in deliver_to_endpoint_once it can also fail, which rolls the row back
-- but not the POST and the dispatched tasks. FOR UPDATE SKIP LOCKED takes the set of rows that other
-- transactions hold as an argument.
--
-- Parameters, since their code is not in the repository: the HTTP client (an answer, or a
-- RequestException), HMAC-SHA256, the clocks, uuid4 and token_hex, and how Postgres stores a JSONB value.
-- The log takes the text form of a cursor as an interface, Delivery.Log.Codec, with the law that decoding
-- undoes encoding. Delivery.Cursor fills it: base64, UTF-8 and the writing of the object are definitions,
-- and isoformat, fromisoformat, the text of a UUID and json.loads are the fields of a record, Reader, with
-- the laws that each reads what the other writes.
--
-- Bounds and fuel. Reading all pages of the log takes one round more than there are matching rows at
-- most; the load test waits for as many rounds as fill its timeout, and one. The fuel of a worker is the
-- number of tasks that it takes: one for an event and one for each endpoint where these accept, one for
-- each row of a backlog, and Worker/Work counts them for any queue. A delivery to the receiver has fuel
-- for four attempts. All other loops are structural. Counters are Python integers or Postgres integers
-- far from their bounds: attempt numbers stay at most 4.
--
-- Not modelled: the matching of URLs and the reading of requests by FastAPI, configuration, logging,
-- Redis, Celery itself (Worker and System/Broker put a loop and a queue in its place), the runner of
-- alembic, what the scripts print, values that Postgres cannot store, as a NUL in a text, and of the
-- test receiver the content-length header, the dashboard page and a negative `limit` or `fail_next_n`.
-- In System/Workers a task has two steps, its claim and all that follows; the lookups behind the claim,
-- the POST and the commit are one step.
pub mod Base
pub mod Models
pub mod Errors
pub mod Tasks
pub mod Database
pub mod Queries
pub mod Delivery
pub mod Events
pub mod Endpoints
pub mod Tenants
pub mod Receiver
pub mod System
pub mod Migrations
pub mod Tests
pub mod Text
pub mod Api
pub mod LoadTest
pub mod Seed
pub mod Worker
pub mod Health
