-- ===== src/Tests.antt =====
-- Concrete runs of the service.
pub mod Fixtures
pub mod Attempts
pub mod Runs
pub mod Queues
pub mod Routes
pub mod Clients
pub mod Concurrent
pub mod Cursors
pub mod Batches
pub mod Events
pub mod Tenancy
pub mod Logs
pub mod Receivers
pub mod Schemas
pub mod Seeds
pub mod Workers
