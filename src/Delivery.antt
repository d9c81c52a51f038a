-- ===== src/Delivery.antt =====
-- app/services/delivery.py: fan-out, one delivery attempt, recovery, and the delivery log.
pub mod Attempt
pub mod Once
pub mod FanOut
pub mod Recovery
pub mod Log
pub mod Cursor
