-- ===== src/Text.antt =====
-- The functions of Python's `base64` module and codec that app/services/delivery.py writes and
-- reads its cursors with.
pub mod Base64
pub mod Utf8
