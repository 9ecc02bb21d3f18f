-- ===== src/Pii.antt =====
-- app/pii.py: detection, reversible anonymisation and the streaming de-anonymiser.
pub mod Placeholder
pub mod Stream
pub mod SteuerId
pub mod Spans
pub mod Anonymizer
pub mod Detect
