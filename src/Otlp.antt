-- ===== src/Otlp.antt =====
-- crates/telemetry-otlp/src/lib.rs: from OTLP messages to records.
pub mod Messages
pub mod Values
pub mod Records
pub mod Metrics
pub mod Requests
