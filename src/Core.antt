-- ===== src/Core.antt =====
-- crates/telemetry-core: records and their wire format, pipeline configuration, routing.
pub mod Error
pub mod Telemetry
pub mod Config
pub mod Routing
mod Tests
