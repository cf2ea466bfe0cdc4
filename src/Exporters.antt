-- ===== src/Exporters.antt =====
-- crates/telemetry-exporters/src/lib.rs: the parts that compute. Sockets, TLS and gRPC are not here.
pub mod Error
pub mod Hex
pub mod Ids
pub mod Endpoint
pub mod Snappy
pub mod Sanitize
pub mod Http
pub mod Attributes
pub mod Spans
pub mod Logs
pub mod Metrics
pub mod Points
pub mod Prometheus
pub mod SpanRoundTrip
pub mod TraceRoundTrip
pub mod LogRoundTrip
mod ConversionTests
mod Tests
