-- ===== src/Exporters/Prometheus.antt =====
-- The conversion to a Prometheus remote write request.
pub mod Labels
pub mod Buckets
pub mod Exemplars
pub mod Series
pub mod Tenant
pub mod Cumulative
pub mod SeriesTenant
