-- ===== src/Agent.antt =====
-- crates/telemetry-agent: the program that receives, queues and flushes.
pub mod ConfigFile
pub mod Runtime
pub mod Export
pub mod Flush
pub mod Setup
pub mod Shared
pub mod OtlpHttp
pub mod ControlClient
pub mod ControlWorker
pub mod Args
pub mod HealthServer
mod Tests
mod FlushTests
mod ReceiverTests
