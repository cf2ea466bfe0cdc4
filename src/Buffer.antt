-- ===== src/Buffer.antt =====
-- crates/telemetry-buffer: the durable queue of segment files.
pub mod Files
pub mod Frame
pub mod Error
pub mod CursorFile
pub mod CursorText
pub mod Queue
pub mod ReadBack
pub mod Log
pub mod FileLaws
pub mod Steps
pub mod Reading
pub mod Committing
pub mod Pushing
pub mod Rotating
pub mod Enqueueing
pub mod Fifo
pub mod Refinement
mod Tests
