-- ===== src/Buffer/Error.antt =====
-- `DiskQueueError` and the texts that it prints.
use telemetry_fabric.Prelude.{ℕ, ◌++◌}
use telemetry_fabric.Std.Bytes.{Bytes}
use telemetry_fabric.Std.Text.{text}
use telemetry_fabric.Std.Decimal.{decimal}

-- `io` carries the text of the `std::io::Error`. `diverged` is no value of the Rust type: it says
-- that the fuel of a loop ran out.
pub data DiskQueueError : Type 0 where
  io : Bytes → DiskQueueError
  corrupt_segment : Bytes → DiskQueueError
  payload_too_large : ℕ → DiskQueueError
  sink_failed : Bytes → DiskQueueError
  diverged : DiskQueueError

pub display_disk_queue_error : DiskQueueError → Bytes
display_disk_queue_error (io message) = text "disk queue I/O error: " ++ message
display_disk_queue_error (corrupt_segment message) = text "corrupt disk queue segment: " ++ message
display_disk_queue_error (payload_too_large size) =
    text "payload too large for disk queue: " ++ decimal size
display_disk_queue_error (sink_failed message) = text "disk queue sink failed: " ++ message
display_disk_queue_error diverged = text "out of fuel"
