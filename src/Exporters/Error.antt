-- ===== src/Exporters/Error.antt =====
-- `ExporterError` and the texts that it prints. `io` carries the text of the `std::io::Error`.
use telemetry_fabric.Prelude.{◌++◌}
use telemetry_fabric.Std.Bytes.{Bytes}
use telemetry_fabric.Std.Text.{text}

pub data ExporterError : Type 0 where
  io : Bytes → ExporterError
  grpc : Bytes → ExporterError
  unsupported_exporter : Bytes → ExporterError
  invalid_endpoint : Bytes → ExporterError
  tls : Bytes → ExporterError

unfoldable pub display_exporter_error : ExporterError → Bytes
display_exporter_error (io message) = text "exporter I/O error: " ++ message
display_exporter_error (grpc message) = text "exporter gRPC error: " ++ message
display_exporter_error (unsupported_exporter name) = text "unsupported exporter: " ++ name
display_exporter_error (invalid_endpoint endpoint) = text "invalid exporter endpoint: " ++ endpoint
display_exporter_error (tls message) = text "exporter TLS error: " ++ message
