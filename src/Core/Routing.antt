-- ===== src/Core/Routing.antt =====
-- crates/telemetry-core/src/routing.rs: the exporters of a signal.
pub mod Resolves
use telemetry_fabric.Prelude.{List, [], ◌∷◌, ◌++◌, Option, none, some, find, ◌=text◌}
use telemetry_fabric.Prelude.Result.{Result, ok, err, ◌>>=◌}
use telemetry_fabric.Std.Bytes.{Bytes}
use telemetry_fabric.Core.Error.{PipelineError, missing_route, unknown_exporter}
use telemetry_fabric.Core.Telemetry.{SignalKind, as_str, ◌=signal◌}
use telemetry_fabric.Core.Config.{PipelineConfig, ExporterConfig, RouteConfig}

-- `ok_or_else`
abbrev pub ok_or {ℓ} : {A : Type ℓ} → Option A → PipelineError → Result PipelineError A
ok_or none e = err e
ok_or (some a) e = ok a

unfoldable pub find_exporter : Bytes → List ExporterConfig → Option ExporterConfig
find_exporter name exporters = find (λ (e : ExporterConfig). e.name =text name) exporters

-- `exporters.push` for each name.
unfoldable pub resolve_from :
    List ExporterConfig
    → List ExporterConfig
    → List Bytes
    → Result PipelineError (List ExporterConfig)
resolve_from all exporters [] = ok exporters
resolve_from all exporters (name ∷ names) = do
  exporter ← ok_or (find_exporter name all) (unknown_exporter name)
  resolve_from all (exporters ++ (exporter ∷ [])) names

unfoldable pub exporters_for :
    PipelineConfig → SignalKind → Result PipelineError (List ExporterConfig)
exporters_for config signal = do
  route ←
      ok_or (find (λ (r : RouteConfig). r.signal =signal signal) config.routes)
        (missing_route (as_str signal))
  resolve_from config.exporters [] route.exporters
