-- ===== src/Agent/ConfigFile/Accepted.antt =====
-- What a configuration file gives, when it gives one.
use telemetry_fabric.Prelude.{◌≡◌, refl, subst}
use telemetry_fabric.Prelude.Result.{Result, ok, err, >>=-eq-ok, >>-eq-ok, map_err}
use telemetry_fabric.Std.Bytes.{Bytes}
use telemetry_fabric.Core.Error.{PipelineError, display_pipeline_error}
use telemetry_fabric.Core.Config.{PipelineConfig, validate_config}
use telemetry_fabric.Core.Config.Valid.{IsValidConfig, validate_config-IsValidConfig}
use telemetry_fabric.Agent.ConfigFile.{
  FilePipelineConfig, parse_pipeline_config, into_pipeline_config, validated, collect_entries,
}

map_err-eq-ok :
    (f : PipelineError → Bytes) (r : Result PipelineError (Unit {0}))
    → map_err f r ≡ ok tt
    → r ≡ ok tt
map_err-eq-ok f (ok a) h = refl
map_err-eq-ok f (err e) h = cc

validated-IsValidConfig :
    (config : PipelineConfig) {c : PipelineConfig} → validated config ≡ ok c → IsValidConfig c
unfolding validated
validated-IsValidConfig config {c} h =
    let (checked, same) =
      >>-eq-ok (map_err display_pipeline_error (validate_config config)) (ok config) h in
    let e : config ≡ c = cc in
    subst IsValidConfig e
      (validate_config-IsValidConfig config (map_err-eq-ok display_pipeline_error _ checked))

into_pipeline_config-IsValidConfig :
    (f : FilePipelineConfig) {c : PipelineConfig} → into_pipeline_config f ≡ ok c → IsValidConfig c
unfolding into_pipeline_config
into_pipeline_config-IsValidConfig f h =
    let (receivers, e1, h1) = >>=-eq-ok (collect_entries _ f.receivers) _ h in
    let (processors, e2, h2) = >>=-eq-ok (collect_entries _ _) _ h1 in
    let (exporters, e3, h3) = >>=-eq-ok (collect_entries _ f.exporters) _ h2 in
    let (routes, e4, h4) = >>=-eq-ok (collect_entries _ f.routes) _ h3 in
    validated-IsValidConfig _ h4

-- Whatever the YAML parser yields, a configuration that the file gives is valid.
pub parse_pipeline_config-IsValidConfig :
    (from_yaml : Bytes → Result Bytes FilePipelineConfig) (content : Bytes) (c : PipelineConfig)
    → parse_pipeline_config from_yaml content ≡ ok c
    → IsValidConfig c
unfolding parse_pipeline_config
parse_pipeline_config-IsValidConfig from_yaml content c h =
    let (f, e, more) = >>=-eq-ok (from_yaml content) into_pipeline_config h in
    into_pipeline_config-IsValidConfig f more
