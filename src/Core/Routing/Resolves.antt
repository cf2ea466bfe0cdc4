-- ===== src/Core/Routing/Resolves.antt =====
-- Routing over a configuration that was validated.
use telemetry_fabric.Prelude.{
  ◌≡◌, ◌≢◌, refl, sym, subst, ap, ◌∙◌, List, [], ◌∷◌, ◌++◌, map, none, some, find, Bool, false,
  ◌=text◌, =text_refl, =text_eq, All, arith, inl, inr, Bool-cases,
}
use telemetry_fabric.Prelude.Result.{ok, err}
use telemetry_fabric.Std.Bytes.{Bytes}
use telemetry_fabric.Core.Error.{missing_route}
use telemetry_fabric.Core.Telemetry.{SignalKind, as_str, ◌=signal◌}
use telemetry_fabric.Core.Config.{
  PipelineConfig, ExporterConfig, RouteConfig, exporter_names, validate_config,
}
use telemetry_fabric.Core.Config.Valid.{
  Member, IsRoute, IsValidConfig, validate_config-IsValidConfig,
}
use telemetry_fabric.Core.Routing.{find_exporter, resolve_from, exporters_for}
use mathlib.Core.List.{append_assoc, append-nil}

abbrev pub names : List ExporterConfig → List Bytes
names es = map (λ (e : ExporterConfig). e.name) es

in_tail :
    (e : ExporterConfig) (es : List ExporterConfig) (name : Bytes)
    → Member name (names (e ∷ es))
    → (e.name =text name) ≡ false
    → Member name (names es)
in_tail e es name (inl same) other =
    absurd (cc (=text_refl name, ap (λ (s : Bytes). s =text name) same, other))
in_tail e es name (inr m) other = m

find_exporter-Member :
    (name : Bytes) (all : List ExporterConfig)
    → Member name (names all)
    → (e : ExporterConfig) × (find_exporter name all ≡ some e) × (e.name ≡ name)
unfolding find_exporter
find_exporter-Member name [] m = absurd m
find_exporter-Member name (e ∷ es) m = elim (Bool-cases (e.name =text name)) [
  | inl same ↦ (e, rw same, =text_eq e.name name same)
  | inr other ↦
      let (found, f, n) = find_exporter-Member name es (in_tail e es name m other) in
      (found, rw other f, n)
]

resolve_from-names :
    (all acc : List ExporterConfig) (targets : List Bytes)
    → All (λ name. Member name (names all)) targets
    → (es : List ExporterConfig) × (resolve_from all acc targets ≡ ok (acc ++ es))
      × (names es ≡ targets)
unfolding resolve_from
resolve_from-names all acc [] h = ([], ap ok (sym (append-nil acc)), refl)
resolve_from-names all acc (t ∷ ts) h =
    let (e, f, n) = find_exporter-Member t all h.0 in
    let (es, r, ns) = resolve_from-names all (acc ++ (e ∷ [])) ts h.1 in
    (e ∷ es, rw f (r ∙ ap ok (append_assoc acc (e ∷ []) es)), cc (n, ns))

find-All :
    (p : RouteConfig → Bool) (P : RouteConfig → Type 0) (xs : List RouteConfig) {x : RouteConfig}
    → All P xs
    → find p xs ≡ some x
    → P x
find-All p P [] h e = cc
find-All p P (y ∷ ys) {x} h e = elim (Bool-cases (p y)) [
  | inl here ↦ subst P (ground arith) h.0
  | inr later ↦ find-All p P ys h.1 (ground arith)
]

-- Under a configuration that `validate` accepts, a signal with a route has exporters: those that its
-- first route names, in that order.
pub exporters_for-names :
    (c : PipelineConfig) (signal : SignalKind) (r : RouteConfig)
    → validate_config c ≡ ok tt
    → find (λ (r : RouteConfig). r.signal =signal signal) c.routes ≡ some r
    → (es : List ExporterConfig) × (exporters_for c signal ≡ ok es)
      × (names es ≡ r.exporters)
      × (es ≢ [])
unfolding exporters_for
exporters_for-names c signal r v f =
    let valid : IsValidConfig c = validate_config-IsValidConfig c v in
    let route : IsRoute (exporter_names c) r =
      find-All _ (IsRoute (exporter_names c)) c.routes valid.routes f in
    let (es, e, n) = resolve_from-names c.exporters [] r.exporters route.1 in
    (es, rw f e, n, λ nil. route.0 (sym n ∙ ap names nil))

-- A signal that no route names has none, and the error says which.
pub exporters_for-missing :
    (c : PipelineConfig) (signal : SignalKind)
    → find (λ (r : RouteConfig). r.signal =signal signal) c.routes ≡ none
    → exporters_for c signal ≡ err (missing_route (as_str signal))
unfolding exporters_for
exporters_for-missing c signal f = rw f
