-- ===== src/Core/Config/Valid.antt =====
-- What `validate` accepts, said without its tests.
use telemetry_fabric.Prelude.{
  ℕ, ◌<◌, ◌≡◌, ◌≢◌, ◌⊎◌, inl, inr, refl, sym, List, [], ◌∷◌, map, Bool, true, false, not, arith,
  any, All, ◌=text◌, =text_refl, =text_eq, ◌==◌, Bool-cases,
}
use telemetry_fabric.Prelude.Result.{ok, fail_if, >>-eq-ok, fail_if-eq-ok}
use telemetry_fabric.Std.Bytes.{Bytes}
use telemetry_fabric.Std.Text.{text, is_blank}
use telemetry_fabric.Core.Config.{
  PipelineConfig, ReceiverConfig, ProcessorConfig, ExporterConfig, RouteConfig, exporter_names,
  require_non_empty, unique_names_from, validate_unique_names, validate_retries, validate_targets,
  validate_routes, validate_limits, validate_config, is_empty,
}

abbrev pub Member : Bytes → List Bytes → Type 0
Member name [] = ⊥
Member name (x ∷ xs) = (x ≡ name) ⊎ Member name xs

abbrev pub IsDistinct : List Bytes → Type 0
IsDistinct [] = Unit {0}
IsDistinct (x ∷ xs) = (¬ Member x xs) × IsDistinct xs

abbrev pub IsName : Bytes → Type 0
IsName name = is_blank name ≡ false

abbrev pub IsRetry : ExporterConfig → Type 0
IsRetry e = (0 < e.retry.max_attempts) × (0 < e.retry.timeout_ms) × (0 < e.retry.initial_backoff_ms)

abbrev pub IsRoute : List Bytes → RouteConfig → Type 0
IsRoute names r = (r.exporters ≢ []) × All (λ name. Member name names) r.exporters

-- Names that are there and differ.
abbrev pub AreNames : List Bytes → Type 0
AreNames names = All IsName names × IsDistinct names

pub record IsValidConfig (c : PipelineConfig) : Type 0 where
  pub tenant : IsName c.tenant_id
  pub name : IsName c.name
  pub some_receiver : c.receivers ≢ []
  pub some_exporter : c.exporters ≢ []
  pub some_route : c.routes ≢ []
  pub record_limit : 0 < c.limits.max_record_bytes
  pub queue_limit : 0 < c.limits.max_queue_bytes
  pub ingest_limit : 0 < c.limits.max_ingest_bytes_per_second
  pub retries : All IsRetry c.exporters
  pub receiver_names : AreNames (map (λ (r : ReceiverConfig). r.name) c.receivers)
  pub names_of_exporters : AreNames (exporter_names c)
  pub names_of_processors : AreNames (map (λ (p : ProcessorConfig). p.name) c.processors)
  pub routes : All (IsRoute (exporter_names c)) c.routes

any-Member :
    (name : Bytes) (names : List Bytes)
    → any (λ other. other =text name) names ≡ true
    → Member name names
any-Member name [] h = cc
any-Member name (x ∷ xs) h = elim (Bool-cases (x =text name)) [
  | inl e ↦ inl (=text_eq x name e)
  | inr e ↦ inr (any-Member name xs (ground arith))
]

Member-any :
    (name : Bytes) (names : List Bytes)
    → Member name names
    → any (λ other. other =text name) names ≡ true
Member-any name [] m = absurd m
Member-any name (x ∷ xs) (inl e) = rw (e, =text_refl name)
Member-any name (x ∷ xs) (inr m) = ground (arith, Member-any name xs m)

not-false : (b : Bool) → not b ≡ false → b ≡ true
not-false true h = refl
not-false false h = cc

targets-valid :
    (names targets : List Bytes)
    → validate_targets names targets ≡ ok tt
    → All (λ name. Member name names) targets
unfolding validate_targets
targets-valid names [] h = tt
targets-valid names (t ∷ ts) h =
    let (here, more) =
      >>-eq-ok (fail_if (not (any (λ name. name =text t) names)) _) (validate_targets names ts) h in
    (
      any-Member t names (not-false (any (λ name. name =text t) names) (fail_if-eq-ok _ _ here)),
      targets-valid names ts more,
    )

not_empty {ℓ} : {A : Type ℓ} (xs : List A) → is_empty xs ≡ false → xs ≢ []
not_empty [] h = cc
not_empty (x ∷ xs) h = λ e. cc

positive : (n : ℕ) → (n == 0) ≡ false → 0 < n
positive n h = ground arith

routes-valid :
    (names : List Bytes) (routes : List RouteConfig)
    → validate_routes names routes ≡ ok tt
    → All (IsRoute names) routes
unfolding validate_routes
routes-valid names [] h = tt
routes-valid names (r ∷ rs) h =
    let (some_target, rest) = >>-eq-ok (fail_if (is_empty r.exporters) _) _ h in
    let (targets, more) =
      >>-eq-ok (validate_targets names r.exporters) (validate_routes names rs) rest in
    (
      (
        not_empty r.exporters (fail_if-eq-ok _ _ some_target),
        targets-valid names r.exporters targets,
      ),
      routes-valid names rs more,
    )

retries-valid :
    (exporters : List ExporterConfig) → validate_retries exporters ≡ ok tt → All IsRetry exporters
unfolding validate_retries
retries-valid [] h = tt
retries-valid (e ∷ es) h =
    let (attempts, h1) = >>-eq-ok (fail_if (e.retry.max_attempts == 0) _) _ h in
    let (timeout, h2) = >>-eq-ok (fail_if (e.retry.timeout_ms == 0) _) _ h1 in
    let (backoff, h3) =
      >>-eq-ok (fail_if (e.retry.initial_backoff_ms == 0) _) (validate_retries es) h2 in
    (
      (
        positive _ (fail_if-eq-ok _ _ attempts),
        positive _ (fail_if-eq-ok _ _ timeout),
        positive _ (fail_if-eq-ok _ _ backoff),
      ),
      retries-valid es h3,
    )

unseen :
    (name : Bytes) (seen names : List Bytes)
    → All (λ other. ¬ Member other (name ∷ seen)) names
    → (¬ Member name names) × All (λ other. ¬ Member other seen) names
unseen name seen [] h = ((λ m. m), tt)
unseen name seen (x ∷ xs) h =
    let (here, rest) = unseen name seen xs h.1 in
    (elim [ inl e ↦ h.0 (inl (sym e)) | inr m ↦ here m ], ((λ m. h.0 (inr m)), rest))

names-valid :
    (kind : Bytes) (seen names : List Bytes)
    → unique_names_from kind seen names ≡ ok tt
    → All IsName names × IsDistinct names × All (λ name. ¬ Member name seen) names
unfolding unique_names_from require_non_empty
names-valid kind seen [] h = (tt, tt, tt)
names-valid kind seen (name ∷ names) h =
    let (named, h1) = >>-eq-ok (require_non_empty kind name) _ h in
    let (new, h2) =
      >>-eq-ok (fail_if (any (λ other. other =text name) seen) _)
        (unique_names_from kind (name ∷ seen) names) h1 in
    let (all_named, distinct, fresh) = names-valid kind (name ∷ seen) names h2 in
    let (alone, apart) = unseen name seen names fresh in
    (
      (fail_if-eq-ok _ _ named, all_named),
      (alone, distinct),
      ((λ m. cc (Member-any name seen m, fail_if-eq-ok _ _ new)), apart),
    )

are_names :
    (kind : Bytes) (names : List Bytes) → validate_unique_names kind names ≡ ok tt → AreNames names
unfolding validate_unique_names
are_names kind names h =
    let (named, distinct, fresh) = names-valid kind [] names h in (named, distinct)

-- A configuration that `validate` accepts is valid: its names are there and differ within their
-- kind, its limits and retry settings are positive, and its routes name exporters that exist.
pub validate_config-IsValidConfig :
    (c : PipelineConfig) → validate_config c ≡ ok tt → IsValidConfig c
unfolding validate_config require_non_empty validate_limits
validate_config-IsValidConfig c h =
    let (tenant, h1) = >>-eq-ok (require_non_empty (text "tenant_id") c.tenant_id) _ h in
    let (name, h2) = >>-eq-ok (require_non_empty (text "name") c.name) _ h1 in
    let (receivers, h3) = >>-eq-ok (fail_if (is_empty c.receivers) _) _ h2 in
    let (exporters, h4) = >>-eq-ok (fail_if (is_empty c.exporters) _) _ h3 in
    let (routes, h5) = >>-eq-ok (fail_if (is_empty c.routes) _) _ h4 in
    let (limits, h6) = >>-eq-ok (validate_limits c.limits) _ h5 in
    let (record_limit, l1) = >>-eq-ok (fail_if (c.limits.max_record_bytes == 0) _) _ limits in
    let (queue_limit, l2) = >>-eq-ok (fail_if (c.limits.max_queue_bytes == 0) _) _ l1 in
    let (retries, h7) = >>-eq-ok (validate_retries c.exporters) _ h6 in
    let (rn, h8) =
      >>-eq-ok
        (validate_unique_names (text "receiver") (map (λ (r : ReceiverConfig). r.name) c.receivers))
        _ h7 in
    let (en, h9) = >>-eq-ok (validate_unique_names (text "exporter") (exporter_names c)) _ h8 in
    let (pn, h10) =
      >>-eq-ok
        (validate_unique_names (text "processor")
          (map (λ (p : ProcessorConfig). p.name) c.processors))
        _ h9 in
    record {
      tenant = fail_if-eq-ok _ _ tenant;
      name = fail_if-eq-ok _ _ name;
      some_receiver = not_empty c.receivers (fail_if-eq-ok _ _ receivers);
      some_exporter = not_empty c.exporters (fail_if-eq-ok _ _ exporters);
      some_route = not_empty c.routes (fail_if-eq-ok _ _ routes);
      record_limit = positive _ (fail_if-eq-ok _ _ record_limit);
      queue_limit = positive _ (fail_if-eq-ok _ _ queue_limit);
      ingest_limit = positive _ (fail_if-eq-ok _ _ l2);
      retries = retries-valid c.exporters retries;
      receiver_names = are_names _ _ rn;
      names_of_exporters = are_names _ _ en;
      names_of_processors = are_names _ _ pn;
      routes = routes-valid (exporter_names c) c.routes h10;
    }
