-- ===== src/Agent/Args/Accepted.antt =====
-- What holds of a command line that is accepted, and of the configuration that is built from it.
use telemetry_fabric.Prelude.{
  ℕ, ◌<◌, ◌≡◌, refl, subst, Bool, false, ◌&&◌, List, [], ◌∷◌, ◌++◌, Option, none, some, ◌==◌,
  ◌=text◌, Option-cases, Bool-cases, inl, inr, arith,
}
use telemetry_fabric.Prelude.Result.{
  Result, ok, err, ◌>>=◌, ◌>>◌, >>=-eq-ok, fail_if, map_err, Result-cases,
}
use telemetry_fabric.Std.Bytes.{Bytes}
use telemetry_fabric.Std.Text.{text}
use telemetry_fabric.Prelude.Words.{usize_max, u64_max}
use telemetry_fabric.Std.Decimal.{parse_int}
use telemetry_fabric.Core.Error.{display_pipeline_error}
use telemetry_fabric.Core.Config.{PipelineConfig, validate_config}
use telemetry_fabric.Core.Config.Valid.{IsValidConfig, validate_config-IsValidConfig}
use telemetry_fabric.Agent.Args.{
  Args, default_args, parse_positive, Setter, set_batch_size, set_flush_interval,
  set_heartbeat_interval, set_drain_timeout, setters, look_up, setter_of, switch_of, last_flag,
  parse_loop, is_some, parse_args, build_pipeline_config,
}

-- No interval and no size is zero.
abbrev pub IsPaced : Args → Type 0
IsPaced args =
    (0 < args.flush_batch_size)
    × (0 < args.flush_interval_ms)
    × (0 < args.control_heartbeat_interval_ms)
    × (0 < args.shutdown_drain_timeout_ms)

accepted-IsPaced :
    (x : Args) {args : Args}
    → ◌≡◌ {A = Result Bytes Args} (ok x) (ok args)
    → IsPaced x
    → IsPaced args
accepted-IsPaced x {args} h p = let e : x ≡ args = cc in subst IsPaced {x = x} {y = args} e p

nonzero :
    (r : Result Bytes ℕ) (message : Bytes) {n : ℕ}
    → (r >>= λ parsed. fail_if (parsed == 0) message >> ok parsed) ≡ ok n
    → 0 < n
nonzero (err e) message h = cc
nonzero (ok m) message h = ground arith

parse_positive-lt : (max : ℕ) (s : Bytes) {n : ℕ} → parse_positive max s ≡ ok n → 0 < n
unfolding parse_positive
parse_positive-lt max s h = nonzero (parse_int max s) (text "value must be greater than zero") h

abbrev Keeps : Option Setter → Type 0
Keeps none = Unit {0}
Keeps (some setter) =
    (value : Bytes) (args : Args) (next : Args)
    → setter value args ≡ ok next
    → IsPaced args
    → IsPaced next

-- A value that is parsed, and put into the arguments by `f`.
parsed_setter :
    (max : ℕ) (value : Bytes) (f : ℕ → Args) {next : Args}
    → (parse_positive max value >>= λ n. ok (f n)) ≡ ok next
    → ((n : ℕ) → 0 < n → IsPaced (f n))
    → IsPaced next
parsed_setter max value f h keep =
    let (n, e, rest) = >>=-eq-ok (parse_positive max value) (λ n. ok (f n)) h in
    accepted-IsPaced (f n) rest (keep n (parse_positive-lt max value e))

set_batch_size-Keeps : Keeps (some set_batch_size)
unfolding set_batch_size
set_batch_size-Keeps value args next h p =
    parsed_setter usize_max value (λ n. record args { flush_batch_size = n }) h
      (λ n l. (l, p.1, p.2, p.3))

set_flush_interval-Keeps : Keeps (some set_flush_interval)
unfolding set_flush_interval
set_flush_interval-Keeps value args next h p =
    parsed_setter u64_max value (λ n. record args { flush_interval_ms = n }) h
      (λ n l. (p.0, l, p.2, p.3))

set_heartbeat_interval-Keeps : Keeps (some set_heartbeat_interval)
unfolding set_heartbeat_interval
set_heartbeat_interval-Keeps value args next h p =
    parsed_setter u64_max value (λ n. record args { control_heartbeat_interval_ms = n }) h
      (λ n l. (p.0, p.1, l, p.3))

set_drain_timeout-Keeps : Keeps (some set_drain_timeout)
unfolding set_drain_timeout
set_drain_timeout-Keeps value args next h p =
    parsed_setter u64_max value (λ n. record args { shutdown_drain_timeout_ms = n }) h
      (λ n l. (p.0, p.1, p.2, l))

abbrev AllKeep : List (Bytes × Setter) → Type 0
AllKeep [] = Unit {0}
AllKeep ((name, setter) ∷ rest) = Keeps (some setter) × AllKeep rest

look_up-Keeps :
    (flag : Bytes) (table : List (Bytes × Setter)) → AllKeep table → Keeps (look_up flag table)
unfolding look_up
look_up-Keeps flag [] k = tt
look_up-Keeps flag ((name, setter) ∷ rest) k = elim (Bool-cases (flag =text name)) [
  | inl e ↦ rw e k.0
  | inr e ↦ rw e (look_up-Keeps flag rest k.1)
]

setter_of-Keeps : (flag : Bytes) → Keeps (setter_of flag)
unfolding setter_of
setter_of-Keeps flag = look_up-Keeps flag setters (
  λ value args next h p. accepted-IsPaced _ h p,
  (
    λ value args next h p. accepted-IsPaced _ h p,
    (
      λ value args next h p. accepted-IsPaced _ h p,
      (
        λ value args next h p. accepted-IsPaced _ h p,
        (
          λ value args next h p. accepted-IsPaced _ h p,
          (
            λ value args next h p. accepted-IsPaced _ h p,
            (
              λ value args next h p. accepted-IsPaced _ h p,
              (
                λ value args next h p. accepted-IsPaced _ h p,
                (
                  λ value args next h p. accepted-IsPaced _ h p,
                  (
                    λ value args next h p. accepted-IsPaced _ h p,
                    (
                      λ value args next h p. accepted-IsPaced _ h p,
                      (
                        λ value args next h p. accepted-IsPaced _ h p,
                        (
                          λ value args next h p. accepted-IsPaced _ h p,
                          (
                            λ value args next h p. accepted-IsPaced _ h p,
                            (
                              λ value args next h p. accepted-IsPaced _ h p,
                              (
                                set_batch_size-Keeps,
                                (
                                  set_flush_interval-Keeps,
                                  (set_heartbeat_interval-Keeps, (set_drain_timeout-Keeps, tt)),
                                ),
                              ),
                            ),
                          ),
                        ),
                      ),
                    ),
                  ),
                ),
              ),
            ),
          ),
        ),
      ),
    ),
  ),
)

switch_of-IsPaced :
    (flag : Bytes) (args next : Args)
    → switch_of flag args ≡ some next
    → IsPaced args
    → IsPaced next
unfolding switch_of
switch_of-IsPaced flag args next h p = ground arith

-- The value of a flag, and the words after it.
after_setter :
    (o : Option Setter) (flag value : Bytes) (values : List Bytes) (args : Args) {next : Args}
    → ((x : Args) → IsPaced x → parse_loop values x ≡ ok next → IsPaced next)
    → Keeps o
    → (elim o [
      | some setter ↦ setter value args >>= parse_loop values
      | none ↦ err (text "unknown argument: " ++ flag)
    ])
      ≡ ok next
    → IsPaced args
    → IsPaced next
after_setter none flag value values args more k h p = cc
after_setter (some setter) flag value values args more k h p =
    let (x, e, rest) = >>=-eq-ok (setter value args) (parse_loop values) h in
    more x (k value args x e p) rest

last_flag-IsPaced :
    (flag : Bytes) (switched : Option Args) (setter : Option Setter) {next : Args}
    → last_flag flag switched setter ≡ ok next
    → ((x : Args) → switched ≡ some x → IsPaced x)
    → IsPaced next
unfolding last_flag
last_flag-IsPaced flag (some x) setter h p = accepted-IsPaced x h (p x refl)
last_flag-IsPaced flag none (some setter) h p = cc
last_flag-IsPaced flag none none h p = cc

parse_loop-IsPaced :
    (values : List Bytes) (args : Args) {next : Args}
    → IsPaced args
    → parse_loop values args ≡ ok next
    → IsPaced next
unfolding parse_loop
parse_loop-IsPaced [] args p h = accepted-IsPaced args h p
parse_loop-IsPaced (flag ∷ []) args p h =
    last_flag-IsPaced flag (switch_of flag args) (setter_of flag) h
      (λ x e. switch_of-IsPaced flag args x e p)
parse_loop-IsPaced (flag ∷ value ∷ values) args p h = elim (Option-cases (switch_of flag args)) [
  | inl e ↦
      after_setter (setter_of flag) flag value values args
        (λ x q r. parse_loop-IsPaced values x q r) (setter_of-Keeps flag) (rw (e, parse_loop) at h)
        p
  | inr (x, e) ↦
      parse_loop-IsPaced (value ∷ values) x (switch_of-IsPaced flag args x e p)
        (rw (e, parse_loop) at h)
]

abbrev both_receivers : Args → Bool
both_receivers args = is_some args.otlp_grpc && is_some args.otlp_http

one_receiver :
    (r : Result Bytes Args) (message : Bytes) {args : Args}
    → ((x : Args) → r ≡ ok x → IsPaced x)
    → (r >>= λ x. fail_if (both_receivers x) message >> ok x) ≡ ok args
    → IsPaced args × (both_receivers args ≡ false)
one_receiver (err e) message p h = cc
one_receiver (ok x) message {args} p h = elim (Bool-cases (both_receivers x)) [
  | inl e ↦ let h' = rw e at h in cc
  | inr e ↦
      let h' : ◌≡◌ {A = Result Bytes Args} (ok x) (ok args) = rw e at h in
      let same : x ≡ args = cc in
      (
        subst IsPaced {x = x} {y = args} same (p x refl),
        subst (λ (y : Args). both_receivers y ≡ false) {x = x} {y = args} same e,
      )
]

-- However the process is started: a command line that is accepted has no size and no interval of
-- zero, and does not ask for both receivers.
pub parse_args-IsPaced :
    (env : Bytes → Option Bytes) (values : List Bytes) (args : Args)
    → parse_args env values ≡ ok args
    → IsPaced args × ((is_some args.otlp_grpc && is_some args.otlp_http) ≡ false)
unfolding parse_args default_args
parse_args-IsPaced env values args h =
    one_receiver (parse_loop values (default_args env))
      (text "choose only one receiver mode for this agent process")
      (λ x e.
        parse_loop-IsPaced values (default_args env)
          (omega arith, omega arith, omega arith, omega arith) e)
      h

valid_result :
    (r : Result Bytes PipelineConfig) (change : PipelineConfig → PipelineConfig)
    {config : PipelineConfig}
    → (r >>= λ loaded.
        map_err display_pipeline_error (validate_config (change loaded)) >> ok (change loaded))
      ≡ ok config
    → IsValidConfig config
valid_result (err e) change h = cc
valid_result (ok loaded) change {config} h = elim (Result-cases (validate_config (change loaded))) [
  | inr (e, invalid) ↦ let h' = rw invalid at h in cc
  | inl (u, valid) ↦
      let h' : ◌≡◌ {A = Result Bytes PipelineConfig} (ok (change loaded)) (ok config) =
        rw valid at h in
      let same : change loaded ≡ config = cc in
      subst IsValidConfig {x = change loaded} {y = config} same
        (validate_config-IsValidConfig (change loaded) valid)
]

-- The configuration that the agent starts with is valid, whatever the file holds and whatever the
-- command line changes in it.
pub build_pipeline_config-IsValidConfig :
    (load : Bytes → Result Bytes PipelineConfig) (args : Args) (config : PipelineConfig)
    → build_pipeline_config load args ≡ ok config
    → IsValidConfig config
unfolding build_pipeline_config
build_pipeline_config-IsValidConfig load args config h = valid_result _ _ h
