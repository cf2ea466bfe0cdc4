-- ===== src/Exporters/LogRoundTrip.antt =====
-- `log_record_to_record` of the receivers against `record_to_log_record` of the exporters.
use mathlib.Core.List.{append_assoc}
use telemetry_fabric.Prelude.{
  ◌≤◌, ◌≡◌, refl, ap, ◌⊎◌, Bool, false, not, ◌||◌, List, [], ◌∷◌, ◌++◌, some, arith, ◌=text◌,
  Option, ℕ, ◌∙◌, subst, sym,
}
use telemetry_fabric.Prelude.Words.{u32_max, u64_max}
use telemetry_fabric.Std.Bytes.{Bytes}
use telemetry_fabric.Std.Text.{text, IsUtf8}
use telemetry_fabric.Std.Decimal.{decimal, parse_u64-decimal, parse_int-decimal}
use telemetry_fabric.Std.Lines.{starts_with, is_empty, from_utf8_lossy-valid}
use telemetry_fabric.Std.Signed.{print_int, i32_max, Fits, parse_signed-print_int}
use telemetry_fabric.Core.Telemetry.{Attribute, TelemetryRecord, with_attribute, new_record}
use telemetry_fabric.Exporters.Hex.{hex_encode}
use telemetry_fabric.Exporters.Attributes.{
  find_in, find_attribute, and_then, parse_u32, parse_i32, parse_i32_attribute, parse_u64_attribute,
  string_attributes, record_to_log_attributes, is_own,
}
use telemetry_fabric.Exporters.Logs.{record_to_log_record}
use telemetry_fabric.Exporters.SpanRoundTrip.{
  IsId, optional, optional_id_found, with_attributes-attributes, with_nonempty-attributes,
}
use telemetry_fabric.Otlp.Messages.{LogRecord, string_value, Floats}
use telemetry_fabric.Otlp.Records.{
  ◌&◌, with_attributes, with_nonempty, body_or, log_base, rendered_body, log_record_to_record,
}
use telemetry_fabric.Otlp.Values.{attributes_from_key_values}

-- The keys that are neither the agent's nor the resource's.
abbrev pub is_senders : Bytes → Bool
is_senders key = not (is_own key || starts_with (text "resource.") key)

with_attributes-body :
    (r : TelemetryRecord) (more : List Attribute) → (with_attributes r more).body ≡ r.body
unfolding with_attributes with_attribute
with_attributes-body r [] = refl
with_attributes-body r (a ∷ more) = with_attributes-body (with_attribute r a.key a.value) more

with_nonempty-body :
    (r : TelemetryRecord) (key value : Bytes) → (with_nonempty r key value).body ≡ r.body
unfolding with_nonempty ◌&◌ with_attribute
with_nonempty-body r key [] = refl
with_nonempty-body r key (b ∷ value) = refl

module _ {F : Type 0} (l : LogRecord F) where
  -- The attributes of the log record's own fields, in front of others.
  abbrev own_attributes : List Attribute → List Attribute
  own_attributes rest =
      record { key = text "otel.signal"; value = text "log" }
      ∷ record { key = text "otel.log.time_unix_nano"; value = decimal l.time_unix_nano }
      ∷ record {
        key = text "otel.log.observed_time_unix_nano";
        value = decimal l.observed_time_unix_nano;
      }
      ∷ record { key = text "otel.log.severity_number"; value = print_int l.severity_number }
      ∷ record { key = text "otel.log.severity_text"; value = l.severity_text }
      ∷ record { key = text "otel.trace_id"; value = hex_encode l.trace_id }
      ∷ record { key = text "otel.span_id"; value = hex_encode l.span_id }
      ∷ record { key = text "otel.log.flags"; value = decimal l.flags }
      ∷ (optional (text "otel.log.event_name") l.event_name ++ rest)

  event_found :
      (name : Bytes) (rest : List Attribute)
      → is_empty name ≡ false
      → find_in (text "otel.log.event_name") (optional (text "otel.log.event_name") name ++ rest)
        ≡ some name
  unfolding find_in text ◌=text◌ is_empty
  event_found [] rest h = absurd (grind arith)
  event_found (b ∷ name) rest h = refl

  optional-skipped :
      (name rest_name : Bytes) (rest : List Attribute)
      → string_attributes {F = F} is_senders (
          optional (text "otel.log.event_name") name
          ++ (optional (text "otel.scope.name") rest_name ++ rest))
        ≡ string_attributes is_senders rest
  unfolding string_attributes starts_with text
  optional-skipped [] [] rest = refl
  optional-skipped [] (c ∷ rest_name) rest = refl
  optional-skipped (b ∷ name) [] rest = refl
  optional-skipped (b ∷ name) (c ∷ rest_name) rest = refl

  own-skipped :
      (scope_name : Bytes) (rest : List Attribute)
      → string_attributes {F = F} is_senders
          (own_attributes (optional (text "otel.scope.name") scope_name ++ rest))
        ≡ string_attributes is_senders rest
  unfolding string_attributes starts_with text
  own-skipped scope_name rest = optional-skipped l.event_name scope_name rest

  -- Identifiers or none, a name of the event, and numbers that fit their types.
  abbrev pub IsLog : Type 0
  IsLog =
      (is_empty l.event_name ≡ false)
      × ((l.trace_id ≡ []) ⊎ IsId 16 l.trace_id)
      × ((l.span_id ≡ []) ⊎ IsId 8 l.span_id)
      × Fits i32_max l.severity_number
      × (l.time_unix_nano ≤ u64_max)
      × (l.observed_time_unix_nano ≤ u64_max)
      × (l.flags ≤ u32_max)

  record_to_log_record-tells :
      (r : TelemetryRecord) (rest : List Attribute)
      → IsLog
      → IsUtf8 r.body
      → r.attributes ≡ own_attributes rest
      → record_to_log_record r ≡ record l {
        body = some (string_value r.body);
        attributes = string_attributes is_senders r.attributes;
        dropped_attributes_count = 0;
      }
  unfolding record_to_log_record record_to_log_attributes find_attribute find_in text ◌=text◌
      and_then parse_i32_attribute parse_i32 parse_u64_attribute parse_u32
  record_to_log_record-tells r rest (n, t, i, k, time, seen, flags) utf8 e =
      rw
        (
          optional_id_found r (text "otel.trace_id") 16 l.trace_id (omega arith) t
              (ap (find_in (text "otel.trace_id")) e),
          optional_id_found r (text "otel.span_id") 8 l.span_id (omega arith) i
              (ap (find_in (text "otel.span_id")) e),
          ap (find_in (text "otel.log.time_unix_nano")) e,
          ap (find_in (text "otel.log.observed_time_unix_nano")) e,
          ap (find_in (text "otel.log.severity_number")) e,
          ap (find_in (text "otel.log.severity_text")) e,
          ap (find_in (text "otel.log.flags")) e,
          ap (find_in (text "otel.log.event_name")) e,
          event_found l.event_name rest n,
          from_utf8_lossy-valid r.body utf8,
          parse_signed-print_int i32_max l.severity_number (omega arith) k,
          parse_u64-decimal l.time_unix_nano time,
          parse_u64-decimal l.observed_time_unix_nano seen,
          parse_int-decimal u32_max l.flags (omega arith) flags,
        )
        refl

module _ (fl : Floats) (l : LogRecord fl.F) where
  -- What the record's body says: the value, or the name of the event where it is missing or blank.
  unfoldable pub said : Bytes
  unfolding body_or rendered_body
  said = body_or (rendered_body fl l.body) l.event_name

  base-attributes :
      (now : Option ℕ) (tenant_id : Bytes) (rest : List Attribute)
      → (log_base fl now tenant_id l).attributes
          ++ (optional (text "otel.log.event_name") l.event_name ++ rest)
        ≡ own_attributes l rest
  unfolding log_base ◌&◌ with_attribute new_record
  base-attributes now tenant_id rest = refl

  base-body : (now : Option ℕ) (tenant_id : Bytes) → (log_base fl now tenant_id l).body ≡ said
  unfolding log_base ◌&◌ with_attribute new_record said
  base-body now tenant_id = refl

  module _ (tenant_id : Bytes) (resource_attributes : List Attribute) (scope_name : Bytes)
      (now : Option ℕ) where
    log_record_to_record-attributes :
        (log_record_to_record fl tenant_id resource_attributes scope_name l now).attributes
        ≡ own_attributes l (
            optional (text "otel.scope.name") scope_name
            ++ (resource_attributes ++ attributes_from_key_values fl [] l.attributes))
    unfolding log_record_to_record
    log_record_to_record-attributes =
        let base : TelemetryRecord = log_base fl now tenant_id l in
        let named : TelemetryRecord =
          with_nonempty base (text "otel.log.event_name") l.event_name in
        let scoped : TelemetryRecord = with_nonempty named (text "otel.scope.name") scope_name in
        let own : List Attribute = attributes_from_key_values fl [] l.attributes in
        let scope : List Attribute = optional (text "otel.scope.name") scope_name in
        with_attributes-attributes (with_attributes scoped resource_attributes) own
        ∙ ap (λ k. k ++ own) (with_attributes-attributes scoped resource_attributes)
        ∙ ap (λ k. (k ++ resource_attributes) ++ own)
            (with_nonempty-attributes named (text "otel.scope.name") scope_name)
        ∙ ap (λ k. ((k ++ scope) ++ resource_attributes) ++ own)
            (with_nonempty-attributes base (text "otel.log.event_name") l.event_name)
        ∙ (simp append_assoc)
        ∙ base-attributes now tenant_id (scope ++ (resource_attributes ++ own))

    log_record_to_record-body :
        (log_record_to_record fl tenant_id resource_attributes scope_name l now).body ≡ said
    unfolding log_record_to_record
    log_record_to_record-body =
        let base : TelemetryRecord = log_base fl now tenant_id l in
        let named : TelemetryRecord =
          with_nonempty base (text "otel.log.event_name") l.event_name in
        let scoped : TelemetryRecord = with_nonempty named (text "otel.scope.name") scope_name in
        with_attributes-body (with_attributes scoped resource_attributes)
          (attributes_from_key_values fl [] l.attributes)
        ∙ with_attributes-body scoped resource_attributes
        ∙ with_nonempty-body named (text "otel.scope.name") scope_name
        ∙ with_nonempty-body base (text "otel.log.event_name") l.event_name
        ∙ base-body now tenant_id

    -- A log record that was received comes out as it was, under any tenant, resource and scope,
    -- except that its body is the text of its value, or the name of the event where that is blank,
    -- that its attributes are strings: those of `resource_attributes` and then its own with a key that
    -- is not blank, without the keys that the agent or the resource has, and that its count of dropped
    -- attributes is lost and comes out as 0; the body must be UTF-8, the event must have a name, and
    -- identifiers, where there are any, and numbers must fit.
    pub record_to_log_record-log_record_to_record :
        IsLog l
        → IsUtf8 said
        → record_to_log_record
            (log_record_to_record fl tenant_id resource_attributes scope_name l now)
          ≡ record l {
            body = some (string_value said);
            attributes =
                string_attributes is_senders
                  (resource_attributes ++ attributes_from_key_values fl [] l.attributes);
            dropped_attributes_count = 0;
          }
    record_to_log_record-log_record_to_record h utf8 =
        let r : TelemetryRecord =
          log_record_to_record fl tenant_id resource_attributes scope_name l now in
        let others : List Attribute =
          resource_attributes ++ attributes_from_key_values fl [] l.attributes in
        let rest : List Attribute = optional (text "otel.scope.name") scope_name ++ others in
        let valid : IsUtf8 r.body =
          subst (λ b. IsUtf8 b) {x = said} {y = r.body} (sym log_record_to_record-body) utf8 in
        record_to_log_record-tells l r rest h valid log_record_to_record-attributes
        ∙ ap
            (λ b. record l {
              body = some (string_value b);
              attributes = string_attributes is_senders r.attributes;
              dropped_attributes_count = 0;
            })
            log_record_to_record-body
        ∙ ap
            (λ kvs. record l {
              body = some (string_value said);
              attributes = kvs;
              dropped_attributes_count = 0;
            })
            (ap (string_attributes is_senders) log_record_to_record-attributes
              ∙ own-skipped l scope_name others)
