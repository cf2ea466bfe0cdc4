-- ===== src/Exporters/SpanRoundTrip.antt =====
-- `span_to_record` of the receivers against `record_to_span` of the exporters.
use telemetry_fabric.Prelude.{
  ℕ, ◌≤◌, ◌≡◌, refl, sym, ◌∙◌, ap, ◌⊎◌, inl, inr, false, not, List, [], ◌∷◌, ◌++◌, Option, none,
  some, arith, length, unwrap_or, ◌=text◌, subst, ◌<◌,
}
use mathlib.Core.List.{append_assoc, append-nil}
use telemetry_fabric.Prelude.Words.{u64_max}
use telemetry_fabric.Std.Bytes.{Bytes}
use telemetry_fabric.Std.Text.{text, is_blank}
use telemetry_fabric.Std.Decimal.{decimal, parse_u64-decimal}
use telemetry_fabric.Std.Lines.{starts_with}
use telemetry_fabric.Std.Signed.{print_int, i32_max, Fits, parse_signed-print_int}
use telemetry_fabric.Core.Telemetry.{Attribute, TelemetryRecord, with_attribute, new_record}
use telemetry_fabric.Exporters.Hex.{
  hex_encode, hex_decode_fixed, all_zero, AreBytes, hex_decode_fixed-hex_encode,
}
use telemetry_fabric.Exporters.Attributes.{
  find_in, find_attribute, and_then, not_blank, parse_i32, parse_i32_attribute, parse_u64_attribute,
  string_attributes, is_own,
}
use telemetry_fabric.Exporters.Spans.{record_to_span, id_attribute}
use telemetry_fabric.Otlp.Messages.{Floats, Span}
use telemetry_fabric.Otlp.Records.{◌&◌, with_attributes, with_nonempty, span_to_record, span_base}
use telemetry_fabric.Otlp.Values.{attributes_from_key_values}

-- An identifier of `len` bytes, not all zero.
abbrev pub IsId : ℕ → Bytes → Type 0
IsId len id = (length id ≡ len) × AreBytes id × (all_zero id ≡ false)

-- A span with a name, both identifiers, a parent or none, and numbers that fit their types.
abbrev pub IsSpan : {F : Type 0} → Span F → Type 0
IsSpan s =
    (is_blank s.name ≡ false)
    × IsId 16 s.trace_id
    × IsId 8 s.span_id
    × ((s.parent_span_id ≡ []) ⊎ IsId 8 s.parent_span_id)
    × Fits i32_max s.kind
    × (s.start_time_unix_nano ≤ u64_max)
    × (s.end_time_unix_nano ≤ u64_max)

abbrev pub optional : Bytes → Bytes → List Attribute
optional key [] = []
optional key (b ∷ value) = record { key = key; value = b ∷ value } ∷ []

pub with_nonempty-attributes :
    (r : TelemetryRecord) (key value : Bytes)
    → (with_nonempty r key value).attributes ≡ r.attributes ++ optional key value
unfolding with_nonempty ◌&◌ with_attribute
with_nonempty-attributes r key [] = sym (append-nil r.attributes)
with_nonempty-attributes r key (b ∷ value) = refl

pub with_attributes-attributes :
    (r : TelemetryRecord) (more : List Attribute)
    → (with_attributes r more).attributes ≡ r.attributes ++ more
unfolding with_attributes with_attribute
with_attributes-attributes r [] = sym (append-nil r.attributes)
with_attributes-attributes r (a ∷ more) =
    with_attributes-attributes (with_attribute r a.key a.value) more ∙ simp append_assoc

module _ {F : Type 0} where
  -- The span without its trace state, flags, events, links and status, and with no dropped counts.
  abbrev pub without_details : Span F → Span F
  without_details s = record s {
    trace_state = [];
    flags = 0;
    dropped_attributes_count = 0;
    events = [];
    dropped_events_count = 0;
    links = [];
    dropped_links_count = 0;
    status = none;
  }

module _ {F : Type 0} (s : Span F) where
  -- The attributes of the span's own fields, in front of others.
  abbrev own_attributes : List Attribute → List Attribute
  own_attributes rest =
      record { key = text "otel.signal"; value = text "trace" }
      ∷ record { key = text "otel.span.name"; value = s.name }
      ∷ record { key = text "otel.trace_id"; value = hex_encode s.trace_id }
      ∷ record { key = text "otel.span_id"; value = hex_encode s.span_id }
      ∷ record { key = text "otel.parent_span_id"; value = hex_encode s.parent_span_id }
      ∷ record { key = text "otel.span.kind"; value = print_int s.kind }
      ∷ record { key = text "otel.start_unix_nano"; value = decimal s.start_time_unix_nano }
      ∷ record { key = text "otel.end_unix_nano"; value = decimal s.end_time_unix_nano }
      ∷ rest

  base-attributes :
      (now : Option ℕ) (tenant_id : Bytes) (rest : List Attribute)
      → (span_base now tenant_id s).attributes ++ rest ≡ own_attributes rest
  unfolding span_base ◌&◌ with_attribute new_record
  base-attributes now tenant_id rest = refl

  own-skipped :
      (rest : List Attribute)
      → string_attributes {F = F} (λ key. not (is_own key)) (own_attributes rest)
        ≡ string_attributes (λ key. not (is_own key)) rest
  unfolding string_attributes starts_with text
  own-skipped rest = refl

  own-found :
      (r : TelemetryRecord) (rest : List Attribute)
      → r.attributes ≡ own_attributes rest
      → (find_attribute r (text "otel.span.name") ≡ some s.name)
        × (find_attribute r (text "otel.trace_id") ≡ some (hex_encode s.trace_id))
        × (find_attribute r (text "otel.span_id") ≡ some (hex_encode s.span_id))
        × (find_attribute r (text "otel.parent_span_id") ≡ some (hex_encode s.parent_span_id))
        × (find_attribute r (text "otel.span.kind") ≡ some (print_int s.kind))
        × (find_attribute r (text "otel.start_unix_nano") ≡ some (decimal s.start_time_unix_nano))
        × (find_attribute r (text "otel.end_unix_nano") ≡ some (decimal s.end_time_unix_nano))
  unfolding find_attribute find_in text ◌=text◌
  own-found r rest e = (
    ap (find_in (text "otel.span.name")) e,
    ap (find_in (text "otel.trace_id")) e,
    ap (find_in (text "otel.span_id")) e,
    ap (find_in (text "otel.parent_span_id")) e,
    ap (find_in (text "otel.span.kind")) e,
    ap (find_in (text "otel.start_unix_nano")) e,
    ap (find_in (text "otel.end_unix_nano")) e,
  )

id_found :
    (r : TelemetryRecord) (key : Bytes) (len : ℕ) (id : Bytes)
    → IsId len id
    → find_attribute r key ≡ some (hex_encode id)
    → id_attribute r key len ≡ some id
unfolding id_attribute and_then
id_found r key len id (l, b, z) e = rw e (
    subst (λ n. hex_decode_fixed (hex_encode id) n ≡ some id) {x = length id} {y = len} l
      (hex_decode_fixed-hex_encode id b ∙ rw z refl))

no_id :
    (r : TelemetryRecord) (key : Bytes) (len : ℕ)
    → 0 < len
    → find_attribute r key ≡ some (hex_encode [])
    → id_attribute r key len ≡ none
unfolding id_attribute and_then hex_encode hex_decode_fixed
no_id r key len h e = rw e (ground arith)

-- An identifier that may be missing.
pub optional_id_found :
    (r : TelemetryRecord) (key : Bytes) (len : ℕ) (id : Bytes)
    → 0 < len
    → (id ≡ []) ⊎ IsId len id
    → find_attribute r key ≡ some (hex_encode id)
    → unwrap_or (id_attribute r key len) [] ≡ id
optional_id_found r key len id h (inl empty) e =
    rw
      (no_id r key len h
        (subst (λ i. find_attribute r key ≡ some (hex_encode i)) {x = id} {y = []} empty e))
      (sym empty)
optional_id_found r key len id h (inr valid) e = rw (id_found r key len id valid e) refl

module _ {F : Type 0} where
  -- A record whose attributes tell a span's fields.
  record_to_span-tells :
      (r : TelemetryRecord) (s : Span F)
      → IsSpan s
      → (find_attribute r (text "otel.span.name") ≡ some s.name)
        × (find_attribute r (text "otel.trace_id") ≡ some (hex_encode s.trace_id))
        × (find_attribute r (text "otel.span_id") ≡ some (hex_encode s.span_id))
        × (find_attribute r (text "otel.parent_span_id") ≡ some (hex_encode s.parent_span_id))
        × (find_attribute r (text "otel.span.kind") ≡ some (print_int s.kind))
        × (find_attribute r (text "otel.start_unix_nano") ≡ some (decimal s.start_time_unix_nano))
        × (find_attribute r (text "otel.end_unix_nano") ≡ some (decimal s.end_time_unix_nano))
      → record_to_span r ≡ record (without_details s) {
        attributes = string_attributes (λ key. not (is_own key)) r.attributes;
      }
  unfolding record_to_span not_blank and_then parse_i32_attribute parse_i32 parse_u64_attribute
  record_to_span-tells r s (n, t, i, p, k, b, e) (fn, ft, fi, fp, fk, fb, fe) =
      rw
        (
          id_found r (text "otel.trace_id") 16 s.trace_id t ft,
          id_found r (text "otel.span_id") 8 s.span_id i fi,
          optional_id_found r (text "otel.parent_span_id") 8 s.parent_span_id (omega arith) p fp,
          fn,
          fk,
          fb,
          fe,
          n,
          parse_signed-print_int i32_max s.kind (omega arith) k,
          parse_u64-decimal s.start_time_unix_nano b,
          parse_u64-decimal s.end_time_unix_nano e,
        )
        refl

scope-skipped :
    {F : Type 0} (scope_name : Bytes) (rest : List Attribute)
    → string_attributes {F = F}
        (λ key. not (is_own key))
        (optional (text "otel.scope.name") scope_name ++ rest)
      ≡ string_attributes (λ key. not (is_own key)) rest
unfolding string_attributes starts_with text
scope-skipped [] rest = refl
scope-skipped (b ∷ scope_name) rest = refl

module _ (fl : Floats) where
  span_to_record-attributes :
      (tenant_id : Bytes) (resource_attributes : List Attribute) (scope_name : Bytes)
      (s : Span fl.F) (now : Option ℕ)
      → (span_to_record fl tenant_id resource_attributes scope_name s now).attributes
        ≡ own_attributes s (
            optional (text "otel.scope.name") scope_name
            ++ (resource_attributes ++ attributes_from_key_values fl [] s.attributes))
  unfolding span_to_record
  span_to_record-attributes tenant_id resource_attributes scope_name s now =
      let base : TelemetryRecord = span_base now tenant_id s in
      let scoped : TelemetryRecord = with_nonempty base (text "otel.scope.name") scope_name in
      let own : List Attribute = attributes_from_key_values fl [] s.attributes in
      with_attributes-attributes (with_attributes scoped resource_attributes) own
      ∙ ap (λ l. l ++ own) (with_attributes-attributes scoped resource_attributes)
      ∙ ap (λ l. (l ++ resource_attributes) ++ own)
          (with_nonempty-attributes base (text "otel.scope.name") scope_name)
      ∙ (simp append_assoc)
      ∙ base-attributes s now tenant_id
          (optional (text "otel.scope.name") scope_name ++ (resource_attributes ++ own))

  -- A span that was received comes out with its identifiers, parent, name, kind and times, under any
  -- tenant, resource and scope; its attributes are the resource's followed by its own with a key that
  -- is not blank, all as strings, without those that the agent keeps for itself; its trace state,
  -- flags, events, links, status and dropped counts are lost: they come out empty, missing or zero.
  -- The span must have a name, identifiers of the right lengths that are not zero, a parent or none,
  -- and numbers within their types.
  pub record_to_span-span_to_record :
      (tenant_id : Bytes) (resource_attributes : List Attribute) (scope_name : Bytes)
      (s : Span fl.F) (now : Option ℕ)
      → IsSpan s
      → record_to_span (span_to_record fl tenant_id resource_attributes scope_name s now)
        ≡ record (without_details s) {
          attributes =
              string_attributes
                (λ key. not (is_own key))
                (resource_attributes ++ attributes_from_key_values fl [] s.attributes);
        }
  record_to_span-span_to_record tenant_id resource_attributes scope_name s now h =
      let r : TelemetryRecord = span_to_record fl tenant_id resource_attributes scope_name s now in
      let others : List Attribute =
        resource_attributes ++ attributes_from_key_values fl [] s.attributes in
      let rest : List Attribute = optional (text "otel.scope.name") scope_name ++ others in
      let e : r.attributes ≡ own_attributes s rest =
        span_to_record-attributes tenant_id resource_attributes scope_name s now in
      record_to_span-tells r s h (own-found s r rest e)
      ∙ ap (λ kvs. record (without_details s) { attributes = kvs })
          (ap (string_attributes (λ key. not (is_own key))) e
            ∙ own-skipped s rest
            ∙ scope-skipped scope_name others)
