-- ===== src/Exporters/TraceRoundTrip.antt =====
-- A whole trace request through the receivers and the exporters.
use telemetry_fabric.Prelude.{
  ℕ, suc, ◌≡◌, refl, ◌∙◌, not, List, [], ◌∷◌, ◌++◌, map, Option, unwrap_or, All,
}
use mathlib.Core.List.{append-nil}
use telemetry_fabric.Std.Bytes.{Bytes}
use telemetry_fabric.Std.Text.{text}
use telemetry_fabric.Core.Telemetry.{
  Attribute, TelemetryRecord, SignalKind, ◌=signal◌, with_attribute, new_record,
}
use telemetry_fabric.Exporters.Attributes.{string_attributes, is_own}
use telemetry_fabric.Exporters.Spans.{record_to_span, of_signal, batch_to_trace_request, request_of}
use telemetry_fabric.Exporters.SpanRoundTrip.{
  IsSpan, without_details, record_to_span-span_to_record,
}
use telemetry_fabric.Otlp.Messages.{Floats, Span, Resourced}
use telemetry_fabric.Otlp.Records.{◌&◌, with_attributes, with_nonempty, span_to_record, span_base}
use telemetry_fabric.Otlp.Values.{attributes_from_key_values}
use telemetry_fabric.Otlp.Requests.{
  Pending, flat_map, request_to_records, trace_request_to_records, stamp, resource_attributes_of,
  resource_to_records, scope_to_records,
}

with_attributes-signal :
    (r : TelemetryRecord) (more : List Attribute) → (with_attributes r more).signal ≡ r.signal
unfolding with_attributes with_attribute
with_attributes-signal r [] = refl
with_attributes-signal r (a ∷ more) = with_attributes-signal (with_attribute r a.key a.value) more

with_nonempty-signal :
    (r : TelemetryRecord) (key value : Bytes) → (with_nonempty r key value).signal ≡ r.signal
unfolding with_nonempty ◌&◌ with_attribute
with_nonempty-signal r key [] = refl
with_nonempty-signal r key (b ∷ value) = refl

base-signal :
    {F : Type 0} (now : Option ℕ) (tenant_id : Bytes) (s : Span F)
    → (span_base now tenant_id s).signal ≡ SignalKind.trace
unfolding span_base ◌&◌ with_attribute new_record
base-signal now tenant_id s = refl

-- The spans of a request, in order.
unfoldable pub spans_in : {F : Type 0} → List (Resourced F (Span F)) → List (Span F)
unfolding flat_map
spans_in request = flat_map (λ r. flat_map (λ s. s.items) r.scopes) request

module _ (fl : Floats) where
  -- The span without its details and with the resource's attributes in front of its own, all as
  -- strings.
  unfoldable pub flattened : List Attribute → Span fl.F → Span fl.F
  unfolding string_attributes
  flattened resource_attributes s = record (without_details s) {
    attributes =
        string_attributes (λ key. not (is_own key))
          (resource_attributes ++ attributes_from_key_values fl [] s.attributes);
  }

  abbrev pub HasSpans : List (Resourced fl.F (Span fl.F)) → Type 0
  HasSpans request = All (λ r. All (λ s. All IsSpan s.items) r.scopes) request

  -- A record for each span, of its signal, whenever it is made.
  abbrev Each : List Pending → List (Span fl.F) → Type 0
  Each [] [] = Unit
  Each [] (s ∷ spans) = ⊥
  Each (p ∷ pending) [] = ⊥
  Each (p ∷ pending) (s ∷ spans) =
      ((now : Option ℕ) → ((p now).signal ≡ SignalKind.trace) × (record_to_span (p now) ≡ s))
      × Each pending spans

  Each-append :
      (ps qs : List Pending) (ss ts : List (Span fl.F))
      → Each ps ss
      → Each qs ts
      → Each (ps ++ qs) (ss ++ ts)
  Each-append [] qs [] ts h k = k
  Each-append [] qs (s ∷ ss) ts h k = absurd h
  Each-append (p ∷ ps) qs [] ts h k = absurd h
  Each-append (p ∷ ps) qs (s ∷ ss) ts h k = (h.0, Each-append ps qs ss ts h.1 k)

  Each-flat_map {ℓ} :
      {T : Type ℓ} (P : T → Type 0) (f : T → List Pending) (g : T → List (Span fl.F))
      → ((t : T) → P t → Each (f t) (g t))
      → (ts : List T) → All P ts
      → Each (flat_map f ts) (flat_map g ts)
  unfolding flat_map
  Each-flat_map P f g e [] h = tt
  Each-flat_map P f g e (t ∷ ts) h =
      Each-append (f t) (flat_map f ts) (g t) (flat_map g ts) (e t h.0)
        (Each-flat_map P f g e ts h.1)

  span_to_record-signal :
      (tenant_id : Bytes) (resource_attributes : List Attribute) (scope_name : Bytes)
      (s : Span fl.F) (now : Option ℕ)
      → (span_to_record fl tenant_id resource_attributes scope_name s now).signal ≡ SignalKind.trace
  unfolding span_to_record
  span_to_record-signal tenant_id resource_attributes scope_name s now =
      let base : TelemetryRecord = span_base now tenant_id s in
      let scoped : TelemetryRecord = with_nonempty base (text "otel.scope.name") scope_name in
      with_attributes-signal (with_attributes scoped resource_attributes)
        (attributes_from_key_values fl [] s.attributes)
      ∙ with_attributes-signal scoped resource_attributes
      ∙ with_nonempty-signal base (text "otel.scope.name") scope_name
      ∙ base-signal now tenant_id s

  -- The spans of a request without their details, each with its resource's attributes.
  unfoldable pub flattened_spans : List (Resourced fl.F (Span fl.F)) → List (Span fl.F)
  unfolding flat_map flattened
  flattened_spans request =
      flat_map
        (λ r.
          flat_map (λ s. map (flattened (resource_attributes_of fl r.resource)) s.items) r.scopes)
        request

  exported-Each :
      (clock : ℕ → Option ℕ) (n : ℕ) (pending : List Pending) (spans : List (Span fl.F))
      → Each pending spans
      → map record_to_span (of_signal SignalKind.trace (stamp clock n pending)) ≡ spans
  unfolding of_signal stamp ◌=signal◌ record_to_span
  exported-Each clock n [] [] h = refl
  exported-Each clock n [] (s ∷ spans) h = absurd h
  exported-Each clock n (p ∷ pending) [] h = absurd h
  exported-Each clock n (p ∷ pending) (s ∷ spans) h =
      rw ((h.0 (clock n)).0, (h.0 (clock n)).1, exported-Each clock (suc n) pending spans h.1) refl

  items-Each :
      (tenant_id : Bytes) (resource_attributes : List Attribute) (scope_name : Bytes)
      (spans : List (Span fl.F))
      → All IsSpan spans
      → Each
          (flat_map (λ s. span_to_record fl tenant_id resource_attributes scope_name s ∷ []) spans)
          (map (flattened resource_attributes) spans)
  unfolding flat_map flattened
  items-Each tenant_id resource_attributes scope_name [] h = tt
  items-Each tenant_id resource_attributes scope_name (s ∷ spans) h = (
    (λ now. (
      span_to_record-signal tenant_id resource_attributes scope_name s now,
      record_to_span-span_to_record fl tenant_id resource_attributes scope_name s now h.0,
    )),
    items-Each tenant_id resource_attributes scope_name spans h.1,
  )

  request-Each :
      (tenant_id : Bytes) (request : List (Resourced fl.F (Span fl.F)))
      → HasSpans request
      → Each (trace_request_to_records fl tenant_id request) (flattened_spans request)
  unfolding trace_request_to_records request_to_records resource_to_records scope_to_records
      flattened_spans
  request-Each tenant_id request h =
      Each-flat_map (λ r. All (λ s. All IsSpan s.items) r.scopes) _ _
        (λ r valid.
          Each-flat_map (λ s. All IsSpan s.items) _ _
            (λ s items.
              items-Each tenant_id (resource_attributes_of fl r.resource) (unwrap_or s.scope [])
                s.items items)
            r.scopes valid)
        request h

  spans_in-request_of : (spans : List (Span fl.F)) → spans_in (request_of spans) ≡ spans
  unfolding spans_in request_of flat_map
  spans_in-request_of [] = refl
  spans_in-request_of (s ∷ spans) = simp append-nil

  -- The exporter's request for the records of a trace request has one span for each of its spans, in
  -- its order and no others, whatever the clock says while the records are made: with the identifiers,
  -- parent, name, kind and times of that span and the attributes of its resource in front of its own,
  -- as strings, without those that the agent keeps for itself, but with no trace state, flags, events,
  -- links, status and dropped counts. The spans must have names, identifiers and numbers that fit.
  pub spans_in-batch_to_trace_request :
      (clock : ℕ → Option ℕ) (tenant_id : Bytes) (request : List (Resourced fl.F (Span fl.F)))
      → HasSpans request
      → spans_in
          (batch_to_trace_request (stamp clock 0 (trace_request_to_records fl tenant_id request)))
        ≡ flattened_spans request
  unfolding batch_to_trace_request
  spans_in-batch_to_trace_request clock tenant_id request h =
      spans_in-request_of _
      ∙ exported-Each clock 0 (trace_request_to_records fl tenant_id request)
          (flattened_spans request) (request-Each tenant_id request h)
