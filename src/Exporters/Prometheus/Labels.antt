-- ===== src/Exporters/Prometheus/Labels.antt =====
-- `prometheus_labels_with_extra`. A `BTreeMap` is a list in the order of its keys.
use telemetry_fabric.Prelude.{
  Bool, true, false, ◌||◌, List, [], ◌∷◌, Option, none, some, ltb, ◌==◌, ◌=text◌, if◌then◌else◌,
}
use telemetry_fabric.Std.Bytes.{Bytes}
use telemetry_fabric.Std.Text.{text}
use telemetry_fabric.Core.Telemetry.{Attribute, TelemetryRecord}
use telemetry_fabric.Exporters.Sanitize.{sanitize_prometheus_identifier}
use telemetry_fabric.Exporters.Attributes.{is_own}
use telemetry_fabric.Std.Lines.{is_empty}

pub record PromLabel : Type 0 where
  pub name : Bytes
  pub value : Bytes

-- The order of `String`.
unfoldable pub text_less : Bytes → Bytes → Bool
text_less s [] = false
text_less [] (d ∷ t) = true
text_less (c ∷ s) (d ∷ t) = let rest = text_less s t in if c == d then rest else ltb c d

-- `labels.insert(name, value)`
unfoldable pub insert_label : PromLabel → List PromLabel → List PromLabel
insert_label l [] = l ∷ []
insert_label l (m ∷ rest) =
    let later = insert_label l rest in
    if l.name =text m.name
    then l ∷ rest
    else if text_less l.name m.name
    then l ∷ m ∷ rest
    else m ∷ later

unfoldable pub lookup_label : Bytes → List PromLabel → Option Bytes
lookup_label name [] = none
lookup_label name (m ∷ rest) =
    let later = lookup_label name rest in if m.name =text name then some m.value else later

-- An entry that is there stays.
abbrev pub insert_unless : Option Bytes → PromLabel → List PromLabel → List PromLabel
insert_unless (some value) l labels = labels
insert_unless none l labels = insert_label l labels

-- `labels.entry(name).or_insert(value)`
unfoldable pub insert_absent : PromLabel → List PromLabel → List PromLabel
unfolding insert_label lookup_label
insert_absent l labels = insert_unless (lookup_label l.name labels) l labels

unfoldable pub sanitize_prometheus_metric_name : Bytes → Bytes
unfolding sanitize_prometheus_identifier
sanitize_prometheus_metric_name value = sanitize_prometheus_identifier value true

unfoldable pub sanitize_prometheus_label_name : Bytes → Bytes
unfolding sanitize_prometheus_identifier
sanitize_prometheus_label_name value = sanitize_prometheus_identifier value false

-- One step of the loop over the attributes.
unfoldable pub attribute_label : Attribute → List PromLabel → List PromLabel
unfolding insert_absent sanitize_prometheus_label_name
attribute_label attribute labels =
    let label_name = sanitize_prometheus_label_name attribute.key in
    if is_own attribute.key
    then labels
    else if (label_name =text text "__name__") || is_empty label_name
    then labels
    else insert_absent (record { name = label_name; value = attribute.value }) labels

unfoldable pub attribute_labels : List Attribute → List PromLabel → List PromLabel
unfolding attribute_label
attribute_labels [] labels = labels
attribute_labels (attribute ∷ rest) labels =
    attribute_labels rest (attribute_label attribute labels)

unfoldable pub extra_labels_in : List PromLabel → List PromLabel → List PromLabel
unfolding insert_label
extra_labels_in [] labels = labels
extra_labels_in (l ∷ rest) labels = extra_labels_in rest (insert_label l labels)

unfoldable pub first_labels : TelemetryRecord → Bytes → List PromLabel
unfolding insert_label
first_labels r metric_name =
    insert_label (record { name = text "tenant_id"; value = r.tenant_id })
      (insert_label (record { name = text "__name__"; value = metric_name }) [])

unfoldable pub prometheus_labels_with_extra :
    TelemetryRecord → Bytes → List PromLabel → List PromLabel
unfolding first_labels attribute_labels extra_labels_in
prometheus_labels_with_extra r metric_name extra_labels =
    extra_labels_in extra_labels (attribute_labels r.attributes (first_labels r metric_name))
