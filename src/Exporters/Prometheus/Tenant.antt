-- ===== src/Exporters/Prometheus/Tenant.antt =====
-- Whose series it is: no attribute of a record replaces the tenant or the metric's name.
use telemetry_fabric.Prelude.{
  ◌≡◌, refl, ap, ◌∙◌, inl, inr, true, false, Bool-cases, Option-cases, =text_eq, =text_refl, List,
  [], ◌∷◌, none, some, ◌=text◌, if◌then◌else◌, All, arith,
}
use telemetry_fabric.Std.Bytes.{Bytes}
use telemetry_fabric.Std.Text.{text}
use telemetry_fabric.Core.Telemetry.{Attribute, TelemetryRecord}
use telemetry_fabric.Exporters.Prometheus.Labels.{
  PromLabel, insert_label, lookup_label, insert_absent, insert_unless, attribute_label,
  attribute_labels, extra_labels_in, prometheus_labels_with_extra, sanitize_prometheus_label_name,
  text_less, first_labels,
}

text_differ : (a b c : Bytes) → (a =text b) ≡ false → (a =text c) ≡ true → (b =text c) ≡ false
text_differ a b c other same = elim (Bool-cases (b =text c)) [
  | inl e ↦ absurd (grind (arith, other, =text_eq a c same, =text_eq b c e, =text_refl c))
  | inr e ↦ e
]

-- What a label is after an insertion.
lookup-insert_label :
    (name : Bytes) (l : PromLabel) (labels : List PromLabel)
    → lookup_label name (insert_label l labels)
      ≡ (if l.name =text name then some l.value else lookup_label name labels)
unfolding lookup_label insert_label
lookup-insert_label name l [] = refl
lookup-insert_label name l (m ∷ rest) = elim (Bool-cases (l.name =text m.name)) [
  | inl same ↦ rw (=text_eq l.name m.name same, =text_refl m.name) (ground arith)
  | inr other ↦ elim (Bool-cases (l.name =text name)) [
    | inl e ↦
        ground
          (arith, other, e, text_differ l.name m.name name other e, lookup-insert_label name l rest)
    | inr e ↦ ground (arith, other, e, lookup-insert_label name l rest)
  ]
]

label_differ :
    (name value other : Bytes) (labels : List PromLabel)
    → lookup_label name labels ≡ some value
    → lookup_label other labels ≡ none
    → (other =text name) ≡ false
label_differ name value other labels h missing = elim (Bool-cases (other =text name)) [
  | inl e ↦ absurd (grind (arith, h, missing, =text_eq other name e))
  | inr e ↦ e
]

insert_absent-missing :
    (l : PromLabel) (labels : List PromLabel)
    → lookup_label l.name labels ≡ none
    → insert_absent l labels ≡ insert_label l labels
unfolding insert_absent
insert_absent-missing l labels missing = ap (λ o. insert_unless o l labels) missing

insert_absent-present :
    (l : PromLabel) (v : Bytes) (labels : List PromLabel)
    → lookup_label l.name labels ≡ some v
    → insert_absent l labels ≡ labels
unfolding insert_absent
insert_absent-present l v labels found = ap (λ o. insert_unless o l labels) found

insert_absent-keeps :
    (name value : Bytes) (l : PromLabel) (labels : List PromLabel)
    → lookup_label name labels ≡ some value
    → lookup_label name (insert_absent l labels) ≡ some value
insert_absent-keeps name value l labels h = elim (Option-cases (lookup_label l.name labels)) [
  | inl missing ↦
      ap (lookup_label name) (insert_absent-missing l labels missing)
      ∙ (lookup-insert_label name l labels
          ∙ ap (λ b. if b then some l.value else lookup_label name labels)
              (label_differ name value l.name labels h missing)
          ∙ h)
  | inr (v, found) ↦ ap (lookup_label name) (insert_absent-present l v labels found) ∙ h
]

attribute_label-keeps :
    (name value : Bytes) (a : Attribute) (labels : List PromLabel)
    → lookup_label name labels ≡ some value
    → lookup_label name (attribute_label a labels) ≡ some value
unfolding attribute_label
attribute_label-keeps name value a labels h = ground (
  arith,
  h,
  insert_absent-keeps name value
      (record { name = sanitize_prometheus_label_name a.key; value = a.value }) labels h,
)

attribute_labels-keeps :
    (name value : Bytes) (more : List Attribute) (labels : List PromLabel)
    → lookup_label name labels ≡ some value
    → lookup_label name (attribute_labels more labels) ≡ some value
unfolding attribute_labels
attribute_labels-keeps name value [] labels h = h
attribute_labels-keeps name value (a ∷ more) labels h =
    attribute_labels-keeps name value more (attribute_label a labels)
      (attribute_label-keeps name value a labels h)

extra_labels_in-keeps :
    (name value : Bytes) (extra labels : List PromLabel)
    → All (λ l. (l.name =text name) ≡ false) extra
    → lookup_label name labels ≡ some value
    → lookup_label name (extra_labels_in extra labels) ≡ some value
unfolding extra_labels_in
extra_labels_in-keeps name value [] labels other h = h
extra_labels_in-keeps name value (l ∷ extra) labels other h =
    extra_labels_in-keeps name value extra (insert_label l labels) other.1
      (lookup-insert_label name l labels ∙ rw other.0 h)

first_labels-lookup :
    (r : TelemetryRecord) (metric_name : Bytes)
    → (lookup_label (text "tenant_id") (first_labels r metric_name) ≡ some r.tenant_id)
      × (lookup_label (text "__name__") (first_labels r metric_name) ≡ some metric_name)
unfolding first_labels insert_label lookup_label text_less text ◌=text◌
first_labels-lookup r metric_name = (refl, refl)

module _ (r : TelemetryRecord) (metric_name : Bytes) (extra : List PromLabel) where
  labels-keep :
      (name value : Bytes)
      → All (λ l. (l.name =text name) ≡ false) extra
      → lookup_label name (first_labels r metric_name) ≡ some value
      → lookup_label name (prometheus_labels_with_extra r metric_name extra) ≡ some value
  unfolding prometheus_labels_with_extra
  labels-keep name value other h =
      extra_labels_in-keeps name value extra _ other
        (attribute_labels-keeps name value r.attributes (first_labels r metric_name) h)

  -- Whatever the attributes of the record say, the labels have its tenant and the metric's name,
  -- where no extra label takes either name.
  pub prometheus_labels-tenant :
      All (λ l. (l.name =text text "tenant_id") ≡ false) extra
      → All (λ l. (l.name =text text "__name__") ≡ false) extra
      → (lookup_label (text "tenant_id") (prometheus_labels_with_extra r metric_name extra)
          ≡ some r.tenant_id)
        × (lookup_label (text "__name__") (prometheus_labels_with_extra r metric_name extra)
            ≡ some metric_name)
  prometheus_labels-tenant tenant name = (
    labels-keep (text "tenant_id") r.tenant_id tenant (first_labels-lookup r metric_name).0,
    labels-keep (text "__name__") metric_name name (first_labels-lookup r metric_name).1,
  )
