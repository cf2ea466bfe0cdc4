-- ===== src/Agent/Export/Grouping.antt =====
-- Which group each record goes to.
use telemetry_fabric.Prelude.{
  ◌≡◌, refl, sym, ◌⊎◌, inl, inr, List, [], ◌∷◌, ◌++◌, ◌=text◌, =text_eq, Bool-cases, subst,
}
use telemetry_fabric.Prelude.Result.{ok, Result-cases}
use telemetry_fabric.Std.Bytes.{Bytes}
use telemetry_fabric.Core.Telemetry.{TelemetryRecord}
use telemetry_fabric.Core.Config.{PipelineConfig, ExporterConfig}
use telemetry_fabric.Core.Routing.{exporters_for}
use telemetry_fabric.Agent.Export.{Groups, push_group, push_groups, group_records, text_lt}

abbrev pub In : {A : Type 0} → A → List A → Type 0
In a [] = ⊥
In a (x ∷ xs) = (x ≡ a) ⊎ In a xs

In-append_left : {A : Type 0} (a : A) (xs ys : List A) → In a xs → In a (xs ++ ys)
In-append_left a [] ys m = absurd m
In-append_left a (x ∷ xs) ys (inl e) = inl e
In-append_left a (x ∷ xs) ys (inr m) = inr (In-append_left a xs ys m)

In-last : {A : Type 0} (a : A) (xs : List A) → In a (xs ++ (a ∷ []))
In-last a [] = inl refl
In-last a (x ∷ xs) = inr (In-last a xs)

-- The record stands in the group of that name.
abbrev pub Grouped : Bytes → TelemetryRecord → Groups → Type 0
Grouped name r [] = ⊥
Grouped name r ((n, rs) ∷ groups) = ((n ≡ name) × In r rs) ⊎ Grouped name r groups

push_group-Grouped :
    (name : Bytes) (r : TelemetryRecord) (groups : Groups)
    → Grouped name r (push_group name r groups)
unfolding push_group
push_group-Grouped name r [] = inl (refl, inl refl)
push_group-Grouped name r ((n, rs) ∷ groups) = elim (Bool-cases (n =text name)) [
  | inl same ↦ rw same (inl (=text_eq n name same, In-last r rs))
  | inr other ↦ elim (Bool-cases (text_lt name n)) [
    | inl first ↦ rw (other, first) (inl (refl, inl refl))
    | inr later ↦ rw (other, later) (inr (push_group-Grouped name r groups))
  ]
]

push_group-keeps :
    (name other : Bytes) (r s : TelemetryRecord) (groups : Groups)
    → Grouped other s groups
    → Grouped other s (push_group name r groups)
unfolding push_group
push_group-keeps name other r s [] g = absurd g
push_group-keeps name other r s ((n, rs) ∷ groups) g = elim (Bool-cases (n =text name)) [
  | inl same ↦
      rw same
        (elim g [ inl (e, m) ↦ inl (e, In-append_left s rs (r ∷ []) m) | inr later ↦ inr later ])
  | inr differs ↦ elim (Bool-cases (text_lt name n)) [
    | inl first ↦ rw (differs, first) (inr g)
    | inr later ↦
        rw (differs, later)
          (elim g [
            | inl here ↦ inl here
            | inr there ↦ inr (push_group-keeps name other r s groups there)
          ])
  ]
]

push_groups-keeps :
    (es : List ExporterConfig) (other : Bytes) (r s : TelemetryRecord) (groups : Groups)
    → Grouped other s groups
    → Grouped other s (push_groups es r groups)
unfolding push_groups
push_groups-keeps [] other r s groups g = g
push_groups-keeps (e ∷ es) other r s groups g =
    push_groups-keeps es other r s (push_group e.name r groups)
      (push_group-keeps e.name other r s groups g)

push_groups-Grouped :
    (es : List ExporterConfig) (e : ExporterConfig) (r : TelemetryRecord) (groups : Groups)
    → In e es
    → Grouped e.name r (push_groups es r groups)
unfolding push_groups
push_groups-Grouped [] e r groups m = absurd m
push_groups-Grouped (x ∷ es) e r groups (inl same) =
    subst (λ (y : ExporterConfig). Grouped y.name r (push_groups es r (push_group x.name r groups)))
      same
      (push_groups-keeps es x.name r r (push_group x.name r groups)
        (push_group-Grouped x.name r groups))
push_groups-Grouped (x ∷ es) e r groups (inr m) =
    push_groups-Grouped es e r (push_group x.name r groups) m

-- All that `group_records` was given is in the groups of its exporters.
group_records-keeps :
    (config : PipelineConfig) (rs : List TelemetryRecord) (groups : Groups) {after : Groups}
    (name : Bytes) (r : TelemetryRecord)
    → group_records config rs groups ≡ ok after
    → Grouped name r groups
    → Grouped name r after
unfolding group_records
group_records-keeps config [] groups {after} name r h g = subst (Grouped name r) (cc) g
group_records-keeps config (s ∷ rs) groups name r h g =
    elim (Result-cases (exporters_for config s.signal)) [
      | inl (es, e) ↦
          group_records-keeps config rs (push_groups es s groups) name r
            (rw (e, group_records) at h) (push_groups-keeps es name s r groups g)
      | inr (error, e) ↦ cc (rw (e, group_records) at h)
    ]

pub group_records-Grouped :
    (config : PipelineConfig) (rs : List TelemetryRecord) (groups : Groups) {after : Groups}
    (r : TelemetryRecord) (es : List ExporterConfig) (x : ExporterConfig)
    → group_records config rs groups ≡ ok after
    → In r rs
    → exporters_for config r.signal ≡ ok es
    → In x es
    → Grouped x.name r after
unfolding group_records
group_records-Grouped config [] groups r es x h m e i = absurd m
group_records-Grouped config (s ∷ rs) groups r es x h (inl same) e i =
    let e' : exporters_for config s.signal ≡ ok es =
      subst (λ (t : TelemetryRecord). exporters_for config t.signal ≡ ok es) (sym same) e in
    group_records-keeps config rs (push_groups es s groups) x.name r (rw (e', group_records) at h) (
      subst (λ (t : TelemetryRecord). Grouped x.name t (push_groups es s groups)) same
        (push_groups-Grouped es x s groups i))
group_records-Grouped config (s ∷ rs) groups r es x h (inr m) e i =
    elim (Result-cases (exporters_for config s.signal)) [
      | inl (fs, f) ↦
          group_records-Grouped config rs (push_groups fs s groups) r es x
            (rw (f, group_records) at h) m e i
      | inr (error, f) ↦ cc (rw (f, group_records) at h)
    ]
