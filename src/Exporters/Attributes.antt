-- ===== src/Exporters/Attributes.antt =====
-- `find_attribute`, the readers of numbers in attributes, and what becomes of the attributes that
-- are not the agent's own.
use telemetry_fabric.Prelude.{
  ℕ, zero, suc, Bool, not, ◌||◌, List, [], ◌∷◌, Option, none, some, ◌=text◌, if◌then◌else◌, length,
}
use telemetry_fabric.Prelude.Result.{Result, ok, err}
use telemetry_fabric.Prelude.Words.{u32_max}
use telemetry_fabric.Std.Bytes.{Bytes}
use telemetry_fabric.Std.Text.{text, is_blank}
use telemetry_fabric.Std.Decimal.{parse_u64, parse_int}
use telemetry_fabric.Std.Lines.{starts_with, strip_prefix, split_once, trim}
use telemetry_fabric.Std.Signed.{ℤ, parse_signed, i32_max}
use telemetry_fabric.Core.Telemetry.{Attribute, TelemetryRecord}
use telemetry_fabric.Otlp.Messages.{KeyValues, end, pair, string_value}

-- `iter().find(...)` on the key.
unfoldable pub find_in : Bytes → List Attribute → Option Bytes
find_in key [] = none
find_in key (attribute ∷ rest) =
    let found = find_in key rest in if attribute.key =text key then some attribute.value else found

unfoldable pub find_attribute : TelemetryRecord → Bytes → Option Bytes
unfolding find_in
find_attribute r key = find_in key r.attributes

-- `option.and_then(f)`
unfoldable pub and_then {ℓ κ} : {A : Type ℓ} {B : Type κ} → Option A → (A → Option B) → Option B
and_then none f = none
and_then (some a) f = f a

-- `option.or_else(...)`
abbrev pub or_else {ℓ} : {A : Type ℓ} → Option A → Option A → Option A
or_else none b = b
or_else (some a) b = some a

abbrev accepted {ℓ} : {E A : Type ℓ} → Result E A → Option A
accepted (ok a) = some a
accepted (err e) = none

-- `s.parse::<u32>().ok()`
unfoldable pub parse_u32 : Bytes → Option ℕ
unfolding parse_int
parse_u32 s = accepted (parse_int u32_max s)

-- `s.parse::<i32>().ok()`
unfoldable pub parse_i32 : Bytes → Option ℤ
unfolding parse_signed
parse_i32 s = parse_signed i32_max s

unfoldable pub parse_u64_attribute : TelemetryRecord → Bytes → Option ℕ
unfolding and_then
parse_u64_attribute r key = and_then (find_attribute r key) parse_u64

unfoldable pub parse_i32_attribute : TelemetryRecord → Bytes → Option ℤ
unfolding and_then
parse_i32_attribute r key = and_then (find_attribute r key) parse_i32

-- `s.split(',')` on a bound for the parts.
unfoldable pub split_from : ℕ → Bytes → List Bytes
split_from zero s = s ∷ []
split_from (suc fuel) s = elim (split_once 44 s) [
  | none ↦ s ∷ []
  | some (part, rest) ↦ part ∷ split_from fuel rest
]

unfoldable pub split_comma : Bytes → List Bytes
unfolding split_from
split_comma s = split_from (length s) s

parse_parts {ℓ} : {A : Type ℓ} → (Bytes → Option A) → List Bytes → List A
parse_parts f [] = []
parse_parts f (part ∷ rest) = elim (f (trim part)) [
  | none ↦ parse_parts f rest
  | some a ↦ a ∷ parse_parts f rest
]

-- The parts of a list in an attribute that `f` can read.
unfoldable pub parse_list {ℓ} : {A : Type ℓ} → (Bytes → Option A) → Option Bytes → List A
unfolding parse_parts split_comma
parse_list f none = []
parse_list f (some value) = parse_parts f (split_comma value)

unfoldable pub parse_u64_list_attribute : TelemetryRecord → Bytes → List ℕ
unfolding parse_list
parse_u64_list_attribute r key = parse_list parse_u64 (find_attribute r key)

-- The prefix of the attributes that the receivers write.
abbrev pub is_own : Bytes → Bool
is_own key = starts_with (text "otel.") key

module _ {F : Type 0} where
  -- The attributes whose key passes, as strings.
  unfoldable pub string_attributes : (Bytes → Bool) → List Attribute → KeyValues F
  string_attributes keep [] = end
  string_attributes keep (attribute ∷ rest) =
      let others = string_attributes keep rest in
      if keep attribute.key
      then pair attribute.key (string_value attribute.value) others
      else others

  unfoldable pub record_to_metric_attributes : TelemetryRecord → KeyValues F
  unfolding string_attributes
  record_to_metric_attributes r =
      string_attributes (λ key. not (is_own key || starts_with (text "resource.") key)) r.attributes

  unfoldable pub record_to_log_attributes : TelemetryRecord → KeyValues F
  unfolding string_attributes
  record_to_log_attributes r =
      string_attributes (λ key. not (is_own key || starts_with (text "resource.") key)) r.attributes

  -- The attributes with the prefix, without it, where what is left passes.
  unfoldable pub stripped_attributes : Bytes → (Bytes → Bool) → List Attribute → KeyValues F
  stripped_attributes prefix keep [] = end
  stripped_attributes prefix keep (attribute ∷ rest) =
      let others = stripped_attributes prefix keep rest in
      elim (strip_prefix prefix attribute.key) [
        | none ↦ others
        | some key ↦ if keep key then pair key (string_value attribute.value) others else others
      ]

  unfoldable pub record_to_resource_attributes : TelemetryRecord → KeyValues F
  unfolding stripped_attributes
  record_to_resource_attributes r =
      stripped_attributes (text "resource.") (λ key. not (is_blank key)) r.attributes

-- `filter(|name| !name.trim().is_empty())`
unfoldable pub not_blank : Option Bytes → Option Bytes
not_blank none = none
not_blank (some name) = if is_blank name then none else some name

-- The name of the scope.
unfoldable pub record_scope : TelemetryRecord → Option Bytes
unfolding not_blank
record_scope r = not_blank (find_attribute r (text "otel.scope.name"))
