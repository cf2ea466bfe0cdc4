-- ===== src/Otlp/Values.antt =====
-- How OTLP values are written as the text of an attribute.
use telemetry_fabric.Prelude.{ℕ, Bool, true, false, List, [], ◌∷◌, ◌++◌, map, if◌then◌else◌}
use telemetry_fabric.Std.Bytes.{Bytes}
use telemetry_fabric.Std.Text.{text, is_blank}
use telemetry_fabric.Std.Decimal.{decimal}
use telemetry_fabric.Std.Signed.{print_int}
use telemetry_fabric.Core.Telemetry.{Attribute}
use telemetry_fabric.Exporters.Hex.{hex_encode}
use telemetry_fabric.Otlp.Messages.{
  Floats, AnyValue, Values, KeyValues, empty, string_value, bool_value, int_value, double_value,
  bytes_value, array_value, kvlist_value, string_value_strindex, nil, cons, end, pair, bare,
  ValueAtQuantile,
}

-- `bool::to_string`
abbrev pub bool_text : Bool → Bytes
bool_text true = text "true"
bool_text false = text "false"

-- `join(",")`
unfoldable pub join_comma : List Bytes → Bytes
join_comma [] = []
join_comma (s ∷ []) = s
join_comma (s ∷ t ∷ rest) = s ++ (44 ∷ join_comma (t ∷ rest))

unfoldable pub join_u64_values : List ℕ → Bytes
unfolding join_comma
join_u64_values values = join_comma (map decimal values)

module _ (fl : Floats) where
  unfoldable pub join_f64_values : List fl.F → Bytes
  unfolding join_comma
  join_f64_values values = join_comma (map fl.to_text values)

  unfoldable pub join_quantile_values : List (ValueAtQuantile fl.F) → Bytes
  unfolding join_comma
  join_quantile_values values =
      join_comma (map (λ v. fl.to_text v.quantile ++ (58 ∷ fl.to_text v.value)) values)

  -- With the texts of the items of an array, and of a list of pairs but those with a blank key.
  unfoldable mutual
    pub any_value_to_string : AnyValue fl.F → Bytes
    any_value_to_string empty = []
    any_value_to_string (string_value value) = value
    any_value_to_string (bool_value value) = bool_text value
    any_value_to_string (int_value value) = print_int value
    any_value_to_string (double_value value) = fl.to_text value
    any_value_to_string (bytes_value value) = hex_encode value
    any_value_to_string (array_value values) = 91 ∷ join_comma (value_texts values) ++ (93 ∷ [])
    any_value_to_string (kvlist_value values) = 123 ∷ join_comma (pair_texts values) ++ (125 ∷ [])
    any_value_to_string (string_value_strindex value) = print_int value

    pub value_texts : Values fl.F → List Bytes
    value_texts nil = []
    value_texts (cons value rest) = any_value_to_string value ∷ value_texts rest

    pub pair_texts : KeyValues fl.F → List Bytes
    pair_texts end = []
    pair_texts (pair key value rest) =
        let texts = pair_texts rest in
        if is_blank key then texts else (key ++ (61 ∷ any_value_to_string value)) ∷ texts
    pair_texts (bare key rest) =
        let texts = pair_texts rest in if is_blank key then texts else (key ++ (61 ∷ [])) ∷ texts

  -- A key that is not blank, with the prefix in front.
  keep_key : Bytes → Bytes → Bytes → List Attribute → List Attribute
  keep_key prefix key value rest =
      if is_blank key then rest else record { key = prefix ++ key; value = value } ∷ rest

  -- An empty prefix changes no key.
  unfoldable pub attributes_from_key_values : Bytes → KeyValues fl.F → List Attribute
  unfolding keep_key any_value_to_string
  attributes_from_key_values prefix end = []
  attributes_from_key_values prefix (pair key value rest) =
      keep_key prefix key (any_value_to_string value) (attributes_from_key_values prefix rest)
  attributes_from_key_values prefix (bare key rest) =
      keep_key prefix key [] (attributes_from_key_values prefix rest)
