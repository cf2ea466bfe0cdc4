-- ===== src/Exporters/Sanitize.antt =====
-- Names for Prometheus: `sanitize_prometheus_identifier` and its two uses.
use telemetry_fabric.Prelude.{
  ℕ, ◌≡◌, refl, Bool, true, false, not, ◌&&◌, ◌||◌, List, [], ◌∷◌, ◌==◌, if◌then◌else◌, All, arith,
  Bool-cases, inl, inr,
}
use telemetry_fabric.Std.Bytes.{Bytes}
use telemetry_fabric.Std.Text.{text, in_range, chars_from}

-- `is_ascii_digit` and `is_ascii_alphanumeric`.
abbrev is_ascii_digit : ℕ → Bool
is_ascii_digit c = in_range 48 57 c

abbrev is_ascii_alphanumeric : ℕ → Bool
is_ascii_alphanumeric c = in_range 48 57 c || (in_range 65 90 c || in_range 97 122 c)

-- One character; the underscore is 95 and the colon 58.
unfoldable pub sanitize_character : Bool → ℕ → ℕ
sanitize_character allow_colon character =
    let valid =
      character == 95 || ((allow_colon && character == 58) || is_ascii_alphanumeric character) in
    let kept = if valid then character else 95 in if not allow_colon && kept == 58 then 95 else kept

unfoldable pub sanitize_rest : Bool → List ℕ → Bytes
sanitize_rest allow_colon [] = []
sanitize_rest allow_colon (c ∷ cs) = sanitize_character allow_colon c ∷ sanitize_rest allow_colon cs

-- In front of a digit that comes first, `index == 0`, stands an underscore.
unfoldable pub sanitize_chars : Bool → List ℕ → Bytes
sanitize_chars allow_colon [] = 95 ∷ []
sanitize_chars allow_colon (c ∷ cs) =
    let first = sanitize_character allow_colon c in
    if is_ascii_digit first
    then 95 ∷ first ∷ sanitize_rest allow_colon cs
    else first ∷ sanitize_rest allow_colon cs

unfoldable pub sanitize_prometheus_identifier : Bytes → Bool → Bytes
unfolding sanitize_chars
sanitize_prometheus_identifier value allow_colon = sanitize_chars allow_colon (chars_from 0 0 value)

-- A character of a metric name, or, with no colon, of a label name, in the data model of Prometheus.
abbrev pub is_name_character : Bool → ℕ → Bool
is_name_character allow_colon c =
    in_range 97 122 c
    || (in_range 65 90 c || (in_range 48 57 c || (c == 95 || (allow_colon && c == 58))))

-- `[a-zA-Z_:][a-zA-Z0-9_:]*`
abbrev pub IsName : Bool → Bytes → Type 0
IsName allow_colon [] = ⊥
IsName allow_colon (c ∷ name) =
    (in_range 48 57 c ≡ false)
    × (is_name_character allow_colon c ≡ true)
    × All (λ d. is_name_character allow_colon d ≡ true) name

character_lem :
    (allow_colon : Bool) (c : ℕ)
    → is_name_character allow_colon (sanitize_character allow_colon c) ≡ true
unfolding sanitize_character
character_lem true c = ground arith
character_lem false c = ground arith

rest_lem :
    (allow_colon : Bool) (cs : List ℕ)
    → All (λ d. is_name_character allow_colon d ≡ true) (sanitize_rest allow_colon cs)
unfolding sanitize_rest
rest_lem allow_colon [] = tt
rest_lem allow_colon (c ∷ cs) = (character_lem allow_colon c, rest_lem allow_colon cs)

chars_lem : (allow_colon : Bool) (cs : List ℕ) → IsName allow_colon (sanitize_chars allow_colon cs)
unfolding sanitize_chars
chars_lem allow_colon [] = (refl, refl, tt)
chars_lem allow_colon (c ∷ cs) =
    elim (Bool-cases (in_range 48 57 (sanitize_character allow_colon c))) [
      | inl digit ↦ rw digit (refl, refl, (character_lem allow_colon c, rest_lem allow_colon cs))
      | inr other ↦ rw other (other, character_lem allow_colon c, rest_lem allow_colon cs)
    ]

-- Whatever the text is, what becomes of it is a name that Prometheus accepts.
pub sanitize_prometheus_identifier-IsName :
    (value : Bytes) (allow_colon : Bool)
    → IsName allow_colon (sanitize_prometheus_identifier value allow_colon)
unfolding sanitize_prometheus_identifier
sanitize_prometheus_identifier-IsName value allow_colon =
    chars_lem allow_colon (chars_from 0 0 value)

metric_name : sanitize_prometheus_identifier (text "9a.b:c") true ≡ text "_9a_b:c"
unfolding sanitize_prometheus_identifier sanitize_rest sanitize_character chars_from text
metric_name = refl
