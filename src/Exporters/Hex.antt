-- ===== src/Exporters/Hex.antt =====
-- `hex_encode` and `hex_decode_fixed`.
use telemetry_fabric.Prelude.{
  ℕ, ◌+◌, ◌-◌, ◌*◌, ◌/◌, ◌%◌, ◌<◌, ◌≡◌, refl, [], ◌∷◌, Option, none, some, Bool, true, ◌&&◌, ltb,
  ◌==◌, if◌then◌else◌, length, All, arith,
}
use telemetry_fabric.Std.Bytes.{Bytes}
use telemetry_fabric.Std.Text.{in_range}

-- `HEX[i]`
unfoldable pub hex_digit : ℕ → ℕ
hex_digit i = if ltb i 10 then 48 + i else 87 + i

unfoldable pub hex_encode : Bytes → Bytes
unfolding hex_digit
hex_encode [] = []
hex_encode (byte ∷ bytes) = hex_digit (byte / 16) ∷ hex_digit (byte % 16) ∷ hex_encode bytes

unfoldable pub hex_value : ℕ → Option ℕ
hex_value value =
    if in_range 48 57 value
    then some (value - 48)
    else if in_range 97 102 value
    then some (value - 97 + 10)
    else if in_range 65 70 value
    then some (value - 65 + 10)
    else none

-- A byte from its digits; `(high << 4) | low`, where `low` is below 16.
join_digits : Option ℕ → Option ℕ → Option Bytes → Option Bytes
join_digits (some high) (some low) (some rest) = some ((high * 16 + low) ∷ rest)
join_digits (some high) (some low) none = none
join_digits (some high) none rest = none
join_digits none low rest = none

-- The loop over `chunks_exact(2)`.
unfoldable pub hex_pairs : Bytes → Option Bytes
unfolding join_digits
hex_pairs [] = some []
hex_pairs (high ∷ []) = some []
hex_pairs (high ∷ low ∷ rest) = join_digits (hex_value high) (hex_value low) (hex_pairs rest)

unfoldable pub all_zero : Bytes → Bool
all_zero [] = true
all_zero (byte ∷ bytes) = byte == 0 && all_zero bytes

not_zero : Option Bytes → Option Bytes
not_zero none = none
not_zero (some output) = if all_zero output then none else some output

unfoldable pub hex_decode_fixed : Bytes → ℕ → Option Bytes
unfolding not_zero
hex_decode_fixed value expected_len =
    if length value == expected_len * 2 then not_zero (hex_pairs value) else none

abbrev pub AreBytes : Bytes → Type 0
AreBytes bytes = All (λ b. b < 256) bytes

hex_value-hex_digit : (i : ℕ) → i < 16 → hex_value (hex_digit i) ≡ some i
unfolding hex_value hex_digit
hex_value-hex_digit i h = ground arith

length-hex_encode : (bytes : Bytes) → length (hex_encode bytes) ≡ length bytes * 2
unfolding hex_encode
length-hex_encode [] = omega arith
length-hex_encode (byte ∷ bytes) = omega (arith, length-hex_encode bytes)

hex_pairs-hex_encode : (bytes : Bytes) → AreBytes bytes → hex_pairs (hex_encode bytes) ≡ some bytes
unfolding hex_pairs hex_encode
hex_pairs-hex_encode [] h = refl
hex_pairs-hex_encode (byte ∷ bytes) h = ground (
  arith,
  hex_value-hex_digit (byte / 16),
  hex_value-hex_digit (byte % 16),
  hex_pairs-hex_encode bytes h.1,
)

-- An identifier decodes from its hexadecimal form at its own length, except that one of zeros only
-- counts as missing.
pub hex_decode_fixed-hex_encode :
    (bytes : Bytes)
    → AreBytes bytes
    → hex_decode_fixed (hex_encode bytes) (length bytes)
      ≡ (if all_zero bytes then none else some bytes)
unfolding hex_decode_fixed
hex_decode_fixed-hex_encode bytes h =
    ground (arith, length-hex_encode bytes, hex_pairs-hex_encode bytes h)
