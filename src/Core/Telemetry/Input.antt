-- ===== src/Core/Telemetry/Input.antt =====
-- The `Cursor` of telemetry.rs, which reads a byte slice from front to back.
use telemetry_fabric.Prelude.{
  ℕ, Bool, Option, none, some, true, false, ltb, ◌==◌, length, take, drop, ◌++◌,
}
use telemetry_fabric.Prelude.Words.{checked_add_u64}
use telemetry_fabric.Prelude.Result.{Result, ok, err}
use telemetry_fabric.Std.Bytes.{Bytes, from_le}
use telemetry_fabric.Std.Text.{text, Utf8Error, invalid, incomplete, utf8_error}
use telemetry_fabric.Std.Decimal.{decimal}
use telemetry_fabric.Core.Error.{TelemetryError, decode_error}

pub record Cursor : Type 0 where
  pub input : Bytes
  pub offset : ℕ

-- A read: a method with `&mut self` on the cursor, whose error ends the decoding.
abbrev pub Reader : Type 0 → Type 0
Reader A = Cursor → Result TelemetryError (A × Cursor)

abbrev pub pure : {A : Type 0} → A → Reader A
pure a c = ok (a, c)

abbrev pub lift_step : {A : Type 0} → Result TelemetryError A → Reader A
lift_step (ok a) c = ok (a, c)
lift_step (err e) c = err e

abbrev pub bind_step :
    {A B : Type 0}
    → Result TelemetryError (A × Cursor)
    → (A → Reader B)
    → Result TelemetryError (B × Cursor)
bind_step (ok (a, c)) f = f a c
bind_step (err e) f = err e

infixl 5 ◌>>=◌ ◌>>◌
abbrev pub ◌>>=◌ : {A B : Type 0} → Reader A → (A → Reader B) → Reader B
◌>>=◌ m f c = bind_step (m c) f

abbrev pub ◌>>◌ : {B : Type 0} → Reader (Unit {0}) → Reader B → Reader B
m >> k = m >>= λ _. k

unfoldable pub new : Bytes → Cursor
new input = record { input = input; offset = 0 }

take_slice : Cursor → ℕ → Option ℕ → Result TelemetryError (Bytes × Cursor)
take_slice c len none = err (decode_error (text "offset overflow"))
take_slice c len (some end) = elim (ltb (length c.input) end) [
  | true ↦ err (decode_error (text "record ended unexpectedly"))
  | false ↦ ok (take len (drop c.offset c.input), record c { offset = end })
]

unfoldable pub read_exact : ℕ → Reader Bytes
unfolding take_slice
read_exact len c = take_slice c len (checked_add_u64 c.offset len)

unfoldable pub read_u8 : Reader ℕ
read_u8 = do bytes ← read_exact 1; pure (from_le bytes)

unfoldable pub read_u16 : Reader ℕ
read_u16 = do bytes ← read_exact 2; pure (from_le bytes)

unfoldable pub read_u32 : Reader ℕ
read_u32 = do bytes ← read_exact 4; pure (from_le bytes)

unfoldable pub read_u128 : Reader ℕ
read_u128 = do bytes ← read_exact 16; pure (from_le bytes)

-- The text of a `FromUtf8Error`.
unfoldable pub display_utf8_error : Utf8Error → Bytes
display_utf8_error (invalid index len) =
    text "invalid utf-8 sequence of "
    ++ (decimal len ++ (text " bytes from index " ++ decimal index))
display_utf8_error (incomplete index) =
    text "incomplete utf-8 byte sequence from index " ++ decimal index

unfoldable pub from_utf8 : Bytes → Result TelemetryError Bytes
unfolding display_utf8_error
from_utf8 bytes = elim (utf8_error bytes) [
  | none ↦ ok bytes
  | some e ↦ err (decode_error (display_utf8_error e))
]

unfoldable pub read_string : ℕ → Reader Bytes
read_string len = do bytes ← read_exact len; lift_step (from_utf8 bytes)

unfoldable pub is_finished : Cursor → Bool
is_finished c = c.offset == length c.input
