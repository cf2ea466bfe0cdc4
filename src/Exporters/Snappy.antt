-- ===== src/Exporters/Snappy.antt =====
-- `snappy_compress_literal`: Snappy's block format, with literals only. The functions return what
-- the code pushes to its output.
pub mod RoundTrip
use telemetry_fabric.Prelude.{
  ℕ, zero, suc, ◌+◌, ◌-◌, ◌*◌, ◌/◌, ◌%◌, List, [], ◌∷◌, ◌++◌, ltb, leb, ◌==◌, if◌then◌else◌, length,
  take, drop,
}
use telemetry_fabric.Std.Bytes.{Bytes, le_bytes}

-- The loop, on the number of rounds that a `usize` may still take.
unfoldable pub varint_from : ℕ → ℕ → Bytes
varint_from zero value = (value % 256) ∷ []
varint_from (suc fuel) value =
    let rest = varint_from fuel (value / 128) in
    if leb 128 value then (value % 128 + 128) ∷ rest else (value % 256) ∷ []

-- 64 bits are ten groups of seven.
unfoldable pub write_snappy_varint : ℕ → Bytes
write_snappy_varint value = varint_from 9 value

-- `rposition(|byte| *byte != 0).map(|index| index + 1)`, with 0 for none.
unfoldable pub significant : Bytes → ℕ
significant [] = 0
significant (b ∷ bytes) =
    let rest = significant bytes in if rest == 0 then (if b == 0 then 0 else 1) else rest + 1

unfoldable pub bytes_used : Bytes → ℕ
bytes_used bytes = if significant bytes == 0 then 1 else significant bytes

unfoldable pub write_snappy_literal_tag : ℕ → Bytes
write_snappy_literal_tag length =
    if length == 0
    then []
    else if ltb (length - 1) 60
    then ((length - 1) * 4) ∷ []
    else ((59 + bytes_used (le_bytes 4 (length - 1))) * 4 % 256)
      ∷ take (bytes_used (le_bytes 4 (length - 1))) (le_bytes 4 (length - 1))

-- `for chunk in input.chunks(size)`; every round takes at least one byte.
unfoldable pub write_chunks : ℕ → ℕ → Bytes → Bytes
write_chunks size fuel [] = []
write_chunks size zero (b ∷ bytes) = []
write_chunks size (suc fuel) (b ∷ bytes) =
    let chunk = take size (b ∷ bytes) in
    write_snappy_literal_tag (length chunk)
    ++ (chunk ++ write_chunks size fuel (drop size (b ∷ bytes)))

unfoldable pub snappy_compress_literal : Bytes → Bytes
snappy_compress_literal input =
    write_snappy_varint (length input) ++ write_chunks 65_536 (length input) input
