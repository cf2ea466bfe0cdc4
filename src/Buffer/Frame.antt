-- ===== src/Buffer/Frame.antt =====
-- One record in a segment: its length, its checksum and the payload.
use telemetry_fabric.Prelude.{
  ℕ, ◌+◌, ◌*◌, ◌%◌, ◌^◌, ◌<◌, ◌≡◌, [], ◌∷◌, ◌++◌, Option, none, some, ltb, if◌then◌else◌, length,
  take, drop, length-append, arith,
}
use Prim.Native.Nat.{bit_xor}
use telemetry_fabric.Std.Bytes.{Bytes, le_bytes, length-le_bytes}

abbrev pub record_header_len : ℕ
record_header_len = 8

checksum_loop : ℕ → Bytes → ℕ
checksum_loop hash [] = hash
checksum_loop hash (byte ∷ rest) = checksum_loop (bit_xor hash byte * 0x01000193 % 2 ^ 32) rest

unfoldable pub checksum32 : Bytes → ℕ
unfolding checksum_loop
checksum32 payload = checksum_loop 0x811c9dc5 payload

checksum_loop-lt :
    (hash : ℕ) (payload : Bytes) → hash < 2 ^ 32 → checksum_loop hash payload < 2 ^ 32
unfolding checksum_loop
checksum_loop-lt hash [] h = h
checksum_loop-lt hash (byte ∷ rest) h =
    checksum_loop-lt (bit_xor hash byte * 0x01000193 % 2 ^ 32) rest (omega arith)

-- A checksum is a `u32`.
pub checksum32-lt : (payload : Bytes) → checksum32 payload < 2 ^ 32
unfolding checksum32
checksum32-lt payload = checksum_loop-lt 0x811c9dc5 payload (omega arith)

-- What `enqueue` writes for a payload.
unfoldable pub frame : Bytes → Bytes
frame payload = le_bytes 4 (length payload) ++ (le_bytes 4 (checksum32 payload) ++ payload)

pub length-frame : (payload : Bytes) → length (frame payload) ≡ record_header_len + length payload
unfolding frame
length-frame payload = omega (
  arith,
  length-append (le_bytes 4 (length payload)) (le_bytes 4 (checksum32 payload) ++ payload),
  length-append (le_bytes 4 (checksum32 payload)) payload,
  length-le_bytes 4 (length payload),
  length-le_bytes 4 (checksum32 payload),
)

-- `read_exact` of `n` bytes at an offset of a file; `none` is the end of the file.
unfoldable pub read_at : Bytes → ℕ → ℕ → Option Bytes
read_at content offset n =
    if ltb (length content) (offset + n) then none else some (take n (drop offset content))
