-- ===== src/Exporters/Ids.antt =====
-- `fallback_id`: an identifier from a seed, for a record that has none.
use telemetry_fabric.Prelude.{
  ℕ, zero, suc, ◌+◌, ◌*◌, ◌/◌, ◌%◌, ◌^◌, ◌<◌, ◌≤◌, ◌≡◌, refl, [], ◌∷◌, ◌++◌, true, false, ltb,
  if◌then◌else◌, length, take, length-append, length-take_of_le, Bool-cases, inl, inr, arith, ◌∙◌,
}
use Prim.Native.Nat.{bit_xor}
use telemetry_fabric.Std.Bytes.{Bytes, le_bytes, length-le_bytes}
use telemetry_fabric.Exporters.Hex.{all_zero}

-- `hash ^= byte; hash = hash.wrapping_mul(0x01000193)` for each byte.
unfoldable pub seed_hash : ℕ → Bytes → ℕ
seed_hash hash [] = hash
seed_hash hash (byte ∷ seed) = seed_hash (bit_xor hash byte * 0x01000193 % 2 ^ 32) seed

-- `hash.rotate_left(13)` on 32 bits.
unfoldable pub rotate_left_13 : ℕ → ℕ
rotate_left_13 hash = hash * 2 ^ 13 % 2 ^ 32 + hash / 2 ^ 19

unfoldable pub next_hash : ℕ → ℕ
unfolding rotate_left_13
next_hash hash = bit_xor hash (rotate_left_13 hash) * 0x01000193 % 2 ^ 32

-- `while output.len() < len`, on a bound for the rounds.
unfoldable pub fill : ℕ → ℕ → ℕ → Bytes → Bytes
fill zero len hash output = output
fill (suc fuel) len hash output = elim (ltb (length output) len) [
  | true ↦ fill fuel len (next_hash hash) (output ++ le_bytes 4 (next_hash hash))
  | false ↦ output
]

-- `output[0] = 1`, which a `len` of 0 does not survive.
set_first : Bytes → Bytes
set_first [] = []
set_first (b ∷ bytes) = 1 ∷ bytes

unfoldable pub fallback_id : Bytes → ℕ → Bytes
unfolding set_first
fallback_id seed len =
    let output = take len (fill len len (seed_hash 0x811c9dc5 seed) []) in
    if all_zero output then set_first output else output

-- The rounds are enough.
fill-le :
    (fuel len hash : ℕ) (output : Bytes)
    → len ≤ length output + fuel
    → len ≤ length (fill fuel len hash output)
unfolding fill
fill-le zero len hash output h = omega arith
fill-le (suc fuel) len hash output h = elim (Bool-cases (ltb (length output) len)) [
  | inl more ↦
      rw (more, fill)
        (fill-le fuel len (next_hash hash) (output ++ le_bytes 4 (next_hash hash)) (
          omega (
            arith,
            length-append output (le_bytes 4 (next_hash hash)),
            length-le_bytes 4 (next_hash hash),
          )))
  | inr done ↦ rw (done, fill) (ground arith)
]

set_first-nonzero :
    (output : Bytes)
    → 0 < length output
    → (length (set_first output) ≡ length output) × (all_zero (set_first output) ≡ false)
unfolding set_first all_zero
set_first-nonzero [] h = absurd (omega arith)
set_first-nonzero (b ∷ bytes) h = (refl, refl)

-- The identifier has the length that was asked for, and is never one of zeros only, which would be
-- read as missing.
pub fallback_id-valid :
    (seed : Bytes) (len : ℕ)
    → 0 < len
    → (length (fallback_id seed len) ≡ len) × (all_zero (fallback_id seed len) ≡ false)
unfolding fallback_id
fallback_id-valid seed len h =
    let output : Bytes = take len (fill len len (seed_hash 0x811c9dc5 seed) []) in
    let size : length output ≡ len =
      length-take_of_le len (fill len len (seed_hash 0x811c9dc5 seed) [])
        (fill-le len len (seed_hash 0x811c9dc5 seed) [] (omega arith)) in
    elim (Bool-cases (all_zero output)) [
      | inl zeros ↦
          let (kept, nonzero) = set_first-nonzero output (omega (arith, size)) in
          rw zeros (kept ∙ size, nonzero)
      | inr other ↦ rw other (size, other)
    ]
