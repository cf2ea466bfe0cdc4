-- ===== src/Exporters/Snappy/RoundTrip.antt =====
-- A reader of Snappy blocks that hold literals, after the description of the format, and what it
-- makes of what is written.
use telemetry_fabric.Prelude.{
  Bool-cases, inl, inr, ℕ, zero, suc, ◌+◌, ◌-◌, ◌*◌, ◌/◌, ◌%◌, ◌^◌, ◌<◌, ◌≤◌, ◌≡◌, refl, ap, sym,
  ◌∙◌, [], ◌∷◌, ◌++◌, Option, none, some, ltb, leb, ◌==◌, if◌then◌else◌, length, take, drop,
  take-append, drop-append, take-append-drop, length-append, length-drop, arith,
}
use telemetry_fabric.Std.Bytes.{Bytes, le_bytes, from_le}
use telemetry_fabric.Exporters.Snappy.{
  varint_from, write_snappy_varint, significant, bytes_used, write_snappy_literal_tag, write_chunks,
  snappy_compress_literal,
}

-- A little-endian number of base 128; the last byte is below 128.
with_group : ℕ → Option (ℕ × Bytes) → Option (ℕ × Bytes)
with_group b none = none
with_group b (some (high, rest)) = some (b - 128 + 128 * high, rest)

pub read_varint : Bytes → Option (ℕ × Bytes)
unfolding with_group
read_varint [] = none
read_varint (b ∷ bytes) =
    let more = with_group b (read_varint bytes) in if ltb b 128 then some (b, bytes) else more

split_at : ℕ → Bytes → Option (Bytes × Bytes)
split_at n bytes = if leb n (length bytes) then some (take n bytes, drop n bytes) else none

-- An element whose tag ends in two zero bits is a literal: the tag's upper bits are its length less
-- one, or from 60 on say in how many bytes that follows.
read_literal : Bytes → Option (Bytes × Bytes)
unfolding split_at
read_literal [] = none
read_literal (tag ∷ bytes) =
    if tag % 4 == 0
    then (if ltb (tag / 4) 60
        then split_at (tag / 4 + 1) bytes
        else split_at (from_le (take (tag / 4 - 59) bytes) + 1) (drop (tag / 4 - 59) bytes))
    else none

before : Bytes → Option Bytes → Option Bytes
before literal none = none
before literal (some rest) = some (literal ++ rest)

read_next : (Bytes → Option Bytes) → Option (Bytes × Bytes) → Option Bytes
unfolding before
read_next more none = none
read_next more (some (literal, rest)) = before literal (more rest)

read_literals : ℕ → Bytes → Option Bytes
unfolding read_next
read_literals fuel [] = some []
read_literals zero (b ∷ bytes) = none
read_literals (suc fuel) (b ∷ bytes) = read_next (read_literals fuel) (read_literal (b ∷ bytes))

-- The output is as long as the block says.
checked : ℕ → Option Bytes → Option Bytes
checked n none = none
checked n (some output) = if length output == n then some output else none

read_block : Option (ℕ × Bytes) → Option Bytes
unfolding checked
read_block none = none
read_block (some (n, bytes)) = checked n (read_literals (length bytes) bytes)

unfoldable pub snappy_decompress : Bytes → Option Bytes
unfolding read_block read_literals read_literal
snappy_decompress bytes = read_block (read_varint bytes)

abbrev FitsGroups : ℕ → ℕ → Type 0
FitsGroups zero v = v < 128
FitsGroups (suc fuel) v = FitsGroups fuel (v / 128)

read_varint-varint_from :
    (fuel v : ℕ) (rest : Bytes)
    → FitsGroups fuel v
    → read_varint (varint_from fuel v ++ rest) ≡ some (v, rest)
unfolding read_varint varint_from
read_varint-varint_from zero v rest h = ground arith
read_varint-varint_from (suc fuel) v rest h =
    ground (arith, read_varint-varint_from fuel (v / 128) rest h)

read-write_varint :
    (v : ℕ) (rest : Bytes)
    → v < 2 ^ 64
    → read_varint (write_snappy_varint v ++ rest) ≡ some (v, rest)
unfolding write_snappy_varint
read-write_varint v rest h = read_varint-varint_from 9 v rest (omega arith)

tag-small : (m : ℕ) → m < 60 → write_snappy_literal_tag (m + 1) ≡ (m * 4) ∷ []
unfolding write_snappy_literal_tag
tag-small m h = ground arith

used-one : (m : ℕ) → m < 256 → bytes_used (le_bytes 4 m) ≡ 1
unfolding bytes_used significant le_bytes
used-one m h = ground arith

used-two : (m : ℕ) → 256 ≤ m → m < 65536 → bytes_used (le_bytes 4 m) ≡ 2
unfolding bytes_used significant le_bytes
used-two m h l = ground arith

tag-one : (m : ℕ) → 60 ≤ m → m < 256 → write_snappy_literal_tag (m + 1) ≡ 240 ∷ m ∷ []
unfolding write_snappy_literal_tag le_bytes
tag-one m h l = ground (arith, used-one m l)

tag-two :
    (m : ℕ)
    → 256 ≤ m
    → m < 65536
    → write_snappy_literal_tag (m + 1) ≡ 244 ∷ (m % 256) ∷ (m / 256) ∷ []
unfolding write_snappy_literal_tag le_bytes
tag-two m h l = ground (arith, used-two m h l)

split_at-append :
    (n : ℕ) (literal rest : Bytes)
    → length literal ≡ n
    → split_at n (literal ++ rest) ≡ some (literal, rest)
unfolding split_at
split_at-append n literal rest h =
    rw (sym h) (
      ground
        (arith, length-append literal rest, take-append literal rest, drop-append literal rest))

read-small :
    (m : ℕ) (bytes : Bytes) → m < 60 → read_literal ((m * 4) ∷ bytes) ≡ split_at (m + 1) bytes
unfolding read_literal
read-small m bytes h = ground arith

read-one : (m : ℕ) (bytes : Bytes) → read_literal (240 ∷ m ∷ bytes) ≡ split_at (m + 1) bytes
unfolding read_literal from_le
read-one m bytes = ap (λ (n : ℕ). split_at n bytes) (omega arith)

read-two :
    (m : ℕ) (bytes : Bytes)
    → read_literal (244 ∷ (m % 256) ∷ (m / 256) ∷ bytes) ≡ split_at (m + 1) bytes
unfolding read_literal from_le
read-two m bytes = ap (λ (n : ℕ). split_at n bytes) (omega arith)

-- A tag gives the length back.
read-tag :
    (m : ℕ) (bytes : Bytes)
    → m < 65536
    → read_literal (write_snappy_literal_tag (m + 1) ++ bytes) ≡ split_at (m + 1) bytes
read-tag m bytes h = elim (Bool-cases (ltb m 60)) [
  | inl small ↦ rw (tag-small m (ground arith)) (read-small m bytes (ground arith))
  | inr large ↦ elim (Bool-cases (ltb m 256)) [
    | inl one ↦ rw (tag-one m (ground arith) (ground arith)) (read-one m bytes)
    | inr two ↦ rw (tag-two m (ground arith) h) (read-two m bytes)
  ]
]

read-write_literal :
    (literal rest : Bytes)
    → 0 < length literal
    → length literal ≤ 65536
    → read_literal (write_snappy_literal_tag (length literal) ++ (literal ++ rest))
      ≡ some (literal, rest)
read-write_literal literal rest h l =
    let m : length literal ≡ length literal - 1 + 1 = omega arith in
    ap (λ (n : ℕ). read_literal (write_snappy_literal_tag n ++ (literal ++ rest))) m
    ∙ read-tag (length literal - 1) (literal ++ rest) (omega arith)
    ∙ split_at-append (length literal - 1 + 1) literal rest m

read_literals-step :
    (fuel : ℕ) (bytes literal rest : Bytes)
    → read_literal bytes ≡ some (literal, rest)
    → read_literals (suc fuel) bytes ≡ before literal (read_literals fuel rest)
unfolding read_literals read_literal
read_literals-step fuel [] literal rest h = cc
read_literals-step fuel (b ∷ bytes) literal rest h = ap (read_next (read_literals fuel)) h

length-take-le : (size : ℕ) (xs : Bytes) → length (take size xs) ≤ size
length-take-le zero xs = omega arith
length-take-le (suc size) [] = omega arith
length-take-le (suc size) (x ∷ xs) = omega (arith, length-take-le size xs)

module _ (size : ℕ) (small : size < 65536) where
  length-write_chunks :
      (fuel : ℕ) (input : Bytes)
      → length input ≤ fuel
      → length input ≤ length (write_chunks (suc size) fuel input)
  unfolding write_chunks
  length-write_chunks fuel [] h = omega arith
  length-write_chunks zero (b ∷ bytes) h = absurd (omega arith)
  length-write_chunks (suc fuel) (b ∷ bytes) h =
      let shorter = length-drop size bytes in
      omega (
        arith,
        length-append (write_snappy_literal_tag (suc (length (take size bytes))))
            (b ∷ (take size bytes ++ write_chunks (suc size) fuel (drop size bytes))),
        length-append (take size bytes) (write_chunks (suc size) fuel (drop size bytes)),
        length-append (take size bytes) (drop size bytes),
        ap length (take-append-drop size bytes),
        length-write_chunks fuel (drop size bytes) (omega (arith, shorter)),
      )

  read-write_chunks :
      (fuel rounds : ℕ) (input : Bytes)
      → length input ≤ fuel
      → length input ≤ rounds
      → read_literals rounds (write_chunks (suc size) fuel input) ≡ some input
  unfolding write_chunks before
  read-write_chunks fuel zero [] h r = unfold read_literals in refl
  read-write_chunks fuel (suc rounds) [] h r = unfold read_literals in refl
  read-write_chunks zero rounds (b ∷ bytes) h r = absurd (omega arith)
  read-write_chunks (suc fuel) zero (b ∷ bytes) h r = absurd (omega arith)
  read-write_chunks (suc fuel) (suc rounds) (b ∷ bytes) h r =
      let shorter = length-drop size bytes in
      read_literals-step rounds _ (b ∷ take size bytes)
        (write_chunks (suc size) fuel (drop size bytes))
        (read-write_literal (b ∷ take size bytes) (write_chunks (suc size) fuel (drop size bytes))
          (omega arith) (omega (arith, length-take-le size bytes)))
      ∙ ap (before (b ∷ take size bytes)) (
          read-write_chunks fuel rounds (drop size bytes) (omega (arith, shorter))
            (omega (arith, shorter)))
      ∙ ap (λ (t : Bytes). some (b ∷ t)) (take-append-drop size bytes)

checked-exact : (output : Bytes) → checked (length output) (some output) ≡ some output
unfolding checked
checked-exact output = ground arith

-- Whatever is compressed, of a length that a `usize` has, is read back by `snappy_decompress`.
pub snappy_decompress-snappy_compress_literal :
    (input : Bytes)
    → length input < 2 ^ 64
    → snappy_decompress (snappy_compress_literal input) ≡ some input
unfolding snappy_decompress snappy_compress_literal
snappy_decompress-snappy_compress_literal input h =
    let chunks = write_chunks 65_536 (length input) input in
    ap read_block (read-write_varint (length input) chunks h)
    ∙ ap (checked (length input)) (
        read-write_chunks 65_535 (omega arith) (length input) (length chunks) input (omega arith)
          (length-write_chunks 65_535 (omega arith) (length input) input (omega arith)))
    ∙ checked-exact input
