-- ===== src/Buffer/ReadBack.antt =====
-- Reading a frame back from the content of a segment.
use telemetry_fabric.Prelude.{
  ℕ, ◌+◌, ◌≤◌, ◌<◌, ◌≡◌, refl, sym, ◌∙◌, [], ◌++◌, none, some, arith, length, take, drop,
  length-append, take-append, drop-append, le→ltb, lt→ltb,
}
use telemetry_fabric.Prelude.Words.{u32_max}
use telemetry_fabric.Std.Bytes.{Bytes, le_bytes, from_le, length-le_bytes, from_le-le_bytes}
use telemetry_fabric.Buffer.Frame.{record_header_len, checksum32, checksum32-lt, frame, read_at}
use mathlib.Core.List.{append_assoc, append-nil}

-- A part of a file between two others is read back at its place.
pub read_at-middle :
    (content pre mid post : Bytes) (o n : ℕ)
    → content ≡ pre ++ (mid ++ post)
    → o ≡ length pre
    → n ≡ length mid
    → read_at content o n ≡ some mid
unfolding read_at
read_at-middle content pre mid post o n ec eo en =
    let long : length content ≡ length pre + (length mid + length post) =
      rw ec (omega (arith, length-append pre (mid ++ post), length-append mid post)) in
    rw (le→ltb (length content) (o + n) (omega arith))
      (rw (ec, eo, en, drop-append pre (mid ++ post), take-append mid post) refl)

pub read_at-end : (content : Bytes) (o n : ℕ) → length content < o + n → read_at content o n ≡ none
unfolding read_at
read_at-end content o n h = rw (lt→ltb (length content) (o + n) h)

-- The header of a frame, and its two numbers.
abbrev pub header : Bytes → Bytes
header payload = le_bytes 4 (length payload) ++ le_bytes 4 (checksum32 payload)

pub length-header : (payload : Bytes) → length (header payload) ≡ record_header_len
length-header payload = omega (
  arith,
  length-append (le_bytes 4 (length payload)) (le_bytes 4 (checksum32 payload)),
  length-le_bytes 4 (length payload),
  length-le_bytes 4 (checksum32 payload),
)

pub header-length :
    (payload : Bytes)
    → length payload ≤ u32_max
    → from_le (take 4 (header payload)) ≡ length payload
header-length payload h =
    let size : Bytes = le_bytes 4 (length payload) in
    let front : take 4 (header payload) ≡ size =
      rw (length-le_bytes 4 (length payload)) at
        (take-append size (le_bytes 4 (checksum32 payload))) in
    rw front (from_le-le_bytes 4 (length payload) (omega arith))

pub header-checksum :
    (payload : Bytes) → from_le (take 4 (drop 4 (header payload))) ≡ checksum32 payload
header-checksum payload =
    let size : Bytes = le_bytes 4 (length payload) in
    let sum : Bytes = le_bytes 4 (checksum32 payload) in
    let back : drop 4 (header payload) ≡ sum =
      rw (length-le_bytes 4 (length payload)) at (drop-append size sum) in
    let whole : take 4 sum ≡ sum =
      rw (length-le_bytes 4 (checksum32 payload), append-nil sum) at (take-append sum []) in
    rw (back, whole)
      (from_le-le_bytes 4 (checksum32 payload) (omega (arith, checksum32-lt payload)))

module _ (content pre payload post : Bytes) (o : ℕ) (ec : content ≡ pre ++ (frame payload ++ post))
    (eo : o ≡ length pre) where
  pub read_at-header : read_at content o record_header_len ≡ some (header payload)
  unfolding frame
  read_at-header =
      read_at-middle content pre (header payload) (payload ++ post) o record_header_len
        (ec ∙ simp append_assoc) eo (sym (length-header payload))

  pub read_at-payload : read_at content (o + record_header_len) (length payload) ≡ some payload
  unfolding frame
  read_at-payload =
      read_at-middle content (pre ++ header payload) payload post (o + record_header_len)
        (length payload) (ec ∙ simp append_assoc)
        (omega (arith, length-append pre (header payload), length-header payload)) refl
