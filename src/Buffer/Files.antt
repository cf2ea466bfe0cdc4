-- ===== src/Buffer/Files.antt =====
-- The directory of a `DiskQueue`, as far as crates/telemetry-buffer/src/lib.rs looks at it.
-- The segment files are a finite map from the id that a name spells to the content, in order of id:
-- `segment_ids` sorts what `read_dir` yields, so no other order shows. A quarantined segment is
-- named by its id and the number behind `.corrupt`. The file system of the model does not fail.
use telemetry_fabric.Prelude.{
  ℕ, suc, zero, ◌+◌, ◌-◌, List, [], ◌∷◌, ◌++◌, Option, none, some, Bool, true, false, ltb, ◌==◌,
  ◌&&◌, if◌then◌else◌, length,
}
use telemetry_fabric.Std.Bytes.{Bytes}
use telemetry_fabric.Std.Text.{text}
use telemetry_fabric.Std.Decimal.{decimal}

abbrev pub Segments : Type 0
Segments = List (ℕ × Bytes)

pub record Dir : Type 0 where
  pub path : Bytes
  pub segments : Segments
  pub corrupt : List (ℕ × ℕ × Bytes)
  pub reasons : List (ℕ × ℕ × Bytes)
  pub cursor_file : Option Bytes
  pub cursor_tmp : Option Bytes

zeros : ℕ → Bytes
zeros zero = []
zeros (suc n) = 48 ∷ zeros n

-- `{id:020}`
unfoldable pub padded : ℕ → Bytes
unfolding zeros
padded id = zeros (20 - length (decimal id)) ++ decimal id

unfoldable pub segment_path : Dir → ℕ → Bytes
segment_path dir id = dir.path ++ (47 ∷ (padded id ++ text ".segment"))

unfoldable pub lookup : ℕ → Segments → Option Bytes
lookup id [] = none
lookup id ((j, content) ∷ m) = if j == id then some content else lookup id m

-- Writes a whole file, in its place in the order.
unfoldable pub write : ℕ → Bytes → Segments → Segments
write id content [] = (id, content) ∷ []
write id content ((j, c) ∷ m) =
    if j == id
    then (id, content) ∷ m
    else if ltb id j
    then (id, content) ∷ (j, c) ∷ m
    else (j, c) ∷ write id content m

unfoldable pub remove : ℕ → Segments → Segments
remove id [] = []
remove id ((j, c) ∷ m) = if j == id then m else (j, c) ∷ remove id m

-- `OpenOptions::new().create(true).append(true)` and a write.
unfoldable pub append : ℕ → Bytes → Segments → Segments
unfolding write
append id bytes m = elim (lookup id m) [
  | none ↦ write id bytes m
  | some content ↦ write id (content ++ bytes) m
]

unfoldable pub segment_ids : Segments → List ℕ
segment_ids [] = []
segment_ids ((j, c) ∷ m) = j ∷ segment_ids m

-- The sum before its wrap-around at 64 bits, which stands where it is stored.
unfoldable pub total_segment_bytes : Segments → ℕ
total_segment_bytes [] = 0
total_segment_bytes ((j, c) ∷ m) = length c + total_segment_bytes m

-- Whether a quarantined file of this name is there.
unfoldable pub corrupt_exists : ℕ → ℕ → List (ℕ × ℕ × Bytes) → Bool
corrupt_exists id suffix [] = false
corrupt_exists id suffix ((j, n, c) ∷ m) =
    if j == id && n == suffix then true else corrupt_exists id suffix m

unfoldable pub min_of : List ℕ → Option ℕ
min_of [] = none
min_of (x ∷ xs) = elim (min_of xs) [ none ↦ some x | some y ↦ some (if ltb y x then y else x) ]

unfoldable pub max_of : List ℕ → Option ℕ
max_of [] = none
max_of (x ∷ xs) = elim (max_of xs) [ none ↦ some x | some y ↦ some (if ltb x y then y else x) ]

-- The ids above, and below, a bound.
unfoldable pub ids_above : ℕ → List ℕ → List ℕ
ids_above n [] = []
ids_above n (x ∷ xs) = if ltb n x then x ∷ ids_above n xs else ids_above n xs

unfoldable pub ids_below : ℕ → List ℕ → List ℕ
ids_below n [] = []
ids_below n (x ∷ xs) = if ltb x n then x ∷ ids_below n xs else ids_below n xs
