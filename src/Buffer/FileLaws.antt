-- ===== src/Buffer/FileLaws.antt =====
-- Laws of the segment files, around one segment with smaller ids in front of it.
use telemetry_fabric.Prelude.{
  ℕ, ◌+◌, ◌≤◌, ◌<◌, ◌≡◌, refl, ap, List, [], ◌∷◌, ◌++◌, Option, none, some, arith, All, sym,
}
use telemetry_fabric.Std.Bytes.{Bytes}
use telemetry_fabric.Buffer.Files.{
  Segments, lookup, write, append, segment_ids, total_segment_bytes, min_of, ids_above,
}
use telemetry_fabric.Buffer.Log.{Logs, stored, IsAscending, last_id, last_content, frames}
use mathlib.Core.List.{append_assoc}

abbrev pub Below : ℕ → Segments → Type 0
Below n m = All (λ (file : ℕ × Bytes). file.0 < n) m

pub lookup-middle :
    (id : ℕ) (content : Bytes) (before after : Segments)
    → Below id before
    → lookup id (before ++ ((id, content) ∷ after)) ≡ some content
unfolding lookup
lookup-middle id content [] after h = ground arith
lookup-middle id content ((j, c) ∷ before) after h =
    ground (arith, lookup-middle id content before after h.1)

pub write-middle :
    (id : ℕ) (content new : Bytes) (before after : Segments)
    → Below id before
    → write id new (before ++ ((id, content) ∷ after)) ≡ before ++ ((id, new) ∷ after)
unfolding write
write-middle id content new [] after h = ground arith
write-middle id content new ((j, c) ∷ before) after h =
    ground (arith, write-middle id content new before after h.1)

pub append-middle :
    (id : ℕ) (content more : Bytes) (before after : Segments)
    → Below id before
    → append id more (before ++ ((id, content) ∷ after)) ≡ before ++ ((id, content ++ more) ∷ after)
unfolding append
append-middle id content more before after h =
    rw (lookup-middle id content before after h, append)
      (write-middle id content (content ++ more) before after h)

pub write-last :
    (id : ℕ) (content : Bytes) (m : Segments)
    → Below id m
    → write id content m ≡ m ++ ((id, content) ∷ [])
unfolding write
write-last id content [] h = refl
write-last id content ((j, c) ∷ m) h = ground (arith, write-last id content m h.1)

pub total-append :
    (m n : Segments) → total_segment_bytes (m ++ n) ≡ total_segment_bytes m + total_segment_bytes n
unfolding total_segment_bytes
total-append [] n = omega arith
total-append ((j, c) ∷ m) n = omega (arith, total-append m n)

pub segment_ids-append : (m n : Segments) → segment_ids (m ++ n) ≡ segment_ids m ++ segment_ids n
unfolding segment_ids
segment_ids-append [] n = refl
segment_ids-append ((j, c) ∷ m) n = ap (λ t. j ∷ t) (segment_ids-append m n)

ids_above-Below :
    (n : ℕ) (m : Segments) (xs : List ℕ)
    → Below (n + 1) m
    → ids_above n (segment_ids m ++ xs) ≡ ids_above n xs
unfolding ids_above segment_ids
ids_above-Below n [] xs h = refl
ids_above-Below n ((j, c) ∷ m) xs h = ground (arith, ids_above-Below n m xs h.1)

Below-suc : (n : ℕ) (m : Segments) → Below n m → Below (n + 1) m
Below-suc n [] h = tt
Below-suc n ((j, c) ∷ m) h = (omega arith, Below-suc n m h.1)

-- The smallest id of ascending logs is the first.
min_of-ascending :
    (id : ℕ) (ps : List Bytes) (rest : Logs)
    → IsAscending id rest
    → min_of (segment_ids (stored ((id, ps) ∷ rest))) ≡ some id
unfolding min_of segment_ids
min_of-ascending id ps [] h = refl
min_of-ascending id ps ((j, qs) ∷ rest) h = ground (arith, min_of-ascending j qs rest h.1)

ids_above-ascending :
    (n k : ℕ) (rest : Logs)
    → n ≤ k
    → IsAscending k rest
    → ids_above n (segment_ids (stored rest)) ≡ segment_ids (stored rest)
unfolding ids_above segment_ids
ids_above-ascending n k [] le h = refl
ids_above-ascending n k ((j, qs) ∷ rest) le h =
    ground (arith, ids_above-ascending n j rest (omega arith) h.1)

ids_above_here :
    (id : ℕ) (content : Bytes) (m : Segments)
    → ids_above id (segment_ids ((id, content) ∷ m)) ≡ ids_above id (segment_ids m)
unfolding ids_above segment_ids
ids_above_here id content m = ground arith

abbrev pub next_id_of : Logs → Option ℕ
next_id_of [] = none
next_id_of ((j, qs) ∷ rest) = some j

-- The next segment is the first one behind the cursor's.
pub min_of-ids_above :
    (id : ℕ) (content : Bytes) (before : Segments) (rest : Logs)
    → Below id before
    → IsAscending id rest
    → min_of (ids_above id (segment_ids (before ++ ((id, content) ∷ stored rest))))
      ≡ next_id_of rest
min_of-ids_above id content before [] h a =
    rw
      (
        segment_ids-append before ((id, content) ∷ []),
        ids_above-Below id before (segment_ids ((id, content) ∷ [])) (Below-suc id before h),
      )
      (unfold segment_ids ids_above min_of in ground arith)
min_of-ids_above id content before ((j, ps) ∷ rest) h a =
    rw
      (
        segment_ids-append before ((id, content) ∷ stored ((j, ps) ∷ rest)),
        ids_above-Below id before (segment_ids ((id, content) ∷ stored ((j, ps) ∷ rest)))
            (Below-suc id before h),
      )
      (ground (
        arith,
        ids_above_here id content (stored ((j, ps) ∷ rest)),
        ids_above-ascending id id ((j, ps) ∷ rest) (omega arith) a,
        min_of-ascending j ps rest a.1,
      ))

pub last_id-le : (n : ℕ) (rest : Logs) → IsAscending n rest → n ≤ last_id n rest
last_id-le n [] h = omega arith
last_id-le n ((j, ps) ∷ rest) h = omega (arith, last_id-le j rest h.1)

pub Below-snoc :
    (n k : ℕ) (content : Bytes) (m : Segments)
    → Below n m
    → n < k
    → Below k (m ++ ((n, content) ∷ []))
Below-snoc n k content [] h lt = (lt, tt)
Below-snoc n k content ((j, c) ∷ m) h lt = (omega arith, Below-snoc n k content m h.1 lt)

-- The content of the last segment.
pub lookup-last :
    (id : ℕ) (content : Bytes) (before : Segments) (rest : Logs)
    → Below id before
    → IsAscending id rest
    → lookup (last_id id rest) (before ++ ((id, content) ∷ stored rest))
      ≡ some (last_content content rest)
lookup-last id content before [] h a = lookup-middle id content before [] h
lookup-last id content before ((j, ps) ∷ rest) h a =
    rw (sym (append_assoc before ((id, content) ∷ []) (stored ((j, ps) ∷ rest)))) (
      lookup-last j (frames ps) (before ++ ((id, content) ∷ [])) rest
        (Below-snoc id j content before h a.0) a.1)
