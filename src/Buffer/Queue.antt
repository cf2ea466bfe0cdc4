-- ===== src/Buffer/Queue.antt =====
-- `DiskQueue` and its methods.
use telemetry_fabric.Prelude.{
  ℕ, ◌%◌, ◌^◌, zero, suc, ◌+◌, ◌-◌, List, [], ◌∷◌, ◌++◌, Option, none, some, Bool, true, false,
  ◌&&◌, ◌||◌, ltb, leb, ◌==◌, if◌then◌else◌, length, take, drop, unwrap_or,
}
use telemetry_fabric.Prelude.Words.{u32_max, add_u64, checked_add_u64}
use telemetry_fabric.Prelude.Result.{Result, ok, err}
use telemetry_fabric.Prelude.Exec.{Exec}
use telemetry_fabric.Std.Bytes.{Bytes, from_le}
use telemetry_fabric.Std.Text.{text}
use Prim.Native.String.{String}
use telemetry_fabric.Std.Decimal.{decimal}
use telemetry_fabric.Buffer.Files.{
  Segments, Dir, lookup, write, remove, append, segment_ids, total_segment_bytes, corrupt_exists,
  min_of, max_of, ids_above, ids_below, segment_path,
}
use telemetry_fabric.Buffer.Frame.{record_header_len, checksum32, frame, read_at}
use telemetry_fabric.Buffer.Error.{DiskQueueError, corrupt_segment, payload_too_large, diverged}
use telemetry_fabric.Buffer.CursorFile.{Cursor, read_cursor, persist_cursor}

pub record DiskQueueOptions : Type 0 where
  pub max_segment_bytes : ℕ
  pub fsync_on_write : Bool

pub data ReadStep : Type 0 where
  record_read : Bytes → Cursor → ReadStep
  move : Cursor → ReadStep
  empty : ReadStep

pub record PendingBatch : Type 0 where
  pub payloads : List Bytes
  pub next_cursor : Cursor
  pub should_commit : Bool

pub record DiskQueue : Type 0 where
  pub dir : Dir
  pub options : DiskQueueOptions
  pub active_segment_id : ℕ
  pub active_segment_bytes : ℕ
  pub queued_bytes : ℕ
  pub cursor : Cursor

abbrev pub Method : Type 0 → Type 0
Method A = Exec DiskQueue DiskQueueError A

-- `?` on a method's result.
abbrev pub continue :
    {A B : Type 0}
    → Result DiskQueueError A × DiskQueue
    → (A → Method B)
    → Result DiskQueueError B × DiskQueue
continue (ok a, q) f = f a q
continue (err e, q) f = (err e, q)

infixl 5 ◌>>=◌ ◌>>◌
abbrev pub ◌>>=◌ : {A B : Type 0} → Method A → (A → Method B) → Method B
◌>>=◌ m f q = continue (m q) f

abbrev pub ◌>>◌ : {B : Type 0} → Method (Unit {0}) → Method B → Method B
m >> k = m >>= λ _. k

abbrev pub pure : {A : Type 0} → A → Method A
pure a q = (ok a, q)

abbrev pub with_segments : DiskQueue → Segments → DiskQueue
with_segments q segments = record q { dir = record q.dir { segments = segments } }

-- `if !active_path.exists() { File::create(&active_path)?; }`
ensure_file : ℕ → Segments → Segments
ensure_file id m = elim (lookup id m) [ none ↦ write id [] m | some content ↦ m ]

unfoldable pub new_queue : Dir → DiskQueueOptions → Cursor → DiskQueue
unfolding ensure_file
new_queue dir options cursor =
    let active = unwrap_or (max_of (segment_ids dir.segments)) 1 in
    let files = ensure_file active dir.segments in
    record {
      dir = persist_cursor (record dir { segments = files }) cursor;
      options = options;
      active_segment_id = active;
      active_segment_bytes = length (unwrap_or (lookup active files) []);
      queued_bytes = total_segment_bytes dir.segments % 2 ^ 64;
      cursor = cursor;
    }

-- Where reading begins when there is no cursor file.
unfoldable pub first_cursor : Segments → Cursor
first_cursor m =
    let ids = segment_ids m in
    record { segment_id = unwrap_or (min_of ids) (unwrap_or (max_of ids) 1); offset = 0 }

unfoldable pub open_queue : Dir → DiskQueueOptions → Result DiskQueueError DiskQueue
unfolding first_cursor new_queue
open_queue dir options = elim (read_cursor dir) [
  | err e ↦ err e
  | ok found ↦ ok (new_queue dir options (unwrap_or found (first_cursor dir.segments)))
]

unfoldable pub storage_bytes_for_payload : ℕ → Result DiskQueueError ℕ
storage_bytes_for_payload payload_len =
    if ltb u32_max payload_len
    then err (payload_too_large payload_len)
    else ok (record_header_len + payload_len)

-- `checked_add(1)` on a segment id.
next_id : Option ℕ → Result DiskQueueError ℕ
next_id (some id) = ok id
next_id none = err (corrupt_segment (text "segment id overflow"))

-- `File::create` makes the file empty.
activate : Result DiskQueueError ℕ → Method (Unit {0})
activate (err e) q = (err e, q)
activate (ok id) q = (
  ok tt,
  record q {
    dir = record q.dir { segments = write id [] q.dir.segments };
    active_segment_id = id;
    active_segment_bytes = 0;
  },
)

unfoldable pub rotate_segment : Method (Unit {0})
unfolding next_id activate
rotate_segment q = activate (next_id (checked_add_u64 q.active_segment_id 1)) q

-- The write and the counters.
unfoldable pub append_record : Bytes → ℕ → Method (Unit {0})
append_record payload record_len q = (
  ok tt,
  record q {
    dir = record q.dir { segments = append q.active_segment_id (frame payload) q.dir.segments };
    active_segment_bytes = add_u64 q.active_segment_bytes record_len;
    queued_bytes = add_u64 q.queued_bytes record_len;
  },
)

unfoldable pub must_rotate : DiskQueue → ℕ → Bool
must_rotate q record_len =
    ltb 0 q.active_segment_bytes
    && ltb q.options.max_segment_bytes (add_u64 q.active_segment_bytes record_len)

unfoldable pub enqueue_sized : Bytes → Result DiskQueueError ℕ → Method (Unit {0})
enqueue_sized payload (err e) q = (err e, q)
enqueue_sized payload (ok record_len) q = elim (must_rotate q record_len) [
  | true ↦ (rotate_segment >> append_record payload record_len) q
  | false ↦ append_record payload record_len q
]

unfoldable pub enqueue : Bytes → Method (Unit {0})
enqueue payload q =
    if ltb u32_max (length payload)
    then (err (payload_too_large (length payload)), q)
    else enqueue_sized payload (storage_bytes_for_payload (length payload)) q

unfoldable pub next_segment_after : DiskQueue → ℕ → Option ℕ
next_segment_after q current = min_of (ids_above current (segment_ids q.dir.segments))

step_to : Option ℕ → ReadStep
step_to none = empty
step_to (some id) = move (record { segment_id = id; offset = 0 })

-- `next_cursor_after(..).map_or(ReadStep::Empty, ReadStep::Move)`
unfoldable pub move_after : ℕ → DiskQueue → ReadStep
unfolding step_to
move_after current q = step_to (next_segment_after q current)

-- The first free number behind `.corrupt`, of the `rounds` that are left to try.
unfoldable pub free_suffix : ℕ → ℕ → ℕ → List (ℕ × ℕ × Bytes) → Option ℕ
free_suffix zero suffix id corrupt = none
free_suffix (suc rounds) suffix id corrupt =
    let more = free_suffix rounds (suffix + 1) id corrupt in
    if corrupt_exists id suffix corrupt then more else some suffix

set_aside : ℕ → Bytes → Bytes → Option ℕ → Method (Unit {0})
set_aside id reason content none q = (
  err (corrupt_segment (text "could not allocate quarantine path for " ++ segment_path q.dir id)),
  q,
)
set_aside id reason content (some suffix) q = (
  ok tt,
  record q {
    dir = record q.dir {
      segments = remove id q.dir.segments;
      corrupt = (id, suffix, content) ∷ q.dir.corrupt;
      reasons = (id, suffix, reason ++ (10 ∷ [])) ∷ q.dir.reasons;
    };
    queued_bytes = q.queued_bytes - length content;
  },
)

unfoldable pub quarantine_segment : ℕ → Bytes → Method (Unit {0})
unfolding set_aside
quarantine_segment id reason q = elim (lookup id q.dir.segments) [
  | none ↦ (ok tt, q)
  | some content ↦ set_aside id reason content (free_suffix 1000 0 id q.dir.corrupt) q
]

move_to_active : Method ReadStep
move_to_active q = (ok (move (record { segment_id = q.active_segment_id; offset = 0 })), q)

after_quarantine : ℕ → Method ReadStep
unfolding move_to_active next_id activate
after_quarantine id q = elim (leb q.active_segment_id id) [
  | true ↦ (activate (next_id (checked_add_u64 id 1)) >> move_to_active) q
  | false ↦ (ok (move_after id q), q)
]

unfoldable pub quarantine_and_advance : ℕ → Bytes → Method ReadStep
unfolding after_quarantine
quarantine_and_advance id reason = quarantine_segment id reason >> after_quarantine id

at_position : String → Cursor → Bytes
at_position what c = text what ++ (decimal c.segment_id ++ (text " at offset " ++ decimal c.offset))

-- The payload that was read, if it was there, against the checksum of the header.
check_payload : Cursor → ℕ → Option Bytes → Method ReadStep
unfolding at_position
check_payload c expected_checksum none q =
    quarantine_and_advance c.segment_id (at_position "truncated record in segment " c) q
check_payload c expected_checksum (some payload) q =
    elim (checksum32 payload == expected_checksum) [
      | true ↦ (
        ok (
            record_read payload (record c {
              offset = add_u64 (add_u64 c.offset record_header_len) (length payload);
            })),
        q,
      )
      | false ↦
          quarantine_and_advance c.segment_id (at_position "checksum mismatch in segment " c) q
    ]

read_body : Cursor → Bytes → Option Bytes → Method ReadStep
unfolding check_payload
read_body c content none q = elim (ltb c.segment_id q.active_segment_id) [
  | true ↦ (ok (move_after c.segment_id q), q)
  | false ↦ (ok empty, q)
]
read_body c content (some header) q =
    check_payload c (from_le (take 4 (drop 4 header)))
      (read_at content (c.offset + record_header_len) (from_le (take 4 header))) q

unfoldable pub read_step_at : Cursor → Method ReadStep
unfolding read_body
read_step_at c q = elim (lookup c.segment_id q.dir.segments) [
  | none ↦ (ok (move_after c.segment_id q), q)
  | some content ↦ read_body c content (read_at content c.offset record_header_len) q
]

unfoldable pub remove_listed : List ℕ → DiskQueue → DiskQueue
remove_listed [] q = q
remove_listed (id ∷ ids) q = remove_listed ids (elim (lookup id q.dir.segments) [
  | none ↦ q
  | some content ↦ record q {
    dir = record q.dir { segments = remove id q.dir.segments };
    queued_bytes = q.queued_bytes - length content;
  }
])

unfoldable pub remove_segments_before : ℕ → DiskQueue → DiskQueue
remove_segments_before id q = remove_listed (ids_below id (segment_ids q.dir.segments)) q

unfoldable pub save_cursor : DiskQueue → DiskQueue
save_cursor q = record q { dir = persist_cursor q.dir q.cursor }

unfoldable pub commit_cursor : Cursor → DiskQueue → DiskQueue
commit_cursor c q = save_cursor (remove_segments_before c.segment_id (record q { cursor = c }))

unfoldable pub commit_batch : PendingBatch → Method ℕ
commit_batch batch q =
    let len = length batch.payloads in
    elim (ltb 0 len || batch.should_commit) [
      | true ↦ (ok len, commit_cursor batch.next_cursor q)
      | false ↦ (ok len, q)
    ]

-- A round takes a record or moves on to another segment.
unfoldable pub read_fuel : ℕ → DiskQueue → ℕ
read_fuel max_items q = max_items + length q.dir.segments + 3

-- `while batch.len() < max_items`: `room` is what is missing. `read_cursor` and `final_cursor` of
-- the source are always the same, `c`.
unfoldable pub read_batch_loop : ℕ → ℕ → Cursor → Bool → List Bytes → Method PendingBatch
read_batch_loop zero room c should_commit batch q = (err diverged, q)
read_batch_loop (suc fuel) zero c should_commit batch q =
    (ok (record { payloads = batch; next_cursor = c; should_commit = should_commit }), q)
read_batch_loop (suc fuel) (suc room) c should_commit batch q =
    let (step, q') = read_step_at c q in
    elim step [
      | err e ↦ (err e, q')
      | ok (record_read payload c') ↦
          read_batch_loop fuel room c' should_commit (batch ++ (payload ∷ [])) q'
      | ok (move c') ↦ read_batch_loop fuel (suc room) c' true batch q'
      | ok empty ↦
          (ok (record { payloads = batch; next_cursor = c; should_commit = should_commit }), q')
    ]

unfoldable pub read_batch : ℕ → Method PendingBatch
read_batch zero q =
    (ok (record { payloads = []; next_cursor = q.cursor; should_commit = false }), q)
read_batch (suc n) q = read_batch_loop (read_fuel (suc n) q) (suc n) q.cursor false [] q

-- A sink: a closure over a state of its own.
abbrev pub Sink : Type 0 → Type 0 → Type 0
Sink A T = A → T → Result DiskQueueError (Unit {0}) × T

module _ {T : Type 0} where
  finish_batch :
      PendingBatch
      → DiskQueue
      → Result DiskQueueError (Unit {0}) × T
      → Result DiskQueueError ℕ × DiskQueue × T
  finish_batch batch q (err e, t) = (err e, q, t)
  finish_batch batch q (ok _, t) = let (r, q') = commit_batch batch q in (r, q', t)

  hand_over :
      Sink (List Bytes) T
      → T
      → Result DiskQueueError PendingBatch × DiskQueue
      → Result DiskQueueError ℕ × DiskQueue × T
  unfolding finish_batch
  hand_over sink t (err e, q) = (err e, q, t)
  hand_over sink t (ok batch, q) = elim batch.payloads [
    | [] ↦ let (r, q') = commit_batch batch q in (elim r [ err e ↦ err e | ok _ ↦ ok 0 ], q', t)
    | _ ↦ finish_batch batch q (sink batch.payloads t)
  ]

  unfoldable pub drain_batch :
      ℕ → Sink (List Bytes) T → DiskQueue → T → Result DiskQueueError ℕ × DiskQueue × T
  unfolding hand_over
  drain_batch max_items sink q t = hand_over sink t (read_batch max_items q)

  -- `while drained < max_items`: `room` is what is missing.
  unfoldable pub drain_loop :
      ℕ → ℕ → ℕ → Sink Bytes T → DiskQueue → T → Result DiskQueueError ℕ × DiskQueue × T
  drain_loop zero room drained sink q t = (err diverged, q, t)
  drain_loop (suc fuel) zero drained sink q t = (ok drained, q, t)
  drain_loop (suc fuel) (suc room) drained sink q t =
      let (step, q') = read_step_at q.cursor q in
      elim step [
        | err e ↦ (err e, q', t)
        | ok (record_read payload c) ↦
            let (r, t') = sink payload t in
            elim r [
              | err e ↦ (err e, q', t')
              | ok _ ↦ drain_loop fuel room (drained + 1) sink (commit_cursor c q') t'
            ]
        | ok (move c) ↦ drain_loop fuel (suc room) drained sink (commit_cursor c q') t
        | ok empty ↦ (ok drained, q', t)
      ]

  unfoldable pub drain : ℕ → Sink Bytes T → DiskQueue → T → Result DiskQueueError ℕ × DiskQueue × T
  unfolding drain_loop
  drain max_items sink q t = drain_loop (read_fuel max_items q) max_items 0 sink q t

unfoldable pub cursor_position : DiskQueue → ℕ × ℕ
cursor_position q = (q.cursor.segment_id, q.cursor.offset)
