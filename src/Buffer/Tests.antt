-- ===== src/Buffer/Tests.antt =====
-- Concrete runs of the queue, and its theorems at concrete inputs.
use telemetry_fabric.Prelude.{
  length, drop, some, ◌≡◌, refl, List, [], ◌∷◌, ◌++◌, none, false, arith,
}
use telemetry_fabric.Prelude.Result.{ok}
use telemetry_fabric.Std.Bytes.{Bytes, le_bytes, from_le}
use telemetry_fabric.Buffer.Frame.{frame, checksum32, read_at}
use telemetry_fabric.Buffer.Error.{diverged}
use telemetry_fabric.Buffer.Files.{
  Dir, lookup, total_segment_bytes, segment_ids, ids_below, ids_above, min_of, write, remove,
  append,
}
use telemetry_fabric.Buffer.CursorFile.{Cursor, persist_cursor, read_cursor}
use telemetry_fabric.Buffer.CursorText.{read_cursor-persist_cursor}
use telemetry_fabric.Buffer.Queue.{
  DiskQueue, PendingBatch, commit_batch, enqueue, read_batch, drain, read_fuel, enqueue_sized,
  must_rotate, append_record, rotate_segment, storage_bytes_for_payload, read_step_at,
  commit_cursor, remove_segments_before, remove_listed, save_cursor, move_after, next_segment_after,
}
use telemetry_fabric.Buffer.Log.{Position, position, pending, Holds}
use telemetry_fabric.Buffer.Committing.{commit_batch-Holds}
use telemetry_fabric.Buffer.Reading.{IsBatch, read_batch-IsBatch}
use telemetry_fabric.Buffer.Fifo.{Queues, Enqueued, enqueue-Enqueued}
use telemetry_fabric.Buffer.Refinement.{
  Operation, put, deliver, refuse, list_run, disk_run, Agree, disk_run-list_run,
}

-- A directory with one empty segment, and the queue over it; a second record rotates.
abbrev one_file : Dir
one_file = record {
  path = 113 ∷ [];
  segments = (1, []) ∷ [];
  corrupt = [];
  reasons = [];
  cursor_file = none;
  cursor_tmp = none;
}

abbrev start : Cursor
start = record { segment_id = 1; offset = 0 }

abbrev fresh : DiskQueue
fresh = record {
  dir = one_file;
  options = record { max_segment_bytes = 16; fsync_on_write = false };
  active_segment_id = 1;
  active_segment_bytes = 0;
  queued_bytes = 0;
  cursor = start;
}

abbrev one : Bytes
one = 111 ∷ 110 ∷ 101 ∷ []

abbrev two : Bytes
two = 116 ∷ 119 ∷ 111 ∷ []

abbrev nothing_read : Position
nothing_read = position [] [] [] []

fresh-Holds : Holds fresh nothing_read
unfolding lookup total_segment_bytes
fresh-Holds = record {
  sees = record {
    files = refl;
    offset = refl;
    older = tt;
    ascending = tt;
    payloads = tt;
    active = refl;
    fits = omega arith;
  };
  active_bytes = refl;
  queued = refl;
}

fresh-Queues : Queues fresh []
fresh-Queues = (nothing_read, fresh-Holds, refl)

-- Both records are drained, and the first segment is removed.
drain-two :
    let (r, q, t) =
      drain 10 (λ p t. (ok tt, t ++ (p ∷ []))) (enqueue two (enqueue one fresh).1).1 [] in
    (r ≡ ok 2) × (t ≡ one ∷ two ∷ []) × (q.queued_bytes ≡ 11)
unfolding drain read_fuel enqueue enqueue_sized must_rotate append_record rotate_segment
    storage_bytes_for_payload read_step_at commit_cursor remove_segments_before remove_listed
    save_cursor persist_cursor segment_ids ids_below ids_above min_of move_after next_segment_after
    lookup write remove append frame checksum32 read_at from_le le_bytes
drain-two = (refl, refl, refl)

enqueue-Enqueued_example : Enqueued one fresh [] (enqueue one fresh)
enqueue-Enqueued_example =
    enqueue-Enqueued one fresh [] fresh-Queues (omega arith) (omega arith) (omega arith)

-- A queue with one record, and where it stands.
abbrev filled : DiskQueue
filled = (enqueue one fresh).1

filled-Queues : Queues filled (one ∷ [])
filled-Queues =
    (enqueue-Enqueued one fresh [] fresh-Queues (omega arith) (omega arith) (omega arith)).holds

abbrev at_one : Position
at_one = filled-Queues.0

at_one-Holds : Holds filled at_one
at_one-Holds = filled-Queues.1

read_batch-IsBatch_example :
    (b : PendingBatch) × (read_batch 2 filled ≡ (ok b, filled))
    × IsBatch filled 2 [] (pending at_one) b
read_batch-IsBatch_example = read_batch-IsBatch filled 2 at_one at_one-Holds.sees

-- The first delivery is refused, the second takes one record, the third the other.
abbrev script : List Operation
script = put one ∷ put two ∷ refuse 2 diverged ∷ deliver 1 ∷ deliver 5 ∷ []

empty-Agree : Agree (fresh, []) (record { delivered = []; waiting = [] }) 0 1
empty-Agree = record {
  queues = fresh-Queues;
  delivered = refl;
  queued = omega arith;
  ids = omega arith;
}

disk_run-list_run_example :
    ((disk_run script (fresh, [])).1
      ≡ (list_run script (record { delivered = []; waiting = [] })).delivered)
    × Queues
        (disk_run script (fresh, [])).0
        (list_run script (record { delivered = []; waiting = [] })).waiting
disk_run-list_run_example =
    disk_run-list_run script fresh [] (record { delivered = []; waiting = [] }) 0 1 empty-Agree
      (omega arith)

list_run_example :
    (list_run script (record { delivered = []; waiting = [] })).delivered ≡ one ∷ two ∷ []
unfolding list_run
list_run_example = refl

-- The batch that is read from it.
abbrev filled_batch : PendingBatch
filled_batch = (read_batch-IsBatch filled 2 at_one at_one-Holds.sees).0

commit_batch-Holds_example :
    ((commit_batch filled_batch filled).0 ≡ ok (length filled_batch.payloads))
    × ((p : Position) × Holds (commit_batch filled_batch filled).1 p
        × (pending p ≡ drop 2 (pending at_one)))
commit_batch-Holds_example =
    commit_batch-Holds filled 2 at_one filled_batch at_one-Holds
      (read_batch-IsBatch filled 2 at_one at_one-Holds.sees).2

abbrev far : Cursor
far = record { segment_id = 7; offset = 42 }

read_cursor-persist_cursor_example : read_cursor (persist_cursor one_file far) ≡ ok (some far)
read_cursor-persist_cursor_example =
    read_cursor-persist_cursor one_file far (omega arith) (omega arith)
