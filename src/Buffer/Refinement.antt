-- ===== src/Buffer/Refinement.antt =====
-- The disk queue refines a queue in memory. A client enqueues payloads and drains batches; the sink
-- of a drain takes the whole batch or refuses it.
use telemetry_fabric.Prelude.{
  ℕ, ◌+◌, ◌≤◌, ◌<◌, ◌^◌, ◌≡◌, refl, sym, ap, ◌∙◌, List, [], ◌∷◌, ◌++◌, arith, length, take, drop,
  List-cases, inl, inr,
}
use telemetry_fabric.Prelude.Words.{u64_max}
use telemetry_fabric.Prelude.Result.{ok, err}
use telemetry_fabric.Std.Bytes.{Bytes}
use telemetry_fabric.Buffer.Error.{DiskQueueError}
use telemetry_fabric.Buffer.Queue.{
  DiskQueue, PendingBatch, Sink, enqueue, read_batch, commit_batch, drain_batch,
}
use telemetry_fabric.Buffer.Log.{IsPayload}
use telemetry_fabric.Buffer.Reading.{read_batch-IsBatch}
use telemetry_fabric.Buffer.Committing.{take-nil, commit_batch-Holds, commit_batch_counters}
use telemetry_fabric.Buffer.Enqueueing.{record_len}
use telemetry_fabric.Buffer.Fifo.{
  Queues, enqueue-Enqueued, drain_batch-nothing, drain_batch-accepts, drain_batch-rejects,
}
use mathlib.Core.List.{append-nil}

pub data Operation : Type 0 where
  put : Bytes → Operation
  deliver : ℕ → Operation
  refuse : ℕ → DiskQueueError → Operation

-- The queue in memory, and what has been delivered from it.
pub record ListQueue : Type 0 where
  pub delivered : List Bytes
  pub waiting : List Bytes

unfoldable pub list_step : Operation → ListQueue → ListQueue
list_step (put payload) s = record s { waiting = s.waiting ++ (payload ∷ []) }
list_step (deliver n) s = record {
  delivered = s.delivered ++ take n s.waiting;
  waiting = drop n s.waiting;
}
list_step (refuse n e) s = s

unfoldable pub list_run : List Operation → ListQueue → ListQueue
unfolding list_step
list_run [] s = s
list_run (op ∷ ops) s = list_run ops (list_step op s)

abbrev pub collect : Sink (List Bytes) (List Bytes)
collect payloads delivered = (ok tt, delivered ++ payloads)

abbrev pub refuse_with : DiskQueueError → Sink (List Bytes) (List Bytes)
refuse_with e payloads delivered = (err e, delivered)

unfoldable pub disk_step : Operation → DiskQueue × List Bytes → DiskQueue × List Bytes
disk_step (put payload) (q, t) = ((enqueue payload q).1, t)
disk_step (deliver n) (q, t) = let (r, q', t') = drain_batch n collect q t in (q', t')
disk_step (refuse n e) (q, t) = let (r, q', t') = drain_batch n (refuse_with e) q t in (q', t')

unfoldable pub disk_run : List Operation → DiskQueue × List Bytes → DiskQueue × List Bytes
unfolding disk_step
disk_run [] s = s
disk_run (op ∷ ops) s = disk_run ops (disk_step op s)

-- The payloads fit, the bytes of the records stay below 2^64 and the segment ids below the largest.
abbrev pub HasRoom : List Operation → ℕ → ℕ → Type 0
HasRoom [] bytes id = Unit {0}
HasRoom (put payload ∷ ops) bytes id =
    IsPayload payload
    × (bytes + record_len payload < 2 ^ 64)
    × (id < u64_max)
    × HasRoom ops (bytes + record_len payload) (id + 1)
HasRoom (deliver n ∷ ops) bytes id = HasRoom ops bytes id
HasRoom (refuse n e ∷ ops) bytes id = HasRoom ops bytes id

-- The disk queue holds what the list queue holds, within bounds on its counters.
pub record Agree (d : DiskQueue × List Bytes) (s : ListQueue) (bytes id : ℕ) : Type 0 where
  pub queues : Queues d.0 s.waiting
  pub delivered : d.1 ≡ s.delivered
  pub queued : d.0.queued_bytes ≤ bytes
  pub ids : d.0.active_segment_id ≤ id

put-Agree :
    (payload : Bytes) (q : DiskQueue) (t : List Bytes) (s : ListQueue) (bytes id : ℕ)
    → Agree (q, t) s bytes id
    → IsPayload payload
    → bytes + record_len payload < 2 ^ 64
    → id < u64_max
    → Agree
        (disk_step (put payload) (q, t))
        (list_step (put payload) s)
        (bytes + record_len payload)
        (id + 1)
unfolding disk_step list_step
put-Agree payload q t s bytes id a fits room ids =
    let e =
      enqueue-Enqueued payload q s.waiting a.queues fits (omega (arith, a.queued))
        (omega (arith, a.ids)) in
    record {
      queues = e.holds;
      delivered = a.delivered;
      queued = omega (arith, e.queued, a.queued);
      ids = omega (arith, e.ids, a.ids);
    }

-- A batch that was read, and the queue after its commit.
record Batched (n : ℕ) (q : DiskQueue) (ps : List Bytes) (bytes id : ℕ) (b : PendingBatch)
    : Type 0 where
  was_read : read_batch n q ≡ (ok b, q)
  payloads : b.payloads ≡ take n ps
  accepted : (commit_batch b q).0 ≡ ok (length b.payloads)
  queues : Queues (commit_batch b q).1 (drop n ps)
  queued : (commit_batch b q).1.queued_bytes ≤ bytes
  ids : (commit_batch b q).1.active_segment_id ≤ id

batch_lem :
    (n : ℕ) (q : DiskQueue) (ps : List Bytes) (bytes id : ℕ)
    → Queues q ps
    → q.queued_bytes ≤ bytes
    → q.active_segment_id ≤ id
    → (b : PendingBatch) × Batched n q ps bytes id b
batch_lem n q ps bytes id (p, h, e) hb hi =
    let (b, r, is) = read_batch-IsBatch q n p h.sees in
    let (accepted, (p', h', e')) = commit_batch-Holds q n p b h is in
    let (size, ids) = commit_batch_counters q n p b h is in
    (
      b,
      record {
        was_read = r;
        payloads = is.payloads ∙ ap (λ (t : List Bytes). take n t) e;
        accepted = accepted;
        queues = (p', h', e' ∙ ap (λ (t : List Bytes). drop n t) e);
        queued = omega (arith, size);
        ids = omega (arith, ids);
      },
    )

module _ (n : ℕ) (q : DiskQueue) (t : List Bytes) (s : ListQueue) (bytes id : ℕ)
    (a : Agree (q, t) s bytes id) where
  deliver-Agree : Agree (disk_step (deliver n) (q, t)) (list_step (deliver n) s) bytes id
  unfolding disk_step list_step
  deliver-Agree =
      let (b, f) = batch_lem n q s.waiting bytes id a.queues a.queued a.ids in
      elim (List-cases b.payloads) [
        | inl none_left ↦
            rw (drain_batch-nothing n collect q t b f.was_read none_left f.accepted) (record {
              queues = f.queues;
              delivered =
                  a.delivered
                  ∙ sym (append-nil s.delivered)
                  ∙ ap (λ (x : List Bytes). s.delivered ++ x) (sym none_left ∙ f.payloads);
              queued = f.queued;
              ids = f.ids;
            })
        | inr (x, xs, e) ↦
            rw (drain_batch-accepts n collect q t b f.was_read x xs (t ++ (x ∷ xs)) e refl)
              (record {
                queues = f.queues;
                delivered =
                    rw a.delivered (ap (λ (y : List Bytes). s.delivered ++ y) (sym e ∙ f.payloads));
                queued = f.queued;
                ids = f.ids;
              })
      ]

  refuse-Agree : (e : DiskQueueError) → Agree (disk_step (refuse n e) (q, t)) s bytes id
  unfolding disk_step
  refuse-Agree e =
      let (b, f) = batch_lem n q s.waiting bytes id a.queues a.queued a.ids in
      elim (List-cases b.payloads) [
        | inl none_left ↦
            rw (drain_batch-nothing n (refuse_with e) q t b f.was_read none_left f.accepted)
              (record {
                queues =
                    rw (take-nil n s.waiting (ap length (sym f.payloads ∙ none_left))) at f.queues;
                delivered = a.delivered;
                queued = f.queued;
                ids = f.ids;
              })
        | inr (x, xs, eq) ↦
            rw (drain_batch-rejects n (refuse_with e) q t b f.was_read x xs t e eq refl) a
      ]

-- A run of operations on a disk queue in order delivers the payloads that the list queue delivers,
-- in that order, and leaves a queue in order that holds the same payloads. A refused batch is not
-- lost. Every payload fits a record, and bytes and segment ids do not run out.
pub disk_run-list_run :
    (ops : List Operation) (q : DiskQueue) (t : List Bytes) (s : ListQueue) (bytes id : ℕ)
    → Agree (q, t) s bytes id
    → HasRoom ops bytes id
    → ((disk_run ops (q, t)).1 ≡ (list_run ops s).delivered)
      × Queues (disk_run ops (q, t)).0 (list_run ops s).waiting
unfolding disk_run list_run
disk_run-list_run [] q t s bytes id a room = (a.delivered, a.queues)
disk_run-list_run (put payload ∷ ops) q t s bytes id a room =
    disk_run-list_run ops (disk_step (put payload) (q, t)).0 (disk_step (put payload) (q, t)).1
      (list_step (put payload) s) (bytes + record_len payload) (id + 1)
      (put-Agree payload q t s bytes id a room.0 room.1 room.2) room.3
disk_run-list_run (deliver n ∷ ops) q t s bytes id a room =
    disk_run-list_run ops (disk_step (deliver n) (q, t)).0 (disk_step (deliver n) (q, t)).1
      (list_step (deliver n) s) bytes id (deliver-Agree n q t s bytes id a) room
disk_run-list_run (refuse n e ∷ ops) q t s bytes id a room =
    disk_run-list_run ops (disk_step (refuse n e) (q, t)).0 (disk_step (refuse n e) (q, t)).1 s
      bytes id (refuse-Agree n q t s bytes id a e) room
