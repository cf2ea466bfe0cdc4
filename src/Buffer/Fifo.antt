-- ===== src/Buffer/Fifo.antt =====
-- The disk queue as a queue: every operation against a list of payloads.
use telemetry_fabric.Prelude.{
  ℕ, ◌+◌, ◌≤◌, ◌<◌, ◌^◌, ◌≡◌, refl, ap, ◌∙◌, List, [], ◌∷◌, ◌++◌, true, false, arith, length, inl,
  inr, Bool-cases,
}
use telemetry_fabric.Prelude.Words.{u32_max, u64_max}
use telemetry_fabric.Prelude.Result.{Result, ok, err}
use telemetry_fabric.Std.Bytes.{Bytes}
use telemetry_fabric.Buffer.Error.{DiskQueueError, payload_too_large}
use telemetry_fabric.Buffer.Queue.{
  DiskQueue, PendingBatch, Sink, append_record, must_rotate, storage_bytes_for_payload,
  enqueue_sized, enqueue, read_batch, commit_batch, drain_batch,
}
use telemetry_fabric.Buffer.Log.{Position, pending, Holds, IsPayload}
use telemetry_fabric.Buffer.Pushing.{push, pending-push}
use telemetry_fabric.Buffer.Rotating.{
  opened, pending-opened, rotated, rotate_segment-ok, rotated-Holds,
}
use telemetry_fabric.Buffer.Enqueueing.{record_len, append_record-Holds, queued-append_record}

-- A queue in order that holds these payloads.
abbrev pub Queues : DiskQueue → List Bytes → Type 0
Queues q ps = (p : Position) × Holds q p × (pending p ≡ ps)

pub record Enqueued (payload : Bytes) (q : DiskQueue) (ps : List Bytes)
    (after : Result DiskQueueError (Unit {0}) × DiskQueue) : Type 0 where
  pub accepted : after.0 ≡ ok tt
  pub queued : after.1.queued_bytes ≡ q.queued_bytes + record_len payload
  pub ids : after.1.active_segment_id ≤ q.active_segment_id + 1
  pub holds : Queues after.1 (ps ++ (payload ∷ []))

module _ (payload : Bytes) (q : DiskQueue) (fits : IsPayload payload)
    (room : q.queued_bytes + record_len payload < 2 ^ 64) where
  in_place :
      (p : Position)
      → Holds q p
      → Enqueued payload q (pending p) (append_record payload (record_len payload) q)
  in_place p h = record {
    accepted = unfold append_record in refl;
    queued = queued-append_record payload q p h fits room;
    ids = unfold append_record in omega arith;
    holds = (
      push payload p,
      append_record-Holds payload q p h fits room,
      pending-push payload p.left p.rest,
    );
  }

  enqueue-in_place :
      must_rotate q (record_len payload) ≡ false
      → enqueue payload q ≡ append_record payload (record_len payload) q
  unfolding enqueue enqueue_sized storage_bytes_for_payload
  enqueue-in_place e = ground arith

  enqueue-rotates :
      q.active_segment_id < u64_max
      → must_rotate q (record_len payload) ≡ true
      → enqueue payload q ≡ append_record payload (record_len payload) (rotated q)
  unfolding enqueue enqueue_sized storage_bytes_for_payload
  enqueue-rotates id e = ground (arith, rotate_segment-ok q id)

  after_rotation :
      (p : Position)
      → Holds q p
      → Enqueued payload q (pending p) (append_record payload (record_len payload) (rotated q))
  after_rotation p h =
      let h' : Holds (rotated q) (opened q p) = rotated-Holds q p h in
      let p' : Position = opened q p in
      record {
        accepted = unfold append_record in refl;
        queued = queued-append_record payload (rotated q) p' h' fits room;
        ids = unfold append_record in omega arith;
        holds = (
          push payload p',
          append_record-Holds payload (rotated q) p' h' fits room,
          pending-push payload p'.left p'.rest
              ∙ ap (λ (t : List Bytes). t ++ (payload ∷ [])) (pending-opened q p),
        );
      }

-- On a queue in order that has room and an id left for another segment, `enqueue` accepts a payload
-- of at most 2^32 - 1 bytes: it becomes the last pending payload, and `queued_bytes` grows by its
-- record.
pub enqueue-Enqueued :
    (payload : Bytes) (q : DiskQueue) (ps : List Bytes)
    → Queues q ps
    → IsPayload payload
    → q.queued_bytes + record_len payload < 2 ^ 64
    → q.active_segment_id < u64_max
    → Enqueued payload q ps (enqueue payload q)
enqueue-Enqueued payload q ps (p, h, e) fits room id =
    rw (← e) (elim (Bool-cases (must_rotate q (record_len payload))) [
      | inl full ↦
          rw (enqueue-rotates payload q fits room id full) (after_rotation payload q fits room p h)
      | inr room' ↦
          rw (enqueue-in_place payload q fits room room') (in_place payload q fits room p h)
    ])

-- A payload that is too large changes nothing.
pub enqueue_too_large :
    (payload : Bytes) (q : DiskQueue)
    → u32_max < length payload
    → enqueue payload q ≡ (err (payload_too_large (length payload)), q)
unfolding enqueue
enqueue_too_large payload q h = ground arith

module _ {T : Type 0} (n : ℕ) (sink : Sink (List Bytes) T) (q : DiskQueue) (t : T)
    (b : PendingBatch) (r : read_batch n q ≡ (ok b, q)) where
  pub drain_batch-nothing :
      b.payloads ≡ []
      → (commit_batch b q).0 ≡ ok (length b.payloads)
      → drain_batch n sink q t ≡ (ok 0, (commit_batch b q).1, t)
  unfolding drain_batch
  drain_batch-nothing e c = ground (arith, r)

  pub drain_batch-accepts :
      (x : Bytes) (xs : List Bytes) (t' : T)
      → b.payloads ≡ x ∷ xs
      → sink (x ∷ xs) t ≡ (ok tt, t')
      → drain_batch n sink q t ≡ ((commit_batch b q).0, (commit_batch b q).1, t')
  unfolding drain_batch
  drain_batch-accepts x xs t' e s = ground (arith, r)

  pub drain_batch-rejects :
      (x : Bytes) (xs : List Bytes) (t' : T) (error : DiskQueueError)
      → b.payloads ≡ x ∷ xs
      → sink (x ∷ xs) t ≡ (err error, t')
      → drain_batch n sink q t ≡ (err error, q, t')
  unfolding drain_batch
  drain_batch-rejects x xs t' error e s = ground (arith, r)
