-- ===== src/Agent/Runtime/Quota.antt =====
-- The byte quota of the queue.
use telemetry_fabric.Prelude.{ℕ, ◌+◌, ◌≤◌, ◌<◌, ◌≡◌, arith, length, inl, inr, Bool-cases, ltb}
use telemetry_fabric.Prelude.Words.{u64_max, u32_max, saturating_add_u64}
use telemetry_fabric.Prelude.Result.{Result, ok, err, Result-cases}
use telemetry_fabric.Std.Bytes.{Bytes}
use telemetry_fabric.Core.Telemetry.{TelemetryRecord, validate, encode}
use telemetry_fabric.Core.Error.{TelemetryError}
use telemetry_fabric.Buffer.Queue.{
  DiskQueue, enqueue, storage_bytes_for_payload, enqueue_sized, append_record, rotate_segment,
}
use telemetry_fabric.Agent.Runtime.{
  AgentRuntime, admit, admit_sized, admit_encoded, admit_valid, ingest_inner, ingest,
}

rotate_segment-queued_bytes : (q : DiskQueue) → (rotate_segment q).1.queued_bytes ≡ q.queued_bytes
unfolding rotate_segment
rotate_segment-queued_bytes q = ground arith

append_record-counts :
    (payload : Bytes) (n : ℕ) (q : DiskQueue)
    → (append_record payload n q).1.queued_bytes ≤ q.queued_bytes + n
unfolding append_record
append_record-counts payload n q = omega arith

enqueue_sized-counts :
    (payload : Bytes) (n : ℕ) (q : DiskQueue)
    → (enqueue_sized payload (ok n) q).1.queued_bytes ≤ q.queued_bytes + n
unfolding enqueue_sized
enqueue_sized-counts payload n q = ground (
  arith,
  rotate_segment-queued_bytes q,
  append_record-counts payload n q,
  append_record-counts payload n (rotate_segment q).1,
)

-- What `enqueue` adds to the count is at most the size that the quota was asked for.
enqueue-counts :
    (payload : Bytes) (n : ℕ) (q : DiskQueue)
    → storage_bytes_for_payload (length payload) ≡ ok n
    → (enqueue payload q).1.queued_bytes ≤ q.queued_bytes + n
unfolding enqueue
enqueue-counts payload n q h = elim (Bool-cases (ltb u32_max (length payload))) [
  | inl large ↦ rw large (omega arith)
  | inr small ↦ rw (small, h) (enqueue_sized-counts payload n q)
]

module _ {X : Type 0} (a : AgentRuntime X) (limit : a.config.limits.max_queue_bytes < u64_max)
    (below : a.queue.queued_bytes ≤ a.config.limits.max_queue_bytes) where
  admit-below :
      (encoded : Bytes) (n : ℕ)
      → storage_bytes_for_payload (length encoded) ≡ ok n
      → (admit encoded n a).1.queue.queued_bytes ≤ a.config.limits.max_queue_bytes
  unfolding admit
  admit-below encoded n h =
      elim (Bool-cases
        (ltb a.config.limits.max_queue_bytes (saturating_add_u64 a.queue.queued_bytes n))) [
          | inl full ↦ rw full below
          | inr room ↦ rw room (ground (arith, limit, enqueue-counts encoded n a.queue h))
        ]

  admit_sized-below :
      (encoded : Bytes)
      → (admit_sized encoded (storage_bytes_for_payload (length encoded)) a).1.queue.queued_bytes
        ≤ a.config.limits.max_queue_bytes
  unfolding admit_sized
  admit_sized-below encoded = elim (Result-cases (storage_bytes_for_payload (length encoded))) [
    | inl (n, h) ↦ rw h (admit-below encoded n h)
    | inr (e, h) ↦ rw h below
  ]

  admit_encoded-below :
      (r : Result TelemetryError Bytes)
      → (admit_encoded r a).1.queue.queued_bytes ≤ a.config.limits.max_queue_bytes
  unfolding admit_encoded
  admit_encoded-below (err e) = below
  admit_encoded-below (ok encoded) = admit_sized-below encoded

  admit_valid-below :
      (r : TelemetryRecord) (v : Result TelemetryError (Unit {0}))
      → (admit_valid r v a).1.queue.queued_bytes ≤ a.config.limits.max_queue_bytes
  unfolding admit_valid
  admit_valid-below r (err e) = below
  admit_valid-below r (ok u) = admit_encoded-below (encode r)

  -- Whatever the record is and whether or not it is taken, a queue within its quota stays within it.
  -- The quota is below the largest 64-bit number.
  pub ingest_quota :
      (r : TelemetryRecord) → (ingest r a).1.queue.queued_bytes ≤ a.config.limits.max_queue_bytes
  unfolding ingest ingest_inner
  ingest_quota r = admit_valid-below r (validate r a.config.limits.max_record_bytes)
