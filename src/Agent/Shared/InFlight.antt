-- ===== src/Agent/Shared/InFlight.antt =====
-- A queue that is also seen from the cursor behind a batch that was read from it.
use mathlib.Core.List.{append_assoc}
use telemetry_fabric.Prelude.{
  ℕ, ◌+◌, ◌<◌, ◌^◌, ◌≡◌, refl, sym, ap, ◌∙◌, inl, inr, List, [], ◌∷◌, ◌++◌, false, ◌||◌, ltb,
  length, take, drop, take-append-drop, Bool-cases, List-cases, arith, subst,
}
use telemetry_fabric.Prelude.Words.{u64_max}
use telemetry_fabric.Prelude.Result.{Result, ok, err}
use telemetry_fabric.Std.Bytes.{Bytes}
use telemetry_fabric.Buffer.Error.{DiskQueueError}
use telemetry_fabric.Buffer.CursorFile.{Cursor}
use telemetry_fabric.Buffer.Queue.{
  DiskQueue, PendingBatch, enqueue, enqueue_sized, storage_bytes_for_payload, rotate_segment,
  append_record, must_rotate, read_batch, commit_batch,
}
use telemetry_fabric.Buffer.Log.{Position, Sees, IsPayload}
use telemetry_fabric.Buffer.Reading.{read_batch-IsBatch}
use telemetry_fabric.Buffer.Committing.{commit_cursor-Holds, commit_batch-moves, commit_batch-stays}
use telemetry_fabric.Buffer.Enqueueing.{record_len}
use telemetry_fabric.Buffer.Fifo.{Queues, enqueue-Enqueued}

abbrev pub at_cursor : Cursor → DiskQueue → DiskQueue
at_cursor c q = record q { cursor = c }

-- What `Sees` says does not depend on the queue's own cursor.
Sees-at_cursor : (q : DiskQueue) (c : Cursor) (p : Position) → Sees q c p → Sees (at_cursor c q) c p
Sees-at_cursor q c p s = record {
  files = s.files;
  offset = s.offset;
  older = s.older;
  ascending = s.ascending;
  payloads = s.payloads;
  active = s.active;
  fits = s.fits;
}

at_cursor-Sees : (q : DiskQueue) (c : Cursor) (p : Position) → Sees (at_cursor c q) c p → Sees q c p
at_cursor-Sees q c p s = record {
  files = s.files;
  offset = s.offset;
  older = s.older;
  ascending = s.ascending;
  payloads = s.payloads;
  active = s.active;
  fits = s.fits;
}

-- The batch stands in front of what waits behind it, and its cursor sees that.
pub record Flying (q : DiskQueue) (ps : List Bytes) (b : PendingBatch) : Type 0 where
  pub rest : List Bytes
  pub waiting : ps ≡ b.payloads ++ rest
  pub behind : Queues (at_cursor b.next_cursor q) rest

pub read_batch-Flying :
    (n : ℕ) (q : DiskQueue) (ps : List Bytes)
    → Queues q ps
    → (b : PendingBatch) × (read_batch n q ≡ (ok b, q)) × Flying q ps b
read_batch-Flying n q ps (p, h, e) =
    let (b, r, is) = read_batch-IsBatch q n p h.sees in
    let (p', s, d) = is.after in
    (
      b,
      r,
      record {
        rest = drop n ps;
        waiting =
            sym (take-append-drop n ps)
            ∙ ap (λ (t : List Bytes). t ++ drop n ps) (sym (is.payloads ∙ ap (take n) e));
        behind = (
          p',
          record {
            sees = Sees-at_cursor q b.next_cursor p' s;
            active_bytes = h.active_bytes;
            queued = h.queued;
          },
          d ∙ ap (drop n) e,
        );
      },
    )

no_payloads :
    (b : PendingBatch) → (ltb 0 (length b.payloads) || b.should_commit) ≡ false → b.payloads ≡ []
no_payloads b h = elim (List-cases b.payloads) [
  | inl e ↦ e
  | inr (x, xs, e) ↦ absurd (ground (arith, ap length e))
]

-- The commit of such a batch takes it out of the queue.
pub commit_batch-Queues :
    (q : DiskQueue) (ps : List Bytes) (b : PendingBatch)
    → Queues q ps
    → (f : Flying q ps b)
    → ((commit_batch b q).0 ≡ ok (length b.payloads)) × Queues (commit_batch b q).1 f.rest
commit_batch-Queues q ps b (p, h, e) f =
    let (p', h', e') = f.behind in
    elim (Bool-cases (ltb 0 (length b.payloads) || b.should_commit)) [
      | inl moves ↦ rw (commit_batch-moves q b moves) (
        refl,
        (
          record p' { before = [] },
          commit_cursor-Holds q b.next_cursor p' p h (at_cursor-Sees q b.next_cursor p' h'.sees),
          e',
        ),
      )
      | inr stays ↦
          rw (commit_batch-stays q b stays) (
            refl,
            (p, h, e ∙ f.waiting ∙ ap (λ (t : List Bytes). t ++ f.rest) (no_payloads b stays)),
          )
    ]

rotate_segment-at_cursor :
    (c : Cursor) (q : DiskQueue)
    → rotate_segment (at_cursor c q) ≡ ((rotate_segment q).0, at_cursor c (rotate_segment q).1)
unfolding rotate_segment
rotate_segment-at_cursor c q = ground arith

enqueue_sized-at_cursor :
    (c : Cursor) (payload : Bytes) (n : Result DiskQueueError ℕ) (q : DiskQueue)
    → enqueue_sized payload n (at_cursor c q)
      ≡ ((enqueue_sized payload n q).0, at_cursor c (enqueue_sized payload n q).1)
unfolding enqueue_sized append_record must_rotate
enqueue_sized-at_cursor c payload (err e) q = refl
enqueue_sized-at_cursor c payload (ok n) q = ground (arith, rotate_segment-at_cursor c q)

-- Enqueueing does not look at the cursor.
enqueue-at_cursor :
    (c : Cursor) (payload : Bytes) (q : DiskQueue)
    → enqueue payload (at_cursor c q) ≡ ((enqueue payload q).0, at_cursor c (enqueue payload q).1)
unfolding enqueue
enqueue-at_cursor c payload q =
    ground (arith, enqueue_sized-at_cursor c payload (storage_bytes_for_payload (length payload)) q)

-- A payload that is enqueued waits behind all else, also seen from the other cursor.
pub enqueue-Flying :
    (payload : Bytes) (q : DiskQueue) (ps : List Bytes) (b : PendingBatch)
    → IsPayload payload
    → q.queued_bytes + record_len payload < 2 ^ 64
    → q.active_segment_id < u64_max
    → Flying q ps b
    → Flying (enqueue payload q).1 (ps ++ (payload ∷ [])) b
enqueue-Flying payload q ps b fits room id f = record {
  rest = f.rest ++ (payload ∷ []);
  waiting =
      ap (λ (t : List Bytes). t ++ (payload ∷ [])) f.waiting
      ∙ append_assoc b.payloads f.rest (payload ∷ []);
  behind =
      subst
        (λ (r : Result DiskQueueError (Unit {0}) × DiskQueue).
          Queues r.1 (f.rest ++ (payload ∷ [])))
        (enqueue-at_cursor b.next_cursor payload q)
        (enqueue-Enqueued payload (at_cursor b.next_cursor q) f.rest f.behind fits room id).holds;
}
