-- ===== src/Buffer/Committing.antt =====
-- `commit_batch` on a queue in order: what was read is gone, the rest stays.
use telemetry_fabric.Prelude.{
  ℕ, zero, suc, ◌-◌, ◌≤◌, ◌<◌, ◌^◌, ◌≡◌, refl, sym, ap, ◌∙◌, List, [], ◌∷◌, ◌++◌, true, false, ◌||◌,
  arith, length, take, drop, inl, inr, Bool-cases, ltb, some,
}
use telemetry_fabric.Prelude.Result.{ok}
use telemetry_fabric.Std.Bytes.{Bytes}
use telemetry_fabric.Buffer.Files.{
  Segments, segment_ids, total_segment_bytes, ids_below, lookup, remove,
}
use telemetry_fabric.Buffer.CursorFile.{Cursor, persist_cursor}
use telemetry_fabric.Buffer.Queue.{
  DiskQueue, PendingBatch, remove_listed, remove_segments_before, save_cursor, commit_cursor,
  commit_batch,
}
use telemetry_fabric.Buffer.Log.{
  Logs, stored, Position, pending, cursor_content, Sees, Holds, IsAscending, last_content,
}
use telemetry_fabric.Buffer.FileLaws.{Below, lookup-last, segment_ids-append, total-append}
use mathlib.Core.List.{append-nil}
use telemetry_fabric.Buffer.Reading.{IsBatch}

-- The ids below the cursor's are those in front of it.
ids_below-front :
    (id : ℕ) (before : Segments) (xs : List ℕ)
    → Below id before
    → ids_below id (segment_ids before ++ xs) ≡ segment_ids before ++ ids_below id xs
unfolding ids_below segment_ids
ids_below-front id [] xs h = refl
ids_below-front id ((j, c) ∷ before) xs h = ground (arith, ids_below-front id before xs h.1)

ids_below-ascending :
    (id k : ℕ) (rest : Logs)
    → id ≤ k
    → IsAscending k rest
    → ids_below id (segment_ids (stored rest)) ≡ []
unfolding ids_below segment_ids
ids_below-ascending id k [] le h = refl
ids_below-ascending id k ((j, ps) ∷ rest) le h =
    ground (arith, ids_below-ascending id j rest (omega arith) h.1)

ids_below-here :
    (id : ℕ) (content : Bytes) (m : Segments)
    → ids_below id (segment_ids ((id, content) ∷ m)) ≡ ids_below id (segment_ids m)
unfolding ids_below segment_ids
ids_below-here id content m = ground arith

ids_below-cursor :
    (id : ℕ) (content : Bytes) (before : Segments) (rest : Logs)
    → Below id before
    → IsAscending id rest
    → ids_below id (segment_ids (before ++ ((id, content) ∷ stored rest))) ≡ segment_ids before
ids_below-cursor id content before rest h a =
    rw
      (
        segment_ids-append before ((id, content) ∷ stored rest),
        ids_below-front id before (segment_ids ((id, content) ∷ stored rest)) h,
        ids_below-here id content (stored rest),
        ids_below-ascending id id rest (omega arith) a,
      )
      (append-nil (segment_ids before))

-- Removing the files in front leaves the others, and their size.
remove_listed-front :
    (before m : Segments) (q : DiskQueue)
    → q.dir.segments ≡ before ++ m
    → q.queued_bytes ≡ total_segment_bytes q.dir.segments
    → remove_listed (segment_ids before) q
      ≡ record q { dir = record q.dir { segments = m }; queued_bytes = total_segment_bytes m }
unfolding remove_listed segment_ids total_segment_bytes
remove_listed-front [] m q e t = ground arith
remove_listed-front ((j, c) ∷ before) m q e t =
    let found : lookup j q.dir.segments ≡ some c = rw e (unfold lookup in ground arith) in
    let gone : remove j q.dir.segments ≡ before ++ m = rw e (unfold remove in ground arith) in
    let size : q.queued_bytes - length c ≡ total_segment_bytes (before ++ m) =
      omega (arith, t, ap total_segment_bytes e) in
    rw (found, remove_listed)
      (remove_listed-front before m
        (record q {
          dir = record q.dir { segments = remove j q.dir.segments };
          queued_bytes = q.queued_bytes - length c;
        })
        gone (size ∙ ap total_segment_bytes (sym gone)))

abbrev kept : Cursor → Position → Segments
kept c p = (c.segment_id, cursor_content p) ∷ stored p.rest

kept_fits :
    (q : DiskQueue) (c : Cursor) (p : Position)
    → Sees q c p
    → total_segment_bytes (kept c p) < 2 ^ 64
kept_fits q c p s =
    omega (arith, s.fits, total-append p.before (kept c p), ap total_segment_bytes s.files)

committed :
    (q : DiskQueue) (c : Cursor) (p p0 : Position)
    → Holds q p0
    → Sees q c p
    → remove_segments_before c.segment_id (record q { cursor = c }) ≡ record q {
      dir = record q.dir { segments = kept c p };
      queued_bytes = total_segment_bytes (kept c p);
      cursor = c;
    }
unfolding remove_segments_before
committed q c p p0 h s =
    let ids : ids_below c.segment_id (segment_ids q.dir.segments) ≡ segment_ids p.before =
      rw s.files
        (ids_below-cursor c.segment_id (cursor_content p) p.before p.rest s.older s.ascending) in
    rw ids (remove_listed-front p.before (kept c p) (record q { cursor = c }) s.files h.queued)

pub active_size :
    (q : DiskQueue) (c : Cursor) (p p0 : Position)
    → Holds q p0
    → Sees q c p
    → q.active_segment_bytes ≡ length (last_content (cursor_content p) p.rest)
active_size q c p p0 h s =
    let found : lookup q.active_segment_id q.dir.segments
        ≡ some (last_content (cursor_content p) p.rest) =
      rw (s.files, s.active)
        (lookup-last c.segment_id (cursor_content p) p.before p.rest s.older s.ascending) in
    rw found at h.active_bytes

-- Moving the cursor forward keeps the files from its segment on.
pub commit_cursor-Holds :
    (q : DiskQueue) (c : Cursor) (p p0 : Position)
    → Holds q p0
    → Sees q c p
    → Holds (commit_cursor c q) (record p { before = [] })
unfolding commit_cursor save_cursor persist_cursor
commit_cursor-Holds q c p p0 h s = rw (committed q c p p0 h s) (record {
  sees = record {
    files = refl;
    offset = s.offset;
    older = tt;
    ascending = s.ascending;
    payloads = s.payloads;
    active = s.active;
    fits = omega (arith, kept_fits q c p s);
  };
  active_bytes =
      rw (s.active, lookup-last c.segment_id (cursor_content p) [] p.rest tt s.ascending)
        (active_size q c p p0 h s);
  queued = refl;
})

pub take-nil : (n : ℕ) (ps : List Bytes) → length (take n ps) ≡ 0 → drop n ps ≡ ps
take-nil zero ps h = refl
take-nil (suc n) [] h = refl
take-nil (suc n) (p ∷ ps) h = absurd (omega arith)

nothing :
    (q : DiskQueue) (n : ℕ) (p0 : Position) (b : PendingBatch)
    → IsBatch q n [] (pending p0) b
    → (ltb 0 (length b.payloads) || b.should_commit) ≡ false
    → length (take n (pending p0)) ≡ 0
nothing q n p0 b is h = ground (arith, ap length is.payloads)

pub commit_batch-moves :
    (q : DiskQueue) (b : PendingBatch)
    → (ltb 0 (length b.payloads) || b.should_commit) ≡ true
    → commit_batch b q ≡ (ok (length b.payloads), commit_cursor b.next_cursor q)
unfolding commit_batch
commit_batch-moves q b h = ground arith

pub commit_batch-stays :
    (q : DiskQueue) (b : PendingBatch)
    → (ltb 0 (length b.payloads) || b.should_commit) ≡ false
    → commit_batch b q ≡ (ok (length b.payloads), q)
unfolding commit_batch
commit_batch-stays q b h = ground arith

-- After a batch of at most `n` payloads is committed, the queue is in order and holds the payloads
-- behind those, and the count that `commit_batch` returns is that of the batch.
pub commit_batch-Holds :
    (q : DiskQueue) (n : ℕ) (p0 : Position) (b : PendingBatch)
    → Holds q p0
    → IsBatch q n [] (pending p0) b
    → ((commit_batch b q).0 ≡ ok (length b.payloads))
      × ((p : Position) × Holds (commit_batch b q).1 p × (pending p ≡ drop n (pending p0)))
commit_batch-Holds q n p0 b h is =
    let (p, s, e) = is.after in
    elim (Bool-cases (ltb 0 (length b.payloads) || b.should_commit)) [
      | inl commits ↦
          rw (commit_batch-moves q b commits)
            (refl, (record p { before = [] }, commit_cursor-Holds q b.next_cursor p p0 h s, e))
      | inr stays ↦
          rw (commit_batch-stays q b stays)
            (refl, (p0, h, sym (take-nil n (pending p0) (nothing q n p0 b is stays))))
    ]

shrinks :
    (q : DiskQueue) (c : Cursor) (p p0 : Position)
    → Holds q p0
    → Sees q c p
    → (total_segment_bytes (kept c p) ≤ q.queued_bytes)
      × (q.active_segment_id ≡ q.active_segment_id)
shrinks q c p p0 h s = (
  omega (arith, h.queued, total-append p.before (kept c p), ap total_segment_bytes s.files),
  refl,
)

-- A commit makes no segment, and the queue does not grow.
pub commit_batch_counters :
    (q : DiskQueue) (n : ℕ) (p0 : Position) (b : PendingBatch)
    → Holds q p0
    → IsBatch q n [] (pending p0) b
    → ((commit_batch b q).1.queued_bytes ≤ q.queued_bytes)
      × ((commit_batch b q).1.active_segment_id ≡ q.active_segment_id)
unfolding commit_cursor save_cursor
commit_batch_counters q n p0 b h is =
    let (p, s, e) = is.after in
    elim (Bool-cases (ltb 0 (length b.payloads) || b.should_commit)) [
      | inl commits ↦
          rw (commit_batch-moves q b commits, committed q b.next_cursor p p0 h s)
            (shrinks q b.next_cursor p p0 h s)
      | inr stays ↦ rw (commit_batch-stays q b stays) (omega arith)
    ]
