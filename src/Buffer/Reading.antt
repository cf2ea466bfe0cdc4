-- ===== src/Buffer/Reading.antt =====
-- `read_batch` on a queue in order.
use telemetry_fabric.Prelude.{
  ℕ, zero, suc, ◌+◌, ◌≤◌, ◌<◌, ◌≡◌, refl, sym, ap, ◌∙◌, List, [], ◌∷◌, ◌++◌, Bool, true, false,
  arith, length, length-append, take, drop,
}
use telemetry_fabric.Prelude.Result.{ok}
use telemetry_fabric.Std.Bytes.{Bytes}
use telemetry_fabric.Buffer.Files.{Segments}
use telemetry_fabric.Buffer.CursorFile.{Cursor}
use telemetry_fabric.Buffer.Queue.{
  DiskQueue, PendingBatch, record_read, move, empty, read_step_at, read_batch_loop, read_batch,
  read_fuel,
}
use telemetry_fabric.Buffer.Log.{
  frames, Logs, stored, Position, position, pending, all_payloads, cursor_content, Sees,
}
use telemetry_fabric.Buffer.Steps.{
  behind, read_step_at-record, record-Sees, read_step_at-move, move-Sees, read_step_at-empty,
}
use mathlib.Core.List.{append_assoc, append-nil}

-- What a batch is: the first payloads, and a cursor that sees the others.
pub record IsBatch (q : DiskQueue) (n : ℕ) (batch : List Bytes) (ps : List Bytes) (b : PendingBatch)
    : Type 0 where
  pub payloads : b.payloads ≡ batch ++ take n ps
  pub after : (p : Position) × Sees q b.next_cursor p × (pending p ≡ drop n ps)

length-stored : (rest : Logs) → length (stored rest) ≡ length rest
length-stored [] = refl
length-stored ((id, ps) ∷ rest) = ap suc (length-stored rest)

rest-le : (q : DiskQueue) (p : Position) → Sees q q.cursor p → length p.rest ≤ length q.dir.segments
rest-le q p s = rw s.files (
    omega (
      arith,
      length-stored p.rest,
      length-append p.before ((q.cursor.segment_id, cursor_content p) ∷ stored p.rest),
    ))

-- One round of the loop, for each outcome of the step.
module _ (fuel n : ℕ) (c c' : Cursor) (moved : Bool) (batch : List Bytes) (payload : Bytes)
    (q q' : DiskQueue) where
  pub loop-record :
      read_step_at c q ≡ (ok (record_read payload c'), q')
      → read_batch_loop (suc fuel) (suc n) c moved batch q
        ≡ read_batch_loop fuel n c' moved (batch ++ (payload ∷ [])) q'
  unfolding read_batch_loop
  loop-record e = ground arith

module _ (fuel n : ℕ) (c c' : Cursor) (moved : Bool) (batch : List Bytes) (q q' : DiskQueue) where
  pub loop-move :
      read_step_at c q ≡ (ok (move c'), q')
      → read_batch_loop (suc fuel) (suc n) c moved batch q
        ≡ read_batch_loop fuel (suc n) c' true batch q'
  unfolding read_batch_loop
  loop-move e = ground arith

module _ (fuel n : ℕ) (c : Cursor) (moved : Bool) (batch : List Bytes) (q q' : DiskQueue) where
  pub loop-empty :
      read_step_at c q ≡ (ok empty, q')
      → read_batch_loop (suc fuel) (suc n) c moved batch q
        ≡ (ok (record { payloads = batch; next_cursor = c; should_commit = moved }), q')
  unfolding read_batch_loop
  loop-empty e = ground arith

-- The loop, in a form for induction: on the rounds, with a position in parts.
module _ (q : DiskQueue) where
  loop_lem :
      (fuel n : ℕ) (c : Cursor) (moved : Bool) (batch : List Bytes) (before : Segments)
      (consumed left : List Bytes) (rest : Logs)
      → Sees q c (position before consumed left rest)
      → n + length rest < fuel
      → (b : PendingBatch) × (read_batch_loop fuel n c moved batch q ≡ (ok b, q))
        × IsBatch q n batch (left ++ all_payloads rest) b
  loop_lem zero n c moved batch before consumed left rest s h = absurd (omega arith)
  loop_lem (suc fuel) zero c moved batch before consumed left rest s h = (
    record { payloads = batch; next_cursor = c; should_commit = moved },
    (unfold read_batch_loop in refl),
    record {
      payloads = sym (append-nil batch);
      after = (position before consumed left rest, s, refl);
    },
  )
  loop_lem (suc fuel) (suc n) c moved batch before consumed (payload ∷ left) rest s h =
      let (b, e, is) =
        loop_lem fuel n (behind c payload) moved (batch ++ (payload ∷ [])) before
          (consumed ++ (payload ∷ [])) left rest (record-Sees before consumed payload left rest s)
          (omega arith) in
      (
        b,
        loop-record fuel n c _ moved batch payload q q
              (read_step_at-record before consumed payload left rest s)
            ∙ e,
        record {
          payloads =
              is.payloads ∙ append_assoc batch (payload ∷ []) (take n (left ++ all_payloads rest));
          after = is.after;
        },
      )
  loop_lem (suc fuel) (suc n) c moved batch before consumed [] ((id, ps) ∷ rest) s h =
      let (b, e, is) =
        loop_lem fuel (suc n) (record { segment_id = id; offset = 0 }) true batch
          (before ++ ((c.segment_id, frames consumed ++ []) ∷ [])) [] ps rest
          (move-Sees before consumed id ps rest s) (omega arith) in
      (
        b,
        loop-move fuel n c _ moved batch q q (read_step_at-move before consumed id ps rest s) ∙ e,
        is,
      )
  loop_lem (suc fuel) (suc n) c moved batch before consumed [] [] s h = (
    record { payloads = batch; next_cursor = c; should_commit = moved },
    loop-empty fuel n c moved batch q q (read_step_at-empty before consumed s),
    record { payloads = sym (append-nil batch); after = (position before consumed [] [], s, refl) },
  )

-- A batch that is read is the oldest payloads, at most `n`, and its cursor sees the rest. The queue
-- is left as it was.
pub read_batch-IsBatch :
    (q : DiskQueue) (n : ℕ) (p : Position)
    → Sees q q.cursor p
    → (b : PendingBatch) × (read_batch n q ≡ (ok b, q)) × IsBatch q n [] (pending p) b
unfolding read_batch
read_batch-IsBatch q zero p s = (
  record { payloads = []; next_cursor = q.cursor; should_commit = false },
  refl,
  record { payloads = refl; after = (p, s, refl) },
)
read_batch-IsBatch q (suc n) p s =
    loop_lem q (read_fuel (suc n) q) (suc n) q.cursor false [] p.before p.consumed p.left p.rest s
      (unfold read_fuel in omega (arith, rest-le q p s))
