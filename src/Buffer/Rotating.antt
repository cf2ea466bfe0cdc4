-- ===== src/Buffer/Rotating.antt =====
-- `rotate_segment` on a queue in order: one more segment, and nothing in it.
use telemetry_fabric.Prelude.{ℕ, ◌+◌, ◌<◌, ◌≡◌, refl, sym, ap, ◌∙◌, List, [], ◌∷◌, ◌++◌, arith}
use telemetry_fabric.Prelude.Words.{u64_max}
use telemetry_fabric.Prelude.Result.{ok}
use telemetry_fabric.Std.Bytes.{Bytes}
use telemetry_fabric.Buffer.Files.{Segments, write, total_segment_bytes}
use telemetry_fabric.Buffer.Queue.{DiskQueue, rotate_segment}
use telemetry_fabric.Buffer.Log.{
  frames, Logs, stored, Position, pending, all_payloads, cursor_content, Holds, IsAscending,
  last_id,
}
use telemetry_fabric.Buffer.FileLaws.{Below, Below-snoc, total-append, write-last, lookup-middle}
use mathlib.Core.List.{append_assoc}

Below-last :
    (id : ℕ) (content : Bytes) (before : Segments) (rest : Logs)
    → Below id before
    → IsAscending id rest
    → Below (last_id id rest + 1) (before ++ ((id, content) ∷ stored rest))
Below-last id content before [] h a = Below-snoc id (id + 1) content before h (omega arith)
Below-last id content before ((j, ps) ∷ rest) h a =
    rw (sym (append_assoc before ((id, content) ∷ []) (stored ((j, ps) ∷ rest)))) (
      Below-last j (frames ps) (before ++ ((id, content) ∷ [])) rest
        (Below-snoc id j content before h a.0) a.1)

module _ (k : ℕ) where
  -- An empty segment above the others.
  abbrev pub open_segment : Logs → Logs
  open_segment rest = rest ++ ((k, []) ∷ [])

  stored-open : (rest : Logs) → stored (open_segment rest) ≡ stored rest ++ ((k, []) ∷ [])
  stored-open [] = refl
  stored-open ((id, ps) ∷ rest) = ap (λ (m : Segments). (id, frames ps) ∷ m) (stored-open rest)

  payloads-open : (rest : Logs) → all_payloads (open_segment rest) ≡ all_payloads rest
  payloads-open [] = refl
  payloads-open ((id, ps) ∷ rest) = ap (λ (t : List Bytes). ps ++ t) (payloads-open rest)

  open-IsAscending :
      (n : ℕ) (rest : Logs)
      → IsAscending n rest
      → last_id n rest < k
      → IsAscending n (open_segment rest)
  open-IsAscending n [] h lt = (lt, tt)
  open-IsAscending n ((id, ps) ∷ rest) h lt = (h.0, open-IsAscending id rest h.1 lt)

  last_id-open : (n : ℕ) (rest : Logs) → last_id n (open_segment rest) ≡ k
  last_id-open n [] = refl
  last_id-open n ((id, ps) ∷ rest) = last_id-open id rest

abbrev pub opened : DiskQueue → Position → Position
opened q p = record p { rest = open_segment (q.active_segment_id + 1) p.rest }

pub pending-opened : (q : DiskQueue) (p : Position) → pending (opened q p) ≡ pending p
pending-opened q p =
    ap (λ (t : List Bytes). p.left ++ t) (payloads-open (q.active_segment_id + 1) p.rest)

abbrev pub rotated : DiskQueue → DiskQueue
rotated q = record q {
  dir = record q.dir { segments = write (q.active_segment_id + 1) [] q.dir.segments };
  active_segment_id = q.active_segment_id + 1;
  active_segment_bytes = 0;
}

pub rotate_segment-ok :
    (q : DiskQueue) → q.active_segment_id < u64_max → rotate_segment q ≡ (ok tt, rotated q)
unfolding rotate_segment
rotate_segment-ok q h = ground arith

module _ (q : DiskQueue) (p : Position) (h : Holds q p) where
  written :
      write (q.active_segment_id + 1) [] q.dir.segments
      ≡ q.dir.segments ++ ((q.active_segment_id + 1, []) ∷ [])
  written = write-last (q.active_segment_id + 1) [] q.dir.segments (
      rw (h.sees.files, h.sees.active)
        (Below-last q.cursor.segment_id (cursor_content p) p.before p.rest h.sees.older
          h.sees.ascending))

  under_all : Below (q.active_segment_id + 1) q.dir.segments
  under_all =
      (rw (h.sees.files, h.sees.active)
        (Below-last q.cursor.segment_id (cursor_content p) p.before p.rest h.sees.older
          h.sees.ascending))

  new_files :
      write (q.active_segment_id + 1) [] q.dir.segments
      ≡ p.before
        ++ ((q.cursor.segment_id, cursor_content p)
            ∷ stored (open_segment (q.active_segment_id + 1) p.rest))
  new_files =
      written
      ∙ rw (h.sees.files, stored-open (q.active_segment_id + 1) p.rest)
          (append_assoc p.before ((q.cursor.segment_id, cursor_content p) ∷ stored p.rest)
            ((q.active_segment_id + 1, []) ∷ []))

  same_total :
      total_segment_bytes (write (q.active_segment_id + 1) [] q.dir.segments)
      ≡ total_segment_bytes q.dir.segments
  unfolding total_segment_bytes
  same_total =
      rw written (omega (arith, total-append q.dir.segments ((q.active_segment_id + 1, []) ∷ [])))

  pub rotated-Holds : Holds (rotated q) (opened q p)
  rotated-Holds = record {
    sees = record {
      files = new_files;
      offset = h.sees.offset;
      older = h.sees.older;
      ascending =
          open-IsAscending (q.active_segment_id + 1) q.cursor.segment_id p.rest h.sees.ascending
            (omega (arith, h.sees.active));
      payloads = rw (pending-opened q p) h.sees.payloads;
      active = sym (last_id-open (q.active_segment_id + 1) q.cursor.segment_id p.rest);
      fits = omega (arith, same_total, h.sees.fits);
    };
    active_bytes =
        rw (written, lookup-middle (q.active_segment_id + 1) [] q.dir.segments [] under_all);
    queued = h.queued ∙ sym same_total;
  }
