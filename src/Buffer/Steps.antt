-- ===== src/Buffer/Steps.antt =====
-- `read_step_at` on files in order, in its three outcomes. None of them changes the queue.
use telemetry_fabric.Prelude.{
  ℕ, ◌+◌, ◌≤◌, ◌<◌, ◌^◌, ◌≡◌, refl, sym, ap, ◌∙◌, List, [], ◌∷◌, ◌++◌, none, some, arith, length,
  length-append,
}
use telemetry_fabric.Prelude.Words.{add_u64}
use telemetry_fabric.Prelude.Result.{ok}
use telemetry_fabric.Std.Bytes.{Bytes}
use telemetry_fabric.Buffer.Files.{Segments, lookup, total_segment_bytes}
use telemetry_fabric.Buffer.Frame.{record_header_len, frame, length-frame, read_at}
use telemetry_fabric.Buffer.CursorFile.{Cursor}
use telemetry_fabric.Buffer.Queue.{
  DiskQueue, record_read, move, empty, next_segment_after, move_after, read_step_at,
}
use telemetry_fabric.Buffer.ReadBack.{
  header-length, header-checksum, read_at-header, read_at-payload, read_at-end,
}
use telemetry_fabric.Buffer.Log.{frames, Logs, stored, Position, cursor_content, Sees, position}
use telemetry_fabric.Buffer.FileLaws.{
  lookup-middle, total-append, min_of-ids_above, last_id-le, Below-snoc,
}
use mathlib.Core.List.{append_assoc, append-nil}

pub frames-append : (xs ys : List Bytes) → frames (xs ++ ys) ≡ frames xs ++ frames ys
frames-append [] ys = refl
frames-append (x ∷ xs) ys =
    ap (λ t. frame x ++ t) (frames-append xs ys)
    ∙ sym (append_assoc (frame x) (frames xs) (frames ys))

-- The cursor behind a record.
abbrev pub behind : Cursor → Bytes → Cursor
behind c payload = record c { offset = c.offset + (record_header_len + length payload) }

module _ {q : DiskQueue} {c : Cursor} {p : Position} (s : Sees q c p) where
  pub lookup-cursor : lookup c.segment_id q.dir.segments ≡ some (cursor_content p)
  lookup-cursor =
      rw s.files (lookup-middle c.segment_id (cursor_content p) p.before (stored p.rest) s.older)

  total-ge : length (cursor_content p) ≤ total_segment_bytes q.dir.segments
  unfolding total_segment_bytes
  total-ge =
      rw s.files
        (omega (arith, total-append p.before ((c.segment_id, cursor_content p) ∷ stored p.rest)))

  content_fits : length (cursor_content p) < 2 ^ 64
  content_fits = omega (arith, total-ge, s.fits)

module _ {q : DiskQueue} {c : Cursor} (before : Segments) (consumed : List Bytes) (payload : Bytes)
    (left : List Bytes) (rest : Logs)
    (s : Sees q c (position before consumed (payload ∷ left) rest)) where
  content_size :
      length (frames consumed ++ (frame payload ++ frames left))
      ≡ c.offset + (record_header_len + length payload) + length (frames left)
  content_size = omega (
    arith,
    s.offset,
    length-append (frames consumed) (frame payload ++ frames left),
    length-append (frame payload) (frames left),
    length-frame payload,
  )

  no_wrap :
      add_u64 (add_u64 c.offset record_header_len) (length payload)
      ≡ c.offset + (record_header_len + length payload)
  no_wrap = omega (arith, content_size, content_fits s)

  -- A record that is there is read.
  pub read_step_at-record : read_step_at c q ≡ (ok (record_read payload (behind c payload)), q)
  unfolding read_step_at
  read_step_at-record =
      let content : Bytes = frames consumed ++ (frame payload ++ frames left) in
      rw (lookup-cursor s, read_step_at)
        (rw (read_at-header content (frames consumed) payload (frames left) c.offset refl s.offset)
          (rw
            (
              header-length payload s.payloads.0,
              read_at-payload content (frames consumed) payload (frames left) c.offset refl
                  s.offset,
              header-checksum payload,
            )
            (ground (arith, no_wrap))))

  -- The cursor behind it sees the files without it.
  pub record-Sees :
      Sees q (behind c payload) (position before (consumed ++ (payload ∷ [])) left rest)
  record-Sees = record {
    files = s.files ∙ ap (λ content. before ++ ((c.segment_id, content) ∷ stored rest)) regroup;
    offset = omega (
      arith,
      s.offset,
      ap length (frames-append consumed (payload ∷ [])),
      length-append (frames consumed) (frame payload ++ []),
      length-append (frame payload) [],
      length-frame payload,
    );
    older = s.older;
    ascending = s.ascending;
    payloads = s.payloads.1;
    active = s.active;
    fits = s.fits;
  }
    where
      regroup :
          frames consumed ++ (frame payload ++ frames left)
          ≡ frames (consumed ++ (payload ∷ [])) ++ frames left
      regroup = simp (frames-append, append_assoc, append-nil)

-- At the end of a segment the header cannot be read.
at_end :
    {q : DiskQueue} {c : Cursor} (before : Segments) (consumed : List Bytes) (rest : Logs)
    → Sees q c (position before consumed [] rest)
    → read_at (frames consumed ++ []) c.offset record_header_len ≡ none
at_end {q} {c} before consumed rest s =
    read_at-end (frames consumed ++ []) c.offset record_header_len
      (omega (arith, s.offset, length-append (frames consumed) []))

module _ {q : DiskQueue} {c : Cursor} (before : Segments) (consumed : List Bytes) (id : ℕ)
    (payloads : List Bytes) (rest : Logs)
    (s : Sees q c (position before consumed [] ((id, payloads) ∷ rest))) where
  next : next_segment_after q c.segment_id ≡ some id
  unfolding next_segment_after
  next = rw s.files (
      min_of-ids_above c.segment_id (frames consumed ++ []) before ((id, payloads) ∷ rest) s.older
        s.ascending)

  -- At the end of a segment that is not the last, reading goes on in the next one.
  pub read_step_at-move : read_step_at c q ≡ (ok (move (record { segment_id = id; offset = 0 })), q)
  unfolding read_step_at move_after
  read_step_at-move =
      let older : c.segment_id < q.active_segment_id =
        omega (arith, s.ascending.0, s.active, last_id-le id rest s.ascending.1) in
      rw (lookup-cursor s, read_step_at)
        (rw (at_end before consumed ((id, payloads) ∷ rest) s) (ground (arith, older, next)))

  pub move-Sees :
      Sees q
        (record { segment_id = id; offset = 0 })
        (position (before ++ ((c.segment_id, frames consumed ++ []) ∷ [])) [] payloads rest)
  move-Sees = record {
    files =
        s.files
        ∙ sym (
            append_assoc before ((c.segment_id, frames consumed ++ []) ∷ [])
              (stored ((id, payloads) ∷ rest)));
    offset = refl;
    older = Below-snoc c.segment_id id (frames consumed ++ []) before s.older s.ascending.0;
    ascending = s.ascending.1;
    payloads = s.payloads;
    active = s.active;
    fits = s.fits;
  }

-- At the end of the last segment there is nothing to read.
pub read_step_at-empty :
    {q : DiskQueue} {c : Cursor} (before : Segments) (consumed : List Bytes)
    → Sees q c (position before consumed [] [])
    → read_step_at c q ≡ (ok empty, q)
unfolding read_step_at
read_step_at-empty {q} {c} before consumed s =
    rw (lookup-cursor s, read_step_at) (rw (at_end before consumed [] s) (ground (arith, s.active)))
