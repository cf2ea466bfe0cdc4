-- ===== src/Buffer/Enqueueing.antt =====
-- `enqueue` on a queue in order.
use telemetry_fabric.Prelude.{
  ℕ, ◌+◌, ◌≤◌, ◌<◌, ◌^◌, ◌≡◌, sym, ap, ◌∙◌, ◌∷◌, ◌++◌, arith, length, length-append, some,
}
use telemetry_fabric.Std.Bytes.{Bytes}
use telemetry_fabric.Buffer.Files.{append, lookup, total_segment_bytes}
use telemetry_fabric.Buffer.Frame.{record_header_len, frame, length-frame}
use telemetry_fabric.Buffer.Queue.{DiskQueue, append_record}
use telemetry_fabric.Buffer.Log.{
  frames, stored, Position, pending, cursor_content, Holds, IsPayload, last_content,
}
use telemetry_fabric.Buffer.FileLaws.{total-append, lookup-last}
use telemetry_fabric.Buffer.Committing.{active_size}
use telemetry_fabric.Buffer.Pushing.{
  push, push_left, push_rest, append-push, pending-push, push-IsAscending, last_id-push,
  length-last-push, total-push, push-payloads, last-le,
}

-- The bytes that a payload takes in a segment.
abbrev pub record_len : Bytes → ℕ
record_len payload = record_header_len + length payload

module _ (payload : Bytes) (q : DiskQueue) (p : Position) (h : Holds q p) (fits : IsPayload payload)
    (room : q.queued_bytes + record_len payload < 2 ^ 64) where
  appended :
      append q.active_segment_id (frame payload) q.dir.segments
      ≡ p.before
        ++ ((q.cursor.segment_id, cursor_content (push payload p))
            ∷ stored (push_rest payload p.rest))
  appended =
      rw (h.sees.files, h.sees.active)
        (append-push payload q.cursor.segment_id (frames p.consumed) p.left p.before p.rest
          h.sees.older h.sees.ascending)

  new_total :
      total_segment_bytes (append q.active_segment_id (frame payload) q.dir.segments)
      ≡ q.queued_bytes + record_len payload
  unfolding total_segment_bytes
  new_total = rw appended (
      omega (
        arith,
        h.queued,
        ap total_segment_bytes h.sees.files,
        total-append p.before (
            (q.cursor.segment_id, cursor_content (push payload p))
            ∷ stored (push_rest payload p.rest)),
        total-append p.before ((q.cursor.segment_id, cursor_content p) ∷ stored p.rest),
        length-append (frames p.consumed) (frames (push_left payload p.left p.rest)),
        length-append (frames p.consumed) (frames p.left),
        total-push payload p.left p.rest,
        length-frame payload,
      ))

  active_le : q.active_segment_bytes ≤ q.queued_bytes
  unfolding total_segment_bytes
  active_le = omega (
    arith,
    h.queued,
    ap total_segment_bytes h.sees.files,
    total-append p.before ((q.cursor.segment_id, cursor_content p) ∷ stored p.rest),
    last-le (cursor_content p) p.rest,
    active_size q q.cursor p p h h.sees,
  )

  new_last :
      lookup q.active_segment_id (append q.active_segment_id (frame payload) q.dir.segments)
      ≡ some (last_content (cursor_content (push payload p)) (push_rest payload p.rest))
  new_last =
      rw (appended, h.sees.active, sym (last_id-push payload q.cursor.segment_id p.rest))
        (lookup-last q.cursor.segment_id (cursor_content (push payload p)) p.before
          (push_rest payload p.rest) h.sees.older
          (push-IsAscending payload q.cursor.segment_id p.rest h.sees.ascending))

  -- A frame that is appended is the last pending payload.
  pub append_record-Holds : Holds (append_record payload (record_len payload) q).1 (push payload p)
  unfolding append_record
  append_record-Holds = record {
    sees = record {
      files = appended;
      offset = h.sees.offset;
      older = h.sees.older;
      ascending = push-IsAscending payload q.cursor.segment_id p.rest h.sees.ascending;
      payloads =
          rw (pending-push payload p.left p.rest)
            (push-payloads payload fits (pending p) h.sees.payloads);
      active = h.sees.active ∙ sym (last_id-push payload q.cursor.segment_id p.rest);
      fits = omega (arith, new_total, room);
    };
    active_bytes = rw new_last (
        omega (
          arith,
          active_le,
          room,
          active_size q q.cursor p p h h.sees,
          length-last-push payload (frames p.consumed) p.left p.rest,
          length-frame payload,
        ));
    queued = omega (arith, new_total, room);
  }

  pub queued-append_record :
      (append_record payload (record_len payload) q).1.queued_bytes
      ≡ q.queued_bytes + record_len payload
  unfolding append_record
  queued-append_record = omega (arith, room)
