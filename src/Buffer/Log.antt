-- ===== src/Buffer/Log.antt =====
-- What the files of a queue hold: the payloads, in front of a cursor and behind it.
use telemetry_fabric.Prelude.{ℕ, ◌≤◌, ◌<◌, ◌^◌, ◌≡◌, List, [], ◌∷◌, ◌++◌, length, All, unwrap_or}
use telemetry_fabric.Prelude.Words.{u32_max}
use telemetry_fabric.Std.Bytes.{Bytes}
use telemetry_fabric.Buffer.Files.{Segments, lookup, total_segment_bytes}
use telemetry_fabric.Buffer.Frame.{frame}
use telemetry_fabric.Buffer.CursorFile.{Cursor}
use telemetry_fabric.Buffer.Queue.{DiskQueue}

abbrev pub frames : List Bytes → Bytes
frames [] = []
frames (p ∷ ps) = frame p ++ frames ps

abbrev pub Logs : Type 0
Logs = List (ℕ × List Bytes)

abbrev pub stored : Logs → Segments
stored [] = []
stored ((id, ps) ∷ rest) = (id, frames ps) ∷ stored rest

abbrev pub all_payloads : Logs → List Bytes
all_payloads [] = []
all_payloads ((id, ps) ∷ rest) = ps ++ all_payloads rest

-- The files below the cursor's segment, the payloads of that segment in front of the cursor and
-- behind it, and the segments above.
pub record Position : Type 0 where
  pub before : Segments
  pub consumed : List Bytes
  pub left : List Bytes
  pub rest : Logs

abbrev pub position : Segments → List Bytes → List Bytes → Logs → Position
position before consumed left rest = record {
  before = before;
  consumed = consumed;
  left = left;
  rest = rest;
}

-- The payloads that are still to be read, oldest first.
abbrev pub pending : Position → List Bytes
pending p = p.left ++ all_payloads p.rest

abbrev pub IsPayload : Bytes → Type 0
IsPayload s = length s ≤ u32_max

abbrev pub IsAscending : ℕ → Logs → Type 0
IsAscending n [] = Unit {0}
IsAscending n ((id, ps) ∷ rest) = (n < id) × IsAscending id rest

abbrev pub last_id : ℕ → Logs → ℕ
last_id n [] = n
last_id n ((id, ps) ∷ rest) = last_id id rest

abbrev pub last_content : Bytes → Logs → Bytes
last_content content [] = content
last_content content ((id, ps) ∷ rest) = last_content (frames ps) rest

abbrev pub cursor_content : Position → Bytes
cursor_content p = frames p.consumed ++ frames p.left

-- The files of `q` are as `p` says, seen from the cursor `c`.
pub record Sees (q : DiskQueue) (c : Cursor) (p : Position) : Type 0 where
  pub files : q.dir.segments ≡ p.before ++ ((c.segment_id, cursor_content p) ∷ stored p.rest)
  pub offset : c.offset ≡ length (frames p.consumed)
  pub older : All (λ (file : ℕ × Bytes). file.0 < c.segment_id) p.before
  pub ascending : IsAscending c.segment_id p.rest
  pub payloads : All IsPayload (pending p)
  pub active : q.active_segment_id ≡ last_id c.segment_id p.rest
  pub fits : total_segment_bytes q.dir.segments < 2 ^ 64

-- A queue in order: its own cursor sees the files, and its counters are right.
pub record Holds (q : DiskQueue) (p : Position) : Type 0 where
  pub sees : Sees q q.cursor p
  pub active_bytes :
      q.active_segment_bytes ≡ length (unwrap_or (lookup q.active_segment_id q.dir.segments) [])
  pub queued : q.queued_bytes ≡ total_segment_bytes q.dir.segments
