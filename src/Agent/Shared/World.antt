-- ===== src/Agent/Shared/World.antt =====
-- The runtime under the lock: receivers ingest, flush tasks prepare, finish or are cancelled, and
-- the control plane pauses and reloads, in any order. What a flush task does between its two locked
-- parts changes nothing that is shared; its result is whatever it is.
use telemetry_fabric.Prelude.{ℕ, ◌<◌, ◌≡◌, List, [], ◌∷◌, ◌++◌, Bool, true}
use telemetry_fabric.Prelude.Words.{u64_max}
use telemetry_fabric.Prelude.Result.{Result, ok, err}
use telemetry_fabric.Std.Bytes.{Bytes}
use telemetry_fabric.Core.Error.{TelemetryError}
use telemetry_fabric.Core.Telemetry.{TelemetryRecord, encode}
use telemetry_fabric.Core.Config.{PipelineConfig, ExporterConfig}
use telemetry_fabric.Buffer.Error.{DiskQueueError}
use telemetry_fabric.Buffer.Queue.{DiskQueue}
use telemetry_fabric.Buffer.Fifo.{Queues}
use telemetry_fabric.Exporters.Error.{ExporterError}
use telemetry_fabric.Agent.Runtime.{
  FlushReport, RuntimeError, ingest, pause_exports, resume_exports,
}
use telemetry_fabric.Agent.Export.{ExporterMap}
use telemetry_fabric.Agent.Flush.{Agent}
use telemetry_fabric.Agent.Setup.{reload_config}
use telemetry_fabric.Agent.Shared.{
  PreparedFlush, Turn, skip, wait, prepared, refused, prepare_turn, finish_flush,
}
use telemetry_fabric.Agent.Shared.InFlight.{Flying}

-- The runtime, the flushes between their locked parts, and what has gone through: the payloads of
-- the records that `ingest` accepted, and of the batches that were committed.
pub record World (X : Type 0) : Type 0 where
  pub agent : Agent X
  pub in_flight : List (PreparedFlush X)
  pub accepted : List Bytes
  pub committed : List Bytes

abbrev pub accept :
    Result RuntimeError (Unit {0}) → Result TelemetryError Bytes → List Bytes → List Bytes
accept (ok _) (ok payload) xs = xs ++ (payload ∷ [])
accept (ok _) (err e) xs = xs
accept (err e) encoded xs = xs

module _ {X : Type 0} where
  abbrev pub started : Turn X → List (PreparedFlush X)
  started (prepared p) = p ∷ []
  started skip = []
  started wait = []
  started (refused e) = []

  abbrev pub commit : PreparedFlush X → Result DiskQueueError FlushReport → List Bytes → List Bytes
  commit p (ok report) xs = xs ++ p.batch.payloads
  commit p (err e) xs = xs

  -- The locked parts. Segment ids stay below the largest number, and so does the quota.
  pub data Step (w : World X) (u : World X) : Type 0 where
    ingests :
        (r : TelemetryRecord)
        → w.agent.queue.active_segment_id < u64_max
        → u ≡ record w {
          agent = (ingest r w.agent).1;
          accepted = accept (ingest r w.agent).0 (encode r) w.accepted;
        }
        → Step w u
    prepares :
        (clocks : List (List ℕ)) (n : ℕ) (force : Bool)
        → u ≡ record w {
          agent = (prepare_turn clocks n force w.agent).1;
          in_flight = w.in_flight ++ started (prepare_turn clocks n force w.agent).0;
        }
        → Step w u
    finishes :
        (xs ys : List (PreparedFlush X)) (p : PreparedFlush X)
        (result : Result DiskQueueError FlushReport) (exporters : ExporterMap X)
        → w.in_flight ≡ xs ++ (p ∷ ys)
        → u ≡ record w {
          agent = (finish_flush p (result, exporters) w.agent).1;
          in_flight = xs ++ ys;
          committed = commit p (finish_flush p (result, exporters) w.agent).0 w.committed;
        }
        → Step w u
    cancelled :
        (xs ys : List (PreparedFlush X)) (p : PreparedFlush X)
        → w.in_flight ≡ xs ++ (p ∷ ys)
        → u ≡ record w { in_flight = xs ++ ys }
        → Step w u
    pauses : u ≡ record w { agent = pause_exports w.agent } → Step w u
    resumes : u ≡ record w { agent = resume_exports w.agent } → Step w u
    reloads :
        (construct : ExporterConfig → Result ExporterError X) (config : PipelineConfig)
        → config.limits.max_queue_bytes < u64_max
        → u ≡ record w { agent = (reload_config construct config w.agent).1 }
        → Step w u

  pub data Reach (w : World X) : World X → Type 0 where
    here : Reach w w
    next : {t u : World X} → Reach w t → Step t u → Reach w u

  -- At most one flush is under way; while it is, the flag is set, and its batch is the oldest part
  -- of what waits.
  abbrev pub Flights : DiskQueue → List Bytes → Bool → List (PreparedFlush X) → Type 0
  Flights q waiting flag [] = Unit {0}
  Flights q waiting flag (p ∷ []) = (flag ≡ true) × Flying q waiting p.batch
  Flights q waiting flag (p ∷ p' ∷ more) = ⊥

  -- All that was in the queue or was accepted has been committed, in order, or waits, in order.
  pub record Inv (first : List Bytes) (w : World X) : Type 0 where
    pub waiting : List Bytes
    pub queues : Queues w.agent.queue waiting
    pub account : w.committed ++ waiting ≡ first ++ w.accepted
    pub quota : w.agent.config.limits.max_queue_bytes < u64_max
    pub flights : Flights w.agent.queue waiting w.agent.flush_in_progress w.in_flight

  -- An agent with nothing under way.
  abbrev pub start : Agent X → World X
  start a = record { agent = a; in_flight = []; accepted = []; committed = [] }
