-- ===== src/Agent/Shared/Locked.antt =====
-- The two locked parts of a shared flush, as the queue sees them.
use telemetry_fabric.Prelude.{
  Bool, ◌&&◌, not, ℕ, ◌≡◌, refl, sym, ap, ◌∙◌, List, [], ◌∷◌, ◌++◌, true, false, subst, ◌⊎◌, inr,
  inl, Bool-cases, arith,
}
use telemetry_fabric.Prelude.Result.{Result, ok, err}
use telemetry_fabric.Std.Bytes.{Bytes}
use telemetry_fabric.Buffer.Error.{DiskQueueError}
use telemetry_fabric.Buffer.Queue.{DiskQueue, PendingBatch, commit_batch}
use telemetry_fabric.Buffer.Fifo.{Queues}
use telemetry_fabric.Processors.{ProcessorChain}
use telemetry_fabric.Agent.Runtime.{FlushReport}
use telemetry_fabric.Agent.Export.{ExporterMap}
use telemetry_fabric.Agent.Flush.{
  with_exported, Agent, Processed, nothing_done, report_of, process_payloads, with_metrics,
  count_attempt, commit_and_report, count_flush,
}
use telemetry_fabric.Agent.Shared.{
  PreparedFlush, PreparedFlushState, Turn, nothing, ready, failed, skip, wait, prepared, refused,
  prepare_flush_work, empty_work, ready_work, work_on, work_read, turn_of, prepare_turn, give_back,
  finish_flush, finish_result,
}
use telemetry_fabric.Agent.Shared.InFlight.{Flying, read_batch-Flying, commit_batch-Queues}

module _ {X : Type 0} where
  -- What a turn of the preparing loop does.
  pub record Idle (a : Agent X) (ps : List Bytes) (a' : Agent X) : Type 0 where
    pub queues : Queues a'.queue ps
    pub config : a'.config ≡ a.config

  pub record Started (a : Agent X) (ps : List Bytes) (p : PreparedFlush X) (a' : Agent X)
      : Type 0 where
    pub queue : a'.queue ≡ a.queue
    pub flying : Flying a.queue ps p.batch
    pub config : a'.config ≡ a.config

  abbrev Worked : Agent X → List Bytes → PreparedFlushState X × Agent X → Type 0
  Worked a ps (ready p, a') = Started a ps p a'
  Worked a ps (nothing report, a') = Idle a ps a'
  Worked a ps (failed e, a') = Idle a ps a'

  module _ (a : Agent X) (ps : List Bytes) (h : Queues a.queue ps) where
    empty_work-Worked :
        (b : PendingBatch) (report : FlushReport)
        → b.payloads ≡ []
        → Flying a.queue ps b
        → Worked a ps (empty_work report a (commit_batch b a.queue))
    unfolding empty_work
    empty_work-Worked b report none_there f =
        let (committed, queues) = commit_batch-Queues a.queue ps b h f in
        let all : f.rest ≡ ps = sym (f.waiting ∙ ap (λ (t : List Bytes). t ++ f.rest) none_there) in
        rw committed
          (record { queues = subst (Queues (commit_batch b a.queue).1) all queues; config = refl })

    ready_work-Worked :
        (b : PendingBatch) (r : Result DiskQueueError Processed × ProcessorChain)
        → Flying a.queue ps b
        → Worked a ps (ready_work b a r)
    unfolding ready_work
    ready_work-Worked b (err e, chain) f = record { queues = h; config = refl }
    ready_work-Worked b (ok p, chain) f = record { queue = refl; flying = f; config = refl }

    work_on-Worked :
        (clocks : List (List ℕ)) (b : PendingBatch) (payloads : List Bytes)
        → b.payloads ≡ payloads
        → Flying a.queue ps b
        → Worked a ps (work_on clocks b a payloads)
    unfolding work_on
    work_on-Worked clocks b [] e f = empty_work-Worked b (report_of b nothing_done) e f
    work_on-Worked clocks b (payload ∷ payloads) e f =
        ready_work-Worked b (process_payloads clocks (payload ∷ payloads) nothing_done a.processors)
          f

    prepare_flush_work-Worked :
        (clocks : List (List ℕ)) (n : ℕ) → Worked a ps (prepare_flush_work clocks n a)
    unfolding prepare_flush_work work_read
    prepare_flush_work-Worked clocks n =
        let (b, r, f) = read_batch-Flying n a.queue ps h in
        rw r (work_on-Worked clocks b b.payloads refl f)

  -- No flush is started: the queue keeps what it holds, and is the same while a flush is under way.
  pub record Kept (a : Agent X) (ps : List Bytes) (a' : Agent X) : Type 0 where
    pub idle : Idle a ps a'
    pub same :
        (a.flush_in_progress ≡ false)
        ⊎ ((a'.queue ≡ a.queue) × (a'.flush_in_progress ≡ a.flush_in_progress))

  abbrev pub Turned : Agent X → List Bytes → Turn X × Agent X → Type 0
  Turned a ps (prepared p, a') =
      Started a ps p a' × (a.flush_in_progress ≡ false) × (a'.flush_in_progress ≡ true)
  Turned a ps (skip, a') = Kept a ps a'
  Turned a ps (wait, a') = Kept a ps a'
  Turned a ps (refused e, a') = Kept a ps a'

  counted :
      (a : Agent X) (ps : List Bytes) (a' a'' : Agent X)
      → a.flush_in_progress ≡ false
      → a''.queue ≡ a'.queue
      → a''.config ≡ a'.config
      → Idle a ps a'
      → Kept a ps a''
  counted a ps a' a'' flag q c i = record {
    idle = record {
      queues = subst (λ (q : DiskQueue). Queues q ps) (sym q) i.queues;
      config = c ∙ i.config;
    };
    same = inl flag;
  }

  turn_of-Turned :
      (a : Agent X) (ps : List Bytes) (r : PreparedFlushState X × Agent X)
      → a.flush_in_progress ≡ false
      → Worked a ps r
      → Turned a ps (turn_of r)
  unfolding turn_of
  turn_of-Turned a ps (nothing report, a') flag w = counted a ps a' _ flag refl refl w
  turn_of-Turned a ps (failed e, a') flag w = counted a ps a' _ flag refl refl w
  turn_of-Turned a ps (ready p, a') flag w =
      (record { queue = w.queue; flying = w.flying; config = w.config }, flag, refl)

  Turned-counted :
      (a : Agent X) (ps : List Bytes) (r : Turn X × Agent X)
      → Turned (with_metrics count_attempt a) ps r
      → Turned a ps r
  Turned-counted a ps (prepared p, a') (s, f, g) =
      (record { queue = s.queue; flying = s.flying; config = s.config }, f, g)
  Turned-counted a ps (skip, a') k = record {
    idle = record { queues = k.idle.queues; config = k.idle.config };
    same = k.same;
  }
  Turned-counted a ps (wait, a') k = record {
    idle = record { queues = k.idle.queues; config = k.idle.config };
    same = k.same;
  }
  Turned-counted a ps (refused e, a') k = record {
    idle = record { queues = k.idle.queues; config = k.idle.config };
    same = k.same;
  }

  unmoved : (a : Agent X) (ps : List Bytes) → Queues a.queue ps → Kept a ps a
  unmoved a ps h = record { idle = record { queues = h; config = refl }; same = inr (refl, refl) }

  prepare_turn-paused :
      (clocks : List (List ℕ)) (n : ℕ) (force : Bool) (a : Agent X)
      → (a.exports_paused && not force) ≡ true
      → prepare_turn clocks n force a ≡ (skip, a)
  unfolding prepare_turn
  prepare_turn-paused clocks n force a h = ground arith

  prepare_turn-waits :
      (clocks : List (List ℕ)) (n : ℕ) (force : Bool) (a : Agent X)
      → (a.exports_paused && not force) ≡ false
      → a.flush_in_progress ≡ true
      → prepare_turn clocks n force a ≡ (wait, a)
  unfolding prepare_turn
  prepare_turn-waits clocks n force a h busy = ground arith

  prepare_turn-works :
      (clocks : List (List ℕ)) (n : ℕ) (force : Bool) (a : Agent X)
      → (a.exports_paused && not force) ≡ false
      → a.flush_in_progress ≡ false
      → prepare_turn clocks n force a
        ≡ turn_of (prepare_flush_work clocks n (with_metrics count_attempt a))
  unfolding prepare_turn
  prepare_turn-works clocks n force a h free = ground arith

  -- Every turn of the preparing loop.
  pub prepare_turn-Turned :
      (clocks : List (List ℕ)) (n : ℕ) (force : Bool) (a : Agent X) (ps : List Bytes)
      → Queues a.queue ps
      → Turned a ps (prepare_turn clocks n force a)
  prepare_turn-Turned clocks n force a ps h = elim (Bool-cases (a.exports_paused && not force)) [
    | inl paused ↦ rw (prepare_turn-paused clocks n force a paused) (unmoved a ps h)
    | inr running ↦ elim (Bool-cases a.flush_in_progress) [
      | inl busy ↦ rw (prepare_turn-waits clocks n force a running busy) (unmoved a ps h)
      | inr free ↦ rw (prepare_turn-works clocks n force a running free) (
          Turned-counted a ps _ (
            turn_of-Turned (with_metrics count_attempt a) ps
              (prepare_flush_work clocks n (with_metrics count_attempt a)) free
              (prepare_flush_work-Worked (with_metrics count_attempt a) ps h clocks n)))
    ]
  ]

  -- What the second part does, by the result of the export.
  pub record Finished (p : PreparedFlush X) (a : Agent X)
      (r : Result DiskQueueError FlushReport × Agent X) : Type 0 where
    pub report : FlushReport
    pub result : r.0 ≡ ok report
    pub queue : r.1.queue ≡ (commit_batch p.batch a.queue).1
    pub config : r.1.config ≡ a.config

  abbrev pub GivenUp : Agent X → Result DiskQueueError FlushReport × Agent X → Type 0
  GivenUp a r =
      (e : DiskQueueError) × (r.0 ≡ err e) × (r.1.queue ≡ a.queue) × (r.1.config ≡ a.config)

  give_back-queue :
      (p : PreparedFlush X) (m : ExporterMap X) (a : Agent X)
      → ((give_back p m a).queue ≡ a.queue) × ((give_back p m a).config ≡ a.config)
  unfolding give_back
  give_back-queue p m a = ground arith

  pub finish_flush-ok :
      (p : PreparedFlush X) (exported : FlushReport) (m : ExporterMap X) (a : Agent X) (n : ℕ)
      → (commit_batch p.batch a.queue).0 ≡ ok n
      → Finished p a (finish_flush p (ok exported, m) a)
  unfolding finish_flush finish_result commit_and_report count_flush
  finish_flush-ok p exported m a n h =
      let (q, c) = give_back-queue p m a in
      rw (q, h)
        (record {
          report = with_exported p.report exported;
          result = refl;
          queue = refl;
          config = c;
        })

  pub finish_flush-err :
      (p : PreparedFlush X) (e : DiskQueueError) (m : ExporterMap X) (a : Agent X)
      → GivenUp a (finish_flush p (err e, m) a)
  unfolding finish_flush finish_result count_flush
  finish_flush-err p e m a = let (q, c) = give_back-queue p m a in (e, refl, q, c)
