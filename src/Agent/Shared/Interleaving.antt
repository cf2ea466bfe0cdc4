-- ===== src/Agent/Shared/Interleaving.antt =====
-- The runtime under the lock: what is in the queue and on its way, whatever the order of the steps.
use mathlib.Core.List.{append_assoc, append-nil}
use telemetry_fabric.Prelude.{
  ◌≤◌, length, ◌<◌, ◌≡◌, refl, sym, ap, ◌∙◌, inl, inr, List, [], ◌∷◌, ◌++◌, Bool, false, subst,
  arith,
}
use telemetry_fabric.Prelude.Words.{u64_max}
use telemetry_fabric.Prelude.Result.{Result, ok, err, Result-cases}
use telemetry_fabric.Std.Bytes.{Bytes}
use telemetry_fabric.Core.Telemetry.{TelemetryRecord, encode}
use telemetry_fabric.Core.Config.{PipelineConfig, ExporterConfig}
use telemetry_fabric.Buffer.Error.{DiskQueueError}
use telemetry_fabric.Buffer.Queue.{DiskQueue, PendingBatch}
use telemetry_fabric.Buffer.Fifo.{Queues, enqueue-Enqueued}
use telemetry_fabric.Exporters.Error.{ExporterError}
use telemetry_fabric.Agent.Runtime.{FlushReport, ingest, pause_exports, resume_exports}
use telemetry_fabric.Agent.Export.{ExporterMap}
use telemetry_fabric.Agent.Flush.{Agent}
use telemetry_fabric.Agent.Setup.{reload_config, reload_config_inner, reload_parts}
use telemetry_fabric.Agent.Shared.{
  PreparedFlush, Turn, skip, wait, prepared, refused, prepare_turn, finish_flush,
}
use telemetry_fabric.Agent.Shared.InFlight.{Flying, commit_batch-Queues, enqueue-Flying}
use telemetry_fabric.Agent.Shared.Locked.{
  Turned, Kept, finish_flush-ok, finish_flush-err, prepare_turn-Turned,
}
use telemetry_fabric.Agent.Shared.Ingesting.{ingest-Taken}
use telemetry_fabric.Agent.Shared.World.{
  World, Step, ingests, prepares, finishes, cancelled, pauses, resumes, reloads, Reach, here, next,
  accept, started, commit, Flights, Inv, start,
}

module _ {X : Type 0} where
  Flights-ingest :
      (payload : Bytes) (w : World X) (waiting : List Bytes) (q : DiskQueue) (flag : Bool)
      (fs : List (PreparedFlush X))
      → ((b : PendingBatch)
          → Flying w.agent.queue waiting b
          → Flying q (waiting ++ (payload ∷ [])) b)
      → Flights w.agent.queue waiting flag fs
      → Flights q (waiting ++ (payload ∷ [])) flag fs
  Flights-ingest payload w waiting q flag [] f h = tt
  Flights-ingest payload w waiting q flag (p ∷ []) f h = (h.0, f p.batch h.1)
  Flights-ingest payload w waiting q flag (p ∷ p' ∷ more) f h = h

  module _ (first : List Bytes) (w : World X) (v : Inv first w) where
    ingest-Inv :
        (r : TelemetryRecord)
        → w.agent.queue.active_segment_id < u64_max
        → Inv first (record w {
          agent = (ingest r w.agent).1;
          accepted = accept (ingest r w.agent).0 (encode r) w.accepted;
        })
    ingest-Inv r id = elim (ingest-Taken w.agent v.quota r) [
      | inl (payload, e, t) ↦
          let q = enqueue-Enqueued payload w.agent.queue v.waiting v.queues t.fits t.room id in
          record {
            waiting = v.waiting ++ (payload ∷ []);
            queues = rw t.state.queue q.holds;
            account =
                rw (t.accepted q.accepted, e)
                  (sym (append_assoc w.committed v.waiting (payload ∷ []))
                    ∙ ap (λ (t : List Bytes). t ++ (payload ∷ [])) v.account
                    ∙ append_assoc first w.accepted (payload ∷ []));
            quota = rw t.state.config v.quota;
            flights =
                rw (t.state.queue, t.state.in_progress)
                  (Flights-ingest payload w v.waiting _ w.agent.flush_in_progress w.in_flight
                    (λ b f. enqueue-Flying payload w.agent.queue v.waiting b t.fits t.room id f)
                    v.flights);
          }
      | inr (e, h, s) ↦ record {
        waiting = v.waiting;
        queues = rw s.queue v.queues;
        account = rw h v.account;
        quota = rw s.config v.quota;
        flights = rw (s.queue, s.in_progress) v.flights;
      }
    ]

    -- While the flag is not set, no flush is under way.
    none_flying :
        (fs : List (PreparedFlush X))
        → Flights w.agent.queue v.waiting w.agent.flush_in_progress fs
        → w.agent.flush_in_progress ≡ false
        → fs ≡ []
    none_flying [] f free = refl
    none_flying (p ∷ []) f free = cc (f.0, free)
    none_flying (p ∷ p' ∷ more) f free = absurd f

    Kept-Inv :
        (a : Agent X)
        → Kept w.agent v.waiting a
        → Inv first (record w { agent = a; in_flight = w.in_flight ++ [] })
    Kept-Inv a k = record {
      waiting = v.waiting;
      queues = k.idle.queues;
      account = v.account;
      quota = rw k.idle.config v.quota;
      flights = rw (append-nil w.in_flight) (elim k.same [
        | inl free ↦ rw (none_flying w.in_flight v.flights free) tt
        | inr (q, f) ↦ rw (q, f) v.flights
      ]);
    }

    turn-Inv :
        (r : Turn X × Agent X)
        → Turned w.agent v.waiting r
        → Inv first (record w { agent = r.1; in_flight = w.in_flight ++ started r.0 })
    turn-Inv (skip, a) k = Kept-Inv a k
    turn-Inv (wait, a) k = Kept-Inv a k
    turn-Inv (refused e, a) k = Kept-Inv a k
    turn-Inv (prepared p, a) (s, free, set) = record {
      waiting = v.waiting;
      queues = rw s.queue v.queues;
      account = v.account;
      quota = rw s.config v.quota;
      flights = rw (none_flying w.in_flight v.flights free, s.queue) (set, s.flying);
    }

    -- A flush that is under way is the only one.
    the_flight :
        (xs ys : List (PreparedFlush X)) (p : PreparedFlush X)
        → Flights w.agent.queue v.waiting w.agent.flush_in_progress (xs ++ (p ∷ ys))
        → (xs ++ ys ≡ []) × Flying w.agent.queue v.waiting p.batch
    the_flight [] [] p f = (refl, f.1)
    the_flight [] (y ∷ ys) p f = absurd f
    the_flight (x ∷ []) ys p f = absurd f
    the_flight (x ∷ x' ∷ xs) ys p f = absurd f

    finish-Inv :
        (xs ys : List (PreparedFlush X)) (p : PreparedFlush X)
        (result : Result DiskQueueError FlushReport) (exporters : ExporterMap X)
        → w.in_flight ≡ xs ++ (p ∷ ys)
        → Inv first (record w {
          agent = (finish_flush p (result, exporters) w.agent).1;
          in_flight = xs ++ ys;
          committed = commit p (finish_flush p (result, exporters) w.agent).0 w.committed;
        })
    finish-Inv xs ys p (err e) exporters there =
        let (e', r, q, c) = finish_flush-err p e exporters w.agent in
        let (alone, f) = the_flight xs ys p (rw there at v.flights) in
        record {
          waiting = v.waiting;
          queues = rw q v.queues;
          account = rw r v.account;
          quota = rw c v.quota;
          flights = rw alone tt;
        }
    finish-Inv xs ys p (ok exported) exporters there =
        let (alone, f) = the_flight xs ys p (rw there at v.flights) in
        let (n, queues) = commit_batch-Queues w.agent.queue v.waiting p.batch v.queues f in
        let d = finish_flush-ok p exported exporters w.agent _ n in
        record {
          waiting = f.rest;
          queues = rw d.queue queues;
          account = rw d.result (
              append_assoc w.committed p.batch.payloads f.rest
              ∙ ap (λ (t : List Bytes). w.committed ++ t) (sym f.waiting)
              ∙ v.account);
          quota = rw d.config v.quota;
          flights = rw alone tt;
        }

    cancel-Inv :
        (xs ys : List (PreparedFlush X)) (p : PreparedFlush X)
        → w.in_flight ≡ xs ++ (p ∷ ys)
        → Inv first (record w { in_flight = xs ++ ys })
    cancel-Inv xs ys p there =
        let (alone, f) = the_flight xs ys p (rw there at v.flights) in
        record {
          waiting = v.waiting;
          queues = v.queues;
          account = v.account;
          quota = v.quota;
          flights = rw alone tt;
        }

    -- A change of the agent that leaves the queue and the flag alone.
    aside-Inv :
        (a : Agent X)
        → a.queue ≡ w.agent.queue
        → a.flush_in_progress ≡ w.agent.flush_in_progress
        → a.config.limits.max_queue_bytes < u64_max
        → Inv first (record w { agent = a })
    aside-Inv a q f l = record {
      waiting = v.waiting;
      queues = rw q v.queues;
      account = v.account;
      quota = l;
      flights = rw (q, f) v.flights;
    }

    reload-Inv :
        (construct : ExporterConfig → Result ExporterError X) (config : PipelineConfig)
        → config.limits.max_queue_bytes < u64_max
        → Inv first (record w { agent = (reload_config construct config w.agent).1 })
    unfolding reload_config reload_config_inner
    reload-Inv construct config l = elim (Result-cases (reload_parts construct config)) [
      | inl (m, e) ↦ aside-Inv _ (rw e refl) (rw e refl) (rw e l)
      | inr (e', e) ↦ aside-Inv _ (rw e refl) (rw e refl) (rw e v.quota)
    ]

  Step-Inv : (first : List Bytes) (w u : World X) → Inv first w → Step w u → Inv first u
  unfolding pause_exports resume_exports
  Step-Inv first w u v (ingests r id e) = subst (Inv first) (sym e) (ingest-Inv first w v r id)
  Step-Inv first w u v (prepares clocks n force e) = subst (Inv first) (sym e) (
      turn-Inv first w v (prepare_turn clocks n force w.agent)
        (prepare_turn-Turned clocks n force w.agent v.waiting v.queues))
  Step-Inv first w u v (finishes xs ys p result exporters there e) =
      subst (Inv first) (sym e) (finish-Inv first w v xs ys p result exporters there)
  Step-Inv first w u v (cancelled xs ys p there e) =
      subst (Inv first) (sym e) (cancel-Inv first w v xs ys p there)
  Step-Inv first w u v (pauses e) =
      subst (Inv first) (sym e) (aside-Inv first w v (pause_exports w.agent) refl refl v.quota)
  Step-Inv first w u v (resumes e) =
      subst (Inv first) (sym e) (aside-Inv first w v (resume_exports w.agent) refl refl v.quota)
  Step-Inv first w u v (reloads construct config l e) =
      subst (Inv first) (sym e) (reload-Inv first w v construct config l)

  Reach-Inv :
      (first : List Bytes) (w : World X) {u : World X} → Inv first w → Reach w u → Inv first u
  Reach-Inv first w v here = v
  Reach-Inv first w v (next r s) = Step-Inv first _ _ (Reach-Inv first w v r) s

  one_flight :
      (q : DiskQueue) (waiting : List Bytes) (flag : Bool) (fs : List (PreparedFlush X))
      → Flights q waiting flag fs
      → length fs ≤ 1
  one_flight q waiting flag [] f = omega arith
  one_flight q waiting flag (p ∷ []) f = omega arith
  one_flight q waiting flag (p ∷ p' ∷ more) f = absurd f

  -- However the locked parts follow one another, from an agent whose queue holds `ps` and whose
  -- quota is below the largest number: the payloads committed so far, followed by those that wait,
  -- are `ps` followed by the accepted records, in order, and at most one flush is under way.
  pub Reach-account :
      (a : Agent X) (ps : List Bytes) (u : World X)
      → Queues a.queue ps
      → a.config.limits.max_queue_bytes < u64_max
      → Reach (start a) u
      → (waiting : List Bytes) × Queues u.agent.queue waiting
        × (u.committed ++ waiting ≡ ps ++ u.accepted)
        × (length u.in_flight ≤ 1)
  Reach-account a ps u h l r =
      let v =
        Reach-Inv ps (start a)
          (record {
            waiting = ps;
            queues = h;
            account = sym (append-nil ps);
            quota = l;
            flights = tt;
          })
          r in
      (
        v.waiting,
        v.queues,
        v.account,
        one_flight u.agent.queue v.waiting u.agent.flush_in_progress u.in_flight v.flights,
      )
