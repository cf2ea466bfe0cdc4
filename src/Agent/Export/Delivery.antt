-- ===== src/Agent/Export/Delivery.antt =====
-- What exporters that keep what they took have taken, after `export_records`.
use telemetry_fabric.Prelude.{
  ℕ, ◌≡◌, refl, sym, ap, ◌⊎◌, inl, inr, List, [], ◌∷◌, some, false, ◌=text◌, =text_eq, Bool-cases,
  Option-cases, subst, arith, ◌∙◌,
}
use telemetry_fabric.Prelude.Result.{Result, ok, err, Result-cases}
use telemetry_fabric.Std.Bytes.{Bytes}
use telemetry_fabric.Core.Telemetry.{TelemetryRecord, RecordBatch}
use telemetry_fabric.Core.Config.{PipelineConfig, ExporterConfig, ExporterRetryConfig}
use telemetry_fabric.Core.Routing.{exporters_for}
use telemetry_fabric.Agent.Runtime.{FlushReport}
use telemetry_fabric.Agent.Export.{
  Export, ExportReport, ExporterMap, Groups, group_records, export_with_retry, no_report,
  get_exporter, put_exporter, export_groups, export_records, retry_of, DiskQueueError, next_group,
  Attempts, add_report, Exported,
}
use telemetry_fabric.Agent.Export.Retry.{Fails, export_with_retry-Tried}
use telemetry_fabric.Agent.Export.Grouping.{In, Grouped, group_records-Grouped}

-- What is asked of exporters: what they have taken stays, and a batch whose export succeeded has
-- been taken.
pub record Takes {X : Type 0} (export : Export X) : Type 0 where
  pub taken : X → List TelemetryRecord
  pub stays :
      (ms : ℕ) (x : X) (batch : RecordBatch) (r : TelemetryRecord)
      → In r (taken x)
      → In r (taken (export ms x batch).1)
  pub success :
      (ms : ℕ) (x : X) (batch : RecordBatch) (report : ExportReport) (r : TelemetryRecord)
      → (export ms x batch).0 ≡ some (ok report)
      → In r batch.records
      → In r (taken (export ms x batch).1)

module _ {X : Type 0} where
  get-put :
      (name : Bytes) (x y : X) (m : ExporterMap X)
      → get_exporter name m ≡ some y
      → get_exporter name (put_exporter name x m) ≡ some x
  unfolding get_exporter put_exporter
  get-put name x y [] h = cc
  get-put name x y ((n, z) ∷ m) h = elim (Bool-cases (n =text name)) [
    | inl same ↦ rw (same, get_exporter, same) refl
    | inr other ↦
        rw (other, get_exporter, other) (get-put name x y m (rw (other, get_exporter) at h))
  ]

  get-put_other :
      (name other : Bytes) (x : X) (m : ExporterMap X)
      → (name =text other) ≡ false
      → get_exporter other (put_exporter name x m) ≡ get_exporter other m
  unfolding get_exporter put_exporter
  get-put_other name other x [] d = refl
  get-put_other name other x ((n, z) ∷ m) d = elim (Bool-cases (n =text name)) [
    | inl same ↦
        let d' : (n =text other) ≡ false =
          subst (λ (k : Bytes). (k =text other) ≡ false) (sym (=text_eq n name same)) d in
        ground (arith, d', same)
    | inr differs ↦ ground (arith, differs, get-put_other name other x m d)
  ]

next-ok :
    {X : Type 0} (export : Export X) (name : Bytes) (report report' : FlushReport)
    (m m' : ExporterMap X) (more : FlushReport → ExporterMap X → Exported export)
    (tried : Attempts export)
    → next_group export name report m more tried ≡ (ok report', m')
    → (done : ExportReport) × (tried.0 ≡ ok done)
      × (more (add_report done report) (put_exporter name tried.1 m) ≡ (ok report', m'))
unfolding next_group
next-ok export name report report' m m' more (ok done, x, waits) h = (done, refl, h)
next-ok export name report report' m m' more (err e, x, waits) h = cc

module _ {X : Type 0} (export : Export X) (t : Takes export) where
  Fails-stays :
      (ms : ℕ) (batch : RecordBatch) (n : ℕ) (x y : X) (r : TelemetryRecord)
      → Fails export ms batch n x y
      → In r (t.taken x)
      → In r (t.taken y)
  Fails-stays ms batch n x y r Fails.stop m = m
  Fails-stays ms batch n x y r (Fails.try f more) m =
      Fails-stays ms batch _ _ y r more (t.stays ms x batch r m)

  module _ (name : Bytes) (x : X) (batch : RecordBatch) (retry : ExporterRetryConfig)
      (r : TelemetryRecord) where
    retry-stays : In r (t.taken x) → In r (t.taken (export_with_retry export name x batch retry).1)
    retry-stays m =
        let tried = export_with_retry-Tried export name retry batch x in
        rw tried.state (
          t.stays retry.timeout_ms tried.last batch r
            (Fails-stays retry.timeout_ms batch tried.failures x tried.last r tried.fails m))

    retry-success :
        (report : ExportReport)
        → (export_with_retry export name x batch retry).0 ≡ ok report
        → In r batch.records
        → In r (t.taken (export_with_retry export name x batch retry).1)
    retry-success report h m =
        let tried = export_with_retry-Tried export name retry batch x in
        rw tried.state (elim tried.outcome [
          | inl (done, e, s) ↦ t.success retry.timeout_ms tried.last batch done r s m
          | inr (error, e, f, all) ↦ cc
        ])

  -- The exporter of that name has taken the record.
  abbrev pub Delivered : Bytes → TelemetryRecord → ExporterMap X → Type 0
  Delivered name r m = (x : X) × (get_exporter name m ≡ some x) × In r (t.taken x)

  module _ (config : PipelineConfig) (name : Bytes) (records : List TelemetryRecord)
      (m : ExporterMap X) where
    abbrev tried : X → Attempts export
    tried x =
        export_with_retry export name x (record { records = records })
          (retry_of name config.exporters)

    -- The exporters behind the attempts at the group.
    abbrev after_group : X → ExporterMap X
    after_group x = put_exporter name (tried x).1 m

    put-Delivered :
        (other : Bytes) (r : TelemetryRecord) (x : X)
        → get_exporter name m ≡ some x
        → Delivered other r m
        → Delivered other r (after_group x)
    put-Delivered other r x g (y, h, i) = elim (Bool-cases (name =text other)) [
      | inl same ↦
          let n : name ≡ other = =text_eq name other same in
          let here : get_exporter name m ≡ some y = rw n h in
          let xy : x ≡ y = cc in
          (
            (tried x).1,
            subst (λ (k : Bytes). get_exporter k (after_group x) ≡ some (tried x).1) n
                (get-put name (tried x).1 x m g),
            retry-stays name x (record { records = records }) (retry_of name config.exporters) r
                (subst (λ (z : X). In r (t.taken z)) (sym xy) i),
          )
      | inr differs ↦ (y, get-put_other name other (tried x).1 m differs ∙ h, i)
    ]

    own-Delivered :
        (r : TelemetryRecord) (x : X) (done : ExportReport)
        → get_exporter name m ≡ some x
        → (tried x).0 ≡ ok done
        → In r records
        → Delivered name r (after_group x)
    own-Delivered r x done g e i = (
      (tried x).1,
      get-put name (tried x).1 x m g,
      retry-success name x (record { records = records }) (retry_of name config.exporters) r done e
          i,
    )

    -- Where the groups were exported, the first was, and then the others.
    pub record FirstGroup (groups : Groups) (after : FlushReport × ExporterMap X) : Type 0 where
      pub exporter : X
      pub got : get_exporter name m ≡ some exporter
      pub done : ExportReport
      pub exported : (tried exporter).0 ≡ ok done
      pub report : FlushReport
      pub others :
          export_groups export config groups report (after_group exporter) ≡ (ok after.0, after.1)

    export_groups-FirstGroup :
        (groups : Groups) (report report' : FlushReport) (m' : ExporterMap X)
        → export_groups export config ((name, records) ∷ groups) report m ≡ (ok report', m')
        → FirstGroup groups (report', m')
    unfolding export_groups
    export_groups-FirstGroup groups report report' m' h =
        elim (Option-cases (get_exporter name m)) [
          | inl none_there ↦ cc (
              ap (λ (p : Result DiskQueueError FlushReport × ExporterMap X). p.0)
                (rw (none_there, export_groups) at h))
          | inr (x, g) ↦
              let (done, e, more) =
                next-ok export name report report' m m' (export_groups export config groups)
                  (tried x) (rw (g, export_groups) at h) in
              record {
                exporter = x;
                got = g;
                done = done;
                exported = e;
                report = add_report done report;
                others = more;
              }
        ]

  -- Groups that were all exported: nothing that was delivered is lost, and all in them is delivered.
  module _ (config : PipelineConfig) where
    no_groups :
        (report report' : FlushReport) (m m' : ExporterMap X)
        → export_groups export config [] report m ≡ (ok report', m')
        → m ≡ m'
    unfolding export_groups
    no_groups report report' m m' h = ap (λ (p : Exported export). p.1) h

    groups-Delivered :
        (groups : Groups) (report report' : FlushReport) (m m' : ExporterMap X)
        → export_groups export config groups report m ≡ (ok report', m')
        → (name : Bytes) (r : TelemetryRecord) → Delivered name r m ⊎ Grouped name r groups
        → Delivered name r m'
    groups-Delivered [] report report' m m' h name r (inl d) =
        subst (Delivered name r) (no_groups report report' m m' h) d
    groups-Delivered [] report report' m m' h name r (inr g) = absurd g
    groups-Delivered ((n, rs) ∷ groups) report report' m m' h name r (inl d) =
        let f = export_groups-FirstGroup config n rs m groups report report' m' h in
        groups-Delivered groups f.report report' _ m' f.others name r
          (inl (put-Delivered config n rs m name r f.exporter f.got d))
    groups-Delivered ((n, rs) ∷ groups) report report' m m' h name r (inr (inr g)) =
        let f = export_groups-FirstGroup config n rs m groups report report' m' h in
        groups-Delivered groups f.report report' _ m' f.others name r (inr g)
    groups-Delivered ((n, rs) ∷ groups) report report' m m' h name r (inr (inl (same, i))) =
        let f = export_groups-FirstGroup config n rs m groups report report' m' h in
        groups-Delivered groups f.report report' _ m' f.others name r (
          inl (
            subst (λ (k : Bytes). Delivered k r (after_group config n rs m f.exporter)) same
              (own-Delivered config n rs m r f.exporter f.done f.got f.exported i)))

    -- When `export_records` succeeds, each record has been taken by every exporter that its signal
    -- is routed to, whatever was retried.
    pub export_records-Delivered :
        (m m' : ExporterMap X) (rs : List TelemetryRecord) (report : FlushReport)
        (r : TelemetryRecord) (es : List ExporterConfig) (e : ExporterConfig)
        → export_records export config m rs ≡ (ok report, m')
        → In r rs
        → exporters_for config r.signal ≡ ok es
        → In e es
        → Delivered e.name r m'
    unfolding export_records
    export_records-Delivered m m' rs report r es e h i routed x =
        elim (Result-cases (group_records config rs [])) [
          | inl (groups, g) ↦
              groups-Delivered groups no_report report m m' (rw (g, export_records) at h) e.name r
                (inr (group_records-Grouped config rs [] r es e g i routed x))
          | inr (error, g) ↦ cc (ap (λ (p : Exported export). p.0) (rw (g, export_records) at h))
        ]
