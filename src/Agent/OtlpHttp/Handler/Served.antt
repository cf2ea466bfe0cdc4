-- ===== src/Agent/OtlpHttp/Handler/Served.antt =====
-- What a request to the OTLP/HTTP receiver does to the queue, by its answer.
use mathlib.Core.List.{append_assoc, append-nil}
use telemetry_fabric.Prelude.{
  ◌+◌, ◌≤◌, ◌<◌, ◌≡◌, ◌≢◌, refl, ap, ◌∙◌, subst, ◌⊎◌, inl, inr, true, List, [], ◌∷◌, ◌++◌, Option,
  none, some, ◌=text◌, length, Bool-cases, arith,
}
use telemetry_fabric.Prelude.Words.{u64_max}
use telemetry_fabric.Prelude.Result.{Result, ok, err}
use telemetry_fabric.Std.Bytes.{Bytes}
use telemetry_fabric.Std.Text.{text}
use telemetry_fabric.Core.Telemetry.{SignalKind, TelemetryRecord, encode}
use telemetry_fabric.Buffer.Queue.{enqueue}
use telemetry_fabric.Buffer.Fifo.{Queues, Enqueued, enqueue-Enqueued}
use telemetry_fabric.Agent.Runtime.{AgentRuntime, RuntimeError, ingest}
use telemetry_fabric.Agent.Shared.Ingesting.{Taken, ingest-Taken}
use telemetry_fabric.Agent.OtlpHttp.{OtlpHttpRequest}
use telemetry_fabric.Agent.OtlpHttp.Handler.{
  Answer, okay, plain, bad_request, not_found, method_not_allowed, signal_of_path, after_ingest,
  ingest_records, Carries, encoded_answer, decode_otlp_http_body, ingested, decoded, routed,
  handle_request,
}

-- The payloads are those of the records, one for each and in order.
abbrev pub Encodes : List TelemetryRecord → List Bytes → Type 0
Encodes [] [] = Unit {0}
Encodes [] (p ∷ payloads) = ⊥
Encodes (r ∷ records) [] = ⊥
Encodes (r ∷ records) (p ∷ payloads) = (encode r ≡ ok p) × Encodes records payloads

module _ {X : Type 0} where
  -- A record that was taken behind `ps`, and one that was not.
  record Put (a : AgentRuntime X) (ps : List Bytes) (r : TelemetryRecord) : Type 0 where
    payload : Bytes
    encodes : encode r ≡ ok payload
    result : (ingest r a).0 ≡ ok tt
    queues : Queues (ingest r a).1.queue (ps ++ (payload ∷ []))
    config : (ingest r a).1.config ≡ a.config
    ids : (ingest r a).1.queue.active_segment_id ≤ a.queue.active_segment_id + 1

  record NotPut (a : AgentRuntime X) (ps : List Bytes) (r : TelemetryRecord) : Type 0 where
    error : RuntimeError
    result : (ingest r a).0 ≡ err error
    queues : Queues (ingest r a).1.queue ps

  -- How far a list of records got into the queue behind `ps`.
  pub data Stored (a : AgentRuntime X) (ps : List Bytes) (records : List TelemetryRecord)
      (result : Result RuntimeError (Unit {0}) × AgentRuntime X) : Type 0 where
    all_in :
        (payloads : List Bytes) (b : AgentRuntime X)
        → Encodes records payloads
        → Queues b.queue (ps ++ payloads)
        → result ≡ (ok tt, b)
        → Stored a ps records result
    stopped :
        (before later : List TelemetryRecord) (r : TelemetryRecord) (payloads : List Bytes)
        (c b : AgentRuntime X) (e : RuntimeError)
        → records ≡ before ++ (r ∷ later)
        → Encodes before payloads
        → c.config ≡ a.config
        → Queues c.queue (ps ++ payloads)
        → ingest r c ≡ (err e, b)
        → Queues b.queue (ps ++ payloads)
        → result ≡ (err e, b)
        → Stored a ps records result

  module _ (a : AgentRuntime X) (ps : List Bytes)
      (limit : a.config.limits.max_queue_bytes < u64_max) (id : a.queue.active_segment_id < u64_max)
      (h : Queues a.queue ps) where
    Taken-Put :
        (r : TelemetryRecord) (payload : Bytes)
        → encode r ≡ ok payload
        → Taken a payload (ingest r a)
        → Put a ps r
    Taken-Put r payload e t =
        let q : Enqueued payload a.queue ps (enqueue payload a.queue) =
          enqueue-Enqueued payload a.queue ps h t.fits t.room id in
        record {
          payload = payload;
          encodes = e;
          result = t.accepted q.accepted;
          queues = rw t.state.queue q.holds;
          config = t.state.config;
          ids = rw t.state.queue q.ids;
        }

    ingest-Put : (r : TelemetryRecord) → Put a ps r ⊎ NotPut a ps r
    ingest-Put r = elim (ingest-Taken a limit r) [
      | inl (payload, e, t) ↦ inl (Taken-Put r payload e t)
      | inr (e, f, s) ↦ inr (record { error = e; result = f; queues = rw s.queue h })
    ]

  -- The empty list, one refused record, and one record in front of others.
  Stored-nil :
      (a : AgentRuntime X) (ps : List Bytes) → Queues a.queue ps → Stored a ps [] (ok tt, a)
  Stored-nil a ps h = Stored.all_in [] a tt (rw (append-nil ps) h) refl

  Stored-refused :
      (a : AgentRuntime X) (ps : List Bytes) (r : TelemetryRecord) (records : List TelemetryRecord)
      → Queues a.queue ps
      → (n : NotPut a ps r) → Stored a ps (r ∷ records) (err n.error, (ingest r a).1)
  Stored-refused a ps r records h n =
      Stored.stopped [] records r [] a (ingest r a).1 n.error refl tt refl (rw (append-nil ps) h)
        (ap (λ (x : Result RuntimeError (Unit {0})). (x, (ingest r a).1)) n.result)
        (rw (append-nil ps) n.queues) refl

  Stored-cons :
      (a : AgentRuntime X) (ps : List Bytes) (r : TelemetryRecord) (records : List TelemetryRecord)
      (result : Result RuntimeError (Unit {0}) × AgentRuntime X) (t : Put a ps r)
      → Stored (ingest r a).1 (ps ++ (t.payload ∷ [])) records result
      → Stored a ps (r ∷ records) result
  Stored-cons a ps r records result t (Stored.all_in payloads b e q h) =
      Stored.all_in (t.payload ∷ payloads) b (t.encodes, e)
        (subst (λ l. Queues b.queue l) (append_assoc ps (t.payload ∷ []) payloads) q) h
  Stored-cons a ps r records result t
        (Stored.stopped before later s payloads c b e cut en cf q i q' h) =
      Stored.stopped (r ∷ before) later s (t.payload ∷ payloads) c b e
        (ap (λ (l : List TelemetryRecord). r ∷ l) cut) (t.encodes, en) (cf ∙ t.config)
        (subst (λ l. Queues c.queue l) (append_assoc ps (t.payload ∷ []) payloads) q) i
        (subst (λ l. Queues b.queue l) (append_assoc ps (t.payload ∷ []) payloads) q') h

  ingest_records-ok :
      (a : AgentRuntime X) (r : TelemetryRecord) (records : List TelemetryRecord)
      → (ingest r a).0 ≡ ok tt
      → ingest_records (r ∷ records) a ≡ ingest_records records (ingest r a).1
  unfolding ingest_records after_ingest
  ingest_records-ok a r records h =
      ap
        (λ (x : Result RuntimeError (Unit {0})).
          after_ingest (ingest_records records) (x, (ingest r a).1))
        h

  ingest_records-err :
      (a : AgentRuntime X) (r : TelemetryRecord) (records : List TelemetryRecord) (e : RuntimeError)
      → (ingest r a).0 ≡ err e
      → ingest_records (r ∷ records) a ≡ (err e, (ingest r a).1)
  unfolding ingest_records after_ingest
  ingest_records-err a r records e h =
      ap
        (λ (x : Result RuntimeError (Unit {0})).
          after_ingest (ingest_records records) (x, (ingest r a).1))
        h

  ingest_records-Stored :
      (a : AgentRuntime X) (ps : List Bytes) (records : List TelemetryRecord)
      → a.config.limits.max_queue_bytes < u64_max
      → a.queue.active_segment_id + length records < u64_max
      → Queues a.queue ps
      → Stored a ps records (ingest_records records a)
  ingest_records-Stored a ps [] limit ids h = unfold ingest_records in Stored-nil a ps h
  ingest_records-Stored a ps (r ∷ records) limit ids h =
      elim (ingest-Put a ps limit (omega arith) h r) [
        | inl t ↦ rw (ingest_records-ok a r records t.result) (
            Stored-cons a ps r records (ingest_records records (ingest r a).1) t (
              ingest_records-Stored (ingest r a).1 (ps ++ (t.payload ∷ [])) records
                (rw t.config limit) (omega (arith, t.ids)) t.queues))
        | inr n ↦
            rw (ingest_records-err a r records n.error n.result) (Stored-refused a ps r records h n)
      ]

module _ {Req : SignalKind → Type 0}
    (decode_json decode_protobuf : (s : SignalKind) → Bytes → Result Bytes (Req s))
    (to_records : (s : SignalKind) → Bytes → Req s → List TelemetryRecord)
    (encode_json : SignalKind → Result Bytes Bytes) (encode_protobuf : SignalKind → Bytes)
    (tenant_id : Bytes) {X : Type 0} (request : OtlpHttpRequest) (a : AgentRuntime X)
    (ps : List Bytes) where
  abbrev Decodes : (s : SignalKind) → Result Bytes (Req s) → Type 0
  Decodes s r =
      decode_otlp_http_body decode_json decode_protobuf to_records encode_json encode_protobuf
        tenant_id s request
      ≡ r

  abbrev Bears : List TelemetryRecord → Type 0
  Bears =
      Carries decode_json decode_protobuf to_records encode_json encode_protobuf tenant_id request

  -- What a request may do to the runtime `a`, whose queue holds `ps`. A refusal leaves the runtime as it
  -- was. Where all records of the body are taken, there is an answer, and the queue holds their payloads
  -- behind `ps`. Where one is not, there is no answer, and the queue holds those of the records before it.
  pub data Served (r : Result RuntimeError Answer × AgentRuntime X) : Type 0 where
    refused : (answer : Answer) → r ≡ (ok answer, a) → answer.status ≢ okay → Served r
    served :
        (records : List TelemetryRecord) (payloads : List Bytes) (answer : Answer)
        (b : AgentRuntime X)
        → Carries decode_json decode_protobuf to_records encode_json encode_protobuf tenant_id
            request records
        → Encodes records payloads
        → Queues b.queue (ps ++ payloads)
        → r ≡ (ok answer, b)
        → Served r
    lost :
        (before later : List TelemetryRecord) (record' : TelemetryRecord) (payloads : List Bytes)
        (c b : AgentRuntime X) (e : RuntimeError)
        → Carries decode_json decode_protobuf to_records encode_json encode_protobuf tenant_id
            request
            (before ++ (record' ∷ later))
        → Encodes before payloads
        → c.config ≡ a.config
        → Queues c.queue (ps ++ payloads)
        → ingest record' c ≡ (err e, b)
        → Queues b.queue (ps ++ payloads)
        → r ≡ (err e, b)
        → Served r

  ingested-Served :
      (records : List TelemetryRecord) (answer : Answer)
      (r : Result RuntimeError (Unit {0}) × AgentRuntime X)
      → Bears records
      → Stored a ps records r
      → Served (
          ingested decode_json decode_protobuf to_records encode_json encode_protobuf tenant_id
            answer r)
  unfolding ingested
  ingested-Served records answer r c (Stored.all_in payloads b e q h) =
      rw h (Served.served records payloads answer b c e q refl)
  ingested-Served records answer r c
        (Stored.stopped before later s payloads d b e cut en cf q i q' h) =
      rw h (Served.lost before later s payloads d b e (subst Bears cut c) en cf q i q' refl)

  module _ (post : (request.method =text text "POST") ≡ true)
      (limit : a.config.limits.max_queue_bytes < u64_max)
      (ids : (s : SignalKind) (m : Req s)
        → Decodes s (ok m)
        → a.queue.active_segment_id + length (to_records s tenant_id m) < u64_max)
      (h : Queues a.queue ps) where
    decoded-Served :
        (s : SignalKind) (r : Result Bytes (Req s))
        → signal_of_path request.path ≡ some s
        → Decodes s r
        → Served (
            decoded decode_json decode_protobuf to_records encode_json encode_protobuf tenant_id s
              request a r)
    unfolding decoded
    decoded-Served s (err message) q e = Served.refused (plain bad_request message) refl (λ e. cc)
    decoded-Served s (ok m) q e =
        ingested-Served (to_records s tenant_id m)
          (encoded_answer decode_json decode_protobuf to_records encode_json encode_protobuf
            tenant_id s request)
          (ingest_records (to_records s tenant_id m) a)
          (record { post = post; signal = s; path = q; message = m; decodes = e; same = refl })
          (ingest_records-Stored a ps (to_records s tenant_id m) limit (ids s m e) h)

    routed-Served :
        (o : Option SignalKind)
        → signal_of_path request.path ≡ o
        → Served (
            routed decode_json decode_protobuf to_records encode_json encode_protobuf tenant_id
              request a o)
    unfolding routed
    routed-Served none q =
        Served.refused (plain not_found (text "unknown OTLP/HTTP signal path")) refl (λ e. cc)
    routed-Served (some s) q =
        decoded-Served s
          (decode_otlp_http_body decode_json decode_protobuf to_records encode_json encode_protobuf
            tenant_id s request)
          q refl

  -- For a runtime whose queue is in order and holds `ps`, with a quota below the largest 64-bit number
  -- and with segment ids left for the records of the body: a request is refused, with the runtime as it
  -- was and a status that is not 200; or it is a POST to the path of a signal whose body decodes, and
  -- then there is an answer and the queue holds `ps` followed by the payloads of exactly the body's
  -- records, in order; or there is no answer, since one of those records was not taken, and the queue
  -- holds `ps` followed by the payloads of exactly the records before it, in order.
  pub handle_request-Served :
      a.config.limits.max_queue_bytes < u64_max
      → ((s : SignalKind) (m : Req s)
          → decode_otlp_http_body decode_json decode_protobuf to_records encode_json encode_protobuf
              tenant_id s request
            ≡ ok m
          → a.queue.active_segment_id + length (to_records s tenant_id m) < u64_max)
      → Queues a.queue ps
      → Served (
          handle_request decode_json decode_protobuf to_records encode_json encode_protobuf
            tenant_id request a)
  unfolding handle_request
  handle_request-Served limit ids h = elim (Bool-cases (request.method =text text "POST")) [
    | inl post ↦ rw post (routed-Served post limit ids h (signal_of_path request.path) refl)
    | inr other ↦
        rw other
          (Served.refused (plain method_not_allowed (text "method must be POST")) refl (λ e. cc))
  ]
