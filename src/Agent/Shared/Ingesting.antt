-- ===== src/Agent/Shared/Ingesting.antt =====
-- `ingest`, as the queue sees it.
use telemetry_fabric.Prelude.{
  ℕ, ◌+◌, ◌<◌, ◌^◌, ◌≡◌, refl, ◌⊎◌, inl, inr, true, false, ltb, length, Bool-cases, arith,
}
use telemetry_fabric.Prelude.Words.{u64_max, saturating_add_u64}
use telemetry_fabric.Prelude.Result.{Result, ok, err, Result-cases}
use telemetry_fabric.Std.Bytes.{Bytes}
use telemetry_fabric.Core.Error.{TelemetryError}
use telemetry_fabric.Core.Telemetry.{TelemetryRecord, validate, encode}
use telemetry_fabric.Buffer.Queue.{DiskQueue, enqueue, storage_bytes_for_payload}
use telemetry_fabric.Buffer.Log.{IsPayload}
use telemetry_fabric.Buffer.Enqueueing.{record_len}
use telemetry_fabric.Agent.Runtime.{
  AgentRuntime, RuntimeError, queue_full, admit, admit_sized, admit_encoded, admit_valid,
  ingest_inner, ingest,
}

storage-fits :
    (payload : Bytes) (n : ℕ)
    → storage_bytes_for_payload (length payload) ≡ ok n
    → IsPayload payload × (n ≡ record_len payload)
unfolding storage_bytes_for_payload
storage-fits payload n h = ground arith

abbrev pub Answer : Type 0 → Type 0
Answer X = Result RuntimeError (Unit {0}) × AgentRuntime X

module _ {X : Type 0} where
  -- The queue is this, and what else a flush depends on is as it was.
  pub record Became (q : DiskQueue) (a b : AgentRuntime X) : Type 0 where
    pub queue : b.queue ≡ q
    pub config : b.config ≡ a.config
    pub in_progress : b.flush_in_progress ≡ a.flush_in_progress

  -- A payload that was taken: it fits, and the queue is as `enqueue` left it.
  pub record Taken (a : AgentRuntime X) (payload : Bytes) (r : Answer X) : Type 0 where
    pub fits : IsPayload payload
    pub room : a.queue.queued_bytes + record_len payload < 2 ^ 64
    pub accepted : (enqueue payload a.queue).0 ≡ ok tt → r.0 ≡ ok tt
    pub state : Became (enqueue payload a.queue).1 a r.1

  -- A record that was refused.
  abbrev pub Refused : AgentRuntime X → Answer X → Type 0
  Refused a r = (e : RuntimeError) × (r.0 ≡ err e) × Became a.queue a r.1

  same : (a : AgentRuntime X) → Became a.queue a a
  same a = record { queue = refl; config = refl; in_progress = refl }

  module _ (a : AgentRuntime X) (limit : a.config.limits.max_queue_bytes < u64_max) where
    admit-full :
        (payload : Bytes) (n : ℕ)
        → ltb a.config.limits.max_queue_bytes (saturating_add_u64 a.queue.queued_bytes n) ≡ true
        → admit payload n a
          ≡ (err (queue_full a.queue.queued_bytes n a.config.limits.max_queue_bytes), a)
    unfolding admit
    admit-full payload n h = rw h refl

    admit-room :
        (payload : Bytes) (n : ℕ)
        → ltb a.config.limits.max_queue_bytes (saturating_add_u64 a.queue.queued_bytes n) ≡ false
        → ((enqueue payload a.queue).0 ≡ ok tt → (admit payload n a).0 ≡ ok tt)
          × ((admit payload n a).1 ≡ record a { queue = (enqueue payload a.queue).1 })
    unfolding admit
    admit-room payload n h = rw h ((λ e. rw e refl), refl)

    admit-Taken :
        (payload : Bytes) (n : ℕ)
        → storage_bytes_for_payload (length payload) ≡ ok n
        → Taken a payload (admit payload n a) ⊎ Refused a (admit payload n a)
    admit-Taken payload n h =
        let (fits, size) = storage-fits payload n h in
        elim (Bool-cases
          (ltb a.config.limits.max_queue_bytes (saturating_add_u64 a.queue.queued_bytes n))) [
            | inl full ↦ rw (admit-full payload n full) (inr (_, refl, same a))
            | inr room ↦
                let (accepted, state) = admit-room payload n room in
                inl (record {
                  fits = fits;
                  room = ground (arith, limit, room, size);
                  accepted = accepted;
                  state = rw state (record { queue = refl; config = refl; in_progress = refl });
                })
          ]

    admit_sized-Taken :
        (payload : Bytes)
        → let r = admit_sized payload (storage_bytes_for_payload (length payload)) a in
          Taken a payload r ⊎ Refused a r
    unfolding admit_sized
    admit_sized-Taken payload = elim (Result-cases (storage_bytes_for_payload (length payload))) [
      | inl (n, h) ↦ rw h (admit-Taken payload n h)
      | inr (e, h) ↦ rw h (inr (_, refl, same a))
    ]

    admit_encoded-Taken :
        (r : Result TelemetryError Bytes)
        → ((payload : Bytes) × (r ≡ ok payload) × Taken a payload (admit_encoded r a))
          ⊎ Refused a (admit_encoded r a)
    unfolding admit_encoded
    admit_encoded-Taken (err e) = inr (_, refl, same a)
    admit_encoded-Taken (ok payload) = elim (admit_sized-Taken payload) [
      | inl t ↦ inl (payload, refl, t)
      | inr f ↦ inr f
    ]

    admit_valid-Taken :
        (r : TelemetryRecord) (v : Result TelemetryError (Unit {0}))
        → ((payload : Bytes) × (encode r ≡ ok payload) × Taken a payload (admit_valid r v a))
          ⊎ Refused a (admit_valid r v a)
    unfolding admit_valid
    admit_valid-Taken r (err e) = inr (_, refl, same a)
    admit_valid-Taken r (ok u) = admit_encoded-Taken (encode r)

    -- `ingest` takes a record in the form that `encode` gives it, or refuses it.
    pub ingest-Taken :
        (r : TelemetryRecord)
        → ((payload : Bytes) × (encode r ≡ ok payload) × Taken a payload (ingest r a))
          ⊎ Refused a (ingest r a)
    unfolding ingest ingest_inner
    ingest-Taken r = elim (admit_valid-Taken r (validate r a.config.limits.max_record_bytes)) [
      | inl (payload, e, t) ↦ inl (
        payload,
        e,
        record {
          fits = t.fits;
          room = t.room;
          accepted = t.accepted;
          state = record {
            queue = t.state.queue;
            config = t.state.config;
            in_progress = t.state.in_progress;
          };
        },
      )
      | inr (e, h, s) ↦
          inr (e, h, record { queue = s.queue; config = s.config; in_progress = s.in_progress })
    ]
