-- ===== src/Lib.antt =====
-- Telemetry Fabric: the Rust data plane (crates/).
--
-- An agent receives traces, metrics and logs, encodes each as a record, puts it into a queue on
-- disk, and flushes the queue in batches: records are read back, pass a chain of processors, and
-- go to the exporters that the configuration routes their signal to. A batch is committed when its
-- export is done, so that what fails is read again.
--
-- The parts, and the files that model them:
--
--   crates/telemetry-core/src/error.rs         Core/Error.antt: the errors and their texts
--   crates/telemetry-core/src/telemetry.rs     Core/Telemetry.antt: records, `encode` and `decode`;
--                                              Input.antt: the `Cursor` that `decode` reads with
--   crates/telemetry-core/src/config.rs        Core/Config.antt: configuration and `validate`
--                                              (`validate_config` here)
--   crates/telemetry-core/src/routing.rs       Core/Routing.antt: `Router::exporters_for`
--   crates/telemetry-buffer/src/lib.rs         Buffer.antt: Files (the directory), Frame (a record
--                                              in a segment), CursorFile, Error, Queue (`DiskQueue`)
--   crates/telemetry-processors/src/lib.rs     Processors.antt: the chain and its processors
--   crates/telemetry-agent/src/config_file.rs  Agent/ConfigFile.antt: from the parsed file to a
--                                              configuration; the YAML parser is a parameter
--   crates/telemetry-agent/src/runtime.rs      Agent/Runtime.antt: `AgentRuntime`: ingest, health,
--                                              counters and metrics; Export.antt: `export_records`
--                                              with its retries; Flush.antt: `flush`; Setup.antt:
--                                              `open` and `reload_config`; Shared.antt: the two locked
--                                              parts of `flush_shared`
--   crates/telemetry-agent/src/otlp_http.rs    Agent/OtlpHttp.antt: reading a request from a
--                                              stream; Handler.antt: from the request to the answer
--   crates/telemetry-agent/src/control_client.rs
--                                              Agent/ControlClient.antt: requests, answers and the
--                                              checks on an update; Sha256.antt: SHA-256 and HMAC
--   crates/telemetry-agent/src/main.rs         Agent/Args.antt: the command line and the
--                                              configuration; ControlWorker.antt: the control task
--                                              and draining; HealthServer.antt: the health endpoint
--   crates/telemetry-exporters/src/lib.rs      Exporters.antt: errors, identifiers, endpoints
--                                              and requests (Http, Endpoint), names for
--                                              Prometheus (Sanitize), the Snappy encoder;
--                                              records to OTLP messages (Attributes, Spans,
--                                              Logs, Metrics, Points) and to a remote write
--                                              request (Prometheus)
--   crates/telemetry-otlp/src/lib.rs           Otlp.antt: Messages (the OTLP messages), Values
--                                              (values as text), Records, Metrics and Requests
--                                              (messages to records)
--
-- Prelude.antt has the helpers that all of them share, Std.antt what they use of Rust's standard
-- library: little-endian bytes, bit operations, UTF-8, decimal and signed numbers, text and
-- lines. The other files are proofs.
--
-- How the code is read:
-- - Text and byte vectors are lists of numbers below 256; a `String` is such a list, in UTF-8.
-- - A machine integer is a native number, with its wrap-around, saturation or overflow check
--   written out. `usize` is 64 bits.
-- - A method with `&mut self` takes the state last and returns it with the result, after an error
--   too, with what was changed up to there. `Option` and `Result` are values.
-- - The directory of a disk queue is a value: segments by id, in order, quarantined segments, and
--   the two cursor files. `File::create`, `append`, `rename` and `remove_file` are functions on it.
-- - Loops are recursion on a list where the code goes over one. The two loops of the disk queue that
--   have no such list take fuel: `read_fuel` is the room in the batch, plus the number of segments,
--   plus three; a loop without fuel returns the error `diverged`, which the program does not have.
--   On a queue in order the fuel is enough: the theorem on `read_batch` yields a batch.
-- - A clock, a sink that takes payloads, and the exporters are arguments. An exporter is a value with
--   a state; a timeout is one of the outcomes of its call.
-- - Threads meet at the lock of the runtime: a locked part is one step of a relation (Agent/Shared),
--   and a cancelled flush task is a step that drops what it had prepared.
--
-- - A connection is the list of what its reads return. The decoding of OTLP bodies, the YAML parser that
--   reads the control plane's answers, and the exchange of bytes with it are arguments.
-- - An OTLP message is a record; spans and log records have all their fields, those too that the agent
--   loses (Otlp/Messages says what is left out of the others). `f64` is an interface,
--   Otlp.Messages.Floats, and the names of `AggregationTemporality` are an argument. A conversion
--   to a record takes the clock last, so that a request is a list of records that wait for theirs.
-- - One tick of the control task is a step with no other task in between. Draining takes a number of
--   rounds; where they are used up, or another flush does not end, it is `unfinished`.
--
-- Not modelled: errors and crashes of the file system and the order in which it syncs; sockets, TLS,
-- signals, threads and what is printed; the gRPC receiver, whose services are generated; what an
-- exporter does with a batch, which is a parameter; the protobuf encoding of OTLP and remote write
-- messages; and the control plane, which is not Rust.
pub mod Prelude
pub mod Std
pub mod Core
pub mod Buffer
pub mod Processors
pub mod Otlp
pub mod Exporters
pub mod Agent
