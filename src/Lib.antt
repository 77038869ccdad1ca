-- ===== src/Lib.antt =====
-- A verification library for the runtime of Durable Actors: stateful actors whose state is kept in
-- object storage, with one owner at a time.
--
-- The parts and how they interact:
-- - An actor has one ownership object in the authority bucket. A host that is to run the actor claims
--   it with a lease, renews the lease while it runs, and releases it in the end; each of these is a
--   compare-and-swap of that object.
-- - The owner writes a state after each request. With Rapid storage, a state is one frame that is
--   appended to a log segment in every zone, and the write is acknowledged once each zone has
--   answered with the size it holds.
-- - When the next owner claims the actor, it reads the log back from the zones that still answer.
-- - The log is archived in batches, each with an index, with which a reader downloads a few records.
-- - An actor may set an alarm, at which the control plane invokes it.
-- - Before a host starts an actor, the control plane reserves a slot of the actor's organization.
-- - The host passes calls to the customer's process over one connection, on which the process calls
--   back for its database, for its connections and for other actors. What becomes of a request is
--   recorded by a tracker.
-- - Browsers connect to actors by sockets; an actor's handlers answer with effects on them.
-- - Hosts report on their actors; out of the reports the residency of actors over time is computed.
--
-- Files and code:
-- - Prelude.antt and Prelude/: results (anyhow::Result), numbers of a fixed width, lists, tests.
-- - Rapid/Frame.antt: src/bucket/rapid/frame.rs. `encode`, `decode`, `frame_length` (`length` there).
--   Rapid/Frame/Laws.antt, Total.antt, RoundTrip.antt and Soundness.antt hold what is proved of them.
-- - Rapid/Segment.antt: src/bucket/rapid/segment.rs, `append`.
-- - Rapid/Replicas.antt: src/bucket/rapid/reader.rs, `read_replicas`. Rapid/Merge.antt: the end of
--   `read_segment` there.
-- - Rapid/Durability.antt: those two over a log and the zones that hold it.
-- - Rapid/Writer.antt: src/bucket/rapid/writer.rs, `open` (`open_session`), `put` and `rotate`.
-- - Rapid/Index.antt: src/bucket/rapid/index.rs, `index_batch`, `validate` and `range`. Laws.antt,
--   Find.antt, Range.antt and Slice.antt below it say which bytes a range is.
-- - Rapid/Archive.antt: src/bucket/rapid/archive.rs, `append` (`append_frame`), `close`, `take_cache` and
--   the branches of the loop of `run`. Backlog.antt and Due.antt below it follow any run of it.
-- - Ownership/Types.antt: the values of src/bucket/runtime.rs, src/host_leases.rs,
--   src/bucket/snapshots.rs and src/storage/stream.rs.
-- - Ownership/Bucket.antt: src/bucket/file.rs, `compare_and_swap`, and src/bucket.rs, `replace`.
-- - Ownership/Loading.antt: `advance` and `load_latest` of src/bucket/runtime.rs.
-- - Ownership/Activation.antt: src/bucket/runtime/activation.rs: `register_activation` (a round of its
--   loop is `attempt`), `renew_activation` up to its write (`renewed`), and a round of
--   `release_with_checkpoint` (`released`). Lawful.antt and Claims.antt hold what is proved of them.
-- - Ownership/Protocol.antt: any number of hosts that claim, renew and release one actor, each over a
--   value of the object that it read at some time before. Exclusion.antt and Takeover.antt below it say who
--   owns the actor then.
-- - Ownership/Uploads.antt: the rest of src/bucket/runtime.rs that writes: `write_snapshot` (as
--   `prepare_write`, `begin_upload` and `finish_upload`, between which other writes may come),
--   `ensure_write_owner`, and what `remember` does to the uploads (`remembered`); and
--   src/bucket/runtime/session.rs.
-- - Lifecycle.antt and Lifecycle/Usage.antt: src/actor_lifecycle.rs, with the memory store of sessions of
--   src/actor_lifecycle/reconciliation.rs. Lifecycle/Residency.antt: src/actor_lifecycle/residency.rs,
--   with the periods of src/placement.rs; Periods.antt, Events.antt, Groups.antt and History.antt below
--   it follow the three loops of `history`.
-- - Alarms.antt and Alarms/Delivery.antt: src/control_plane/alarms.rs, `MemoryAlarmStore`, `claim`,
--   `attempt_with_retries`, `deliver` and the polls of `run`. Alarms/Runs.antt is any sequence of their
--   steps. Due.antt, Order.antt, Matched.antt and Poll.antt say what a poll claims.
-- - Sockets.antt and Sockets/Registry.antt, Effects.antt: src/sockets/mod.rs, the connections of browsers to
--   actors. Validation.antt: src/actor/socket.rs. Operations.antt: src/sockets/operations.rs,
--   src/host/sockets.rs and `dispatch` of src/sockets/browser.rs, with `deliver` of the gateway's
--   dispatcher in src/control_plane/socket_gateway.rs: it spawns the publication of the effects on the bus,
--   whose way to the registries is left out. Session.antt: the rest of browser.rs.
-- - Admission.antt: src/control_plane/organization_limits/memory.rs, with the types of
--   organization_limits.rs beside it; Pruning.antt and Quota.antt below it follow `reserve`.
--   Admission/Limits.antt: the limits that file reads.
--   The clock and the retention are arguments of each call.
-- - Executor.antt and Executor/State.antt, Driver.antt, Loop.antt: src/actor/executor_connection.rs, what
--   the host and the customer's process say to each other, `ExecutorDriver` and its loop. Moves.antt and
--   Rounds.antt are what a round does to the calls; Specification.antt is an abstract view of them.
-- - Tracking.antt: src/request_tracking.rs, what is recorded of a request.
-- - Examples/: the theorems at concrete inputs.
--
-- State: `Segment` has the fields that `append` reads and writes. `Log` adds the bytes that each zone
-- holds, the records whose append returned, and the one whose append failed. `World` is an ownership
-- object with the time and its past values.
--
-- Bounds and fuel: numbers are natural numbers, and each checked addition of the code has its bound
-- written out (`checked_add` for 64 bits). `decode` recurses on fuel; every round takes a whole header
-- off the input, so one round more than there are bytes is enough, which is proved. `trim_ascii_end` is given as many
-- rounds as the document has bytes.
--
-- Parameters: the SHA-256 digest is a function whose results have 32 bytes; JSON values are a type with
-- the few tests that the validation asks for; the arithmetic of f64, and the services that an executor
-- asks, are operations and types that are given. Storage, clocks, UUIDs and the transport are the
-- environment's: arguments, or steps of a relation, which may lose an answer or send a request twice.
--
-- Not modelled: network and file input and output, SQLite and Litestream, processes and sandboxes, the
-- databases, HTTP, telemetry, and the SDKs.
pub mod Prelude
pub mod Rapid
pub mod Ownership
pub mod Lifecycle
pub mod Alarms
pub mod Sockets
pub mod Admission
pub mod Executor
pub mod Tracking
pub mod Examples
