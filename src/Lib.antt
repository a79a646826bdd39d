-- ===== src/Lib.antt =====
-- OPad: a two-key osu! pad (firmware in C) with its desktop software in Rust. A background service, the
-- daemon, talks to the pad over USB serial, hears the game's telemetry from tosu, keeps the press
-- counters and the tap statistics in a database, and serves a GUI and a CLI. This library models the
-- daemon's decisions and the shared crates under it.
--
-- The parts and the files that model them:
-- - Protocol (desktop/crates/opad-protocol/src/lib.rs): the two framings, `header`, `resync`,
--   `encode_frame`, `decode_frame` and the public encoders and decoders. A buffer is a list of bytes; the
--   protobuf crate is the record `Codec`, with its length and its round trip as laws. `resync` runs on
--   fuel, one more than the buffer's length, and each round drops a byte or ends. Header, Resync,
--   RoundTrip and Stream hold the proofs.
-- - Model (desktop/crates/opad-model/src/lib.rs, result_anim.rs; `reconcile_counters` of
--   desktop/crates/opad-storage/src/lib.rs; `counter_reset` of desktop/daemon/src/sync.rs): pins, swipe
--   actions, Hall Effect thresholds, the configuration and its checks, the counters, the backup
--   document and its checks (Backup, with Export, Names and Accepted). The binary search of
--   `he_min_actuation` runs on the fuel 1000, the length of its range.
-- - Tap (desktop/crates/opad-model/src/tap_rate.rs): `ChannelTracker`, `AttemptTracker` and the values
--   that they show. `f64` is the record `Float` of operations, of which nothing is assumed.
-- - Layout (desktop/crates/opad-layout/src/lib.rs, desktop/crates/opad-model/src/ui_source.rs): widgets,
--   layouts, their checks and hit test. An `i16` sum wraps.
-- - Daemon (desktop/daemon/src): `DataSync` (telemetry.rs, Telemetry, Maps, Flush), the shared state (runtime.rs,
--   State), events and actions (Events), the controller's fields and start (Controller, with
--   identity.rs), the attempt's helpers (Attempts), the handlers of `on_event` (Connect, Device, Tosu,
--   Tick) and `on_event` with `apply_event` (Dispatch). A handler is a chain of pieces, each a step from
--   the controller to the next one and the list of actions it pushes (Step). The clocks, the uuid parser
--   and the order of a hash set are the record `Env`. Steady says what each piece leaves as it is;
--   Writes, Owner, Invariant, Ending and Hello put the pieces together.
-- - Update (desktop/crates/opad-update/src): the order of versions (version.rs, Version; texts are lists
--   of code points, the loop over runs has one more round than characters), the gate (gate.rs), the
--   install's origin (origin.rs), the feed and its checks (manifest.rs), the rollout (rollout.rs), the
--   schedule (schedule.rs), the client (client.rs, with the server, signatures, JSON and dates as the
--   record `Net`), and the plans of firmware.rs, tosu.rs and app.rs. Fits, Offers, Blockers, Replay,
--   Accepted and Waits hold the proofs.
-- - Service: the rows of the database behind the write guard (desktop/crates/opad-storage/src/lib.rs,
--   Store; SQL is given by its effect on the rows), what the tasks share with the pad's answers (Link)
--   and `perform_sync` (desktop/daemon/src/sync.rs, Sync). At each wait the record `Outside` says what
--   the other tasks do to the shared state; a sync has three attempts. Agreed, Outcome and Failure hold
--   the proofs. Requests models the requests of desktop/daemon/src/ipc_handlers.rs on settings (Settings),
--   counters (Presses), the two prompts (Owner), a backup (Import), what is saved at once (Preferences)
--   and single commands to the pad (Commands), put together in Handle; Quiet, Gated, Guarded and
--   Takeover hold the proofs. The texts of responses are shortened.
-- - Prelude: the names shared by all, lists and integers over native numbers, `Result`.
--
-- An `Instant` is a count of nanoseconds; its subtraction stops at 0 as `duration_since` does, and
-- `checked_sub` fails below 0. `u32` and `u64` arithmetic that wraps or saturates is written out. A
-- `HashMap` is an association list. The daemon's own log lines are left out.
--
-- Not modelled: the GUI, the CLI, the IPC transport, the handshake and the requests that only read,
-- flash or start an update, the live key view, the serial port, flashing, the tosu client, SQL's execution, migrations, downloads
-- and the files that an update writes, the updaters' worker, the daemon's tasks and channels (operating
-- system, libraries, or left for a later extension), and the pad's firmware, which is C.
pub mod Prelude
pub mod Protocol
pub mod Model
pub mod Tap
pub mod Layout
pub mod Update
pub mod Daemon
pub mod Service
