-- ===== src/Lib.antt =====
-- artzain keeps prebuilt binaries running to a manifest: `artzain up` runs one loop that compares the
-- processes with the file, and starts, stops, probes and rolls them. This library models that
-- program's logic. Paths are given from the repository's root.
--
-- The parts and their files:
--   Prelude      shared types, tests, lists and dictionaries. A `BTreeMap` is an association list in
--                the order of its keys (Prelude/Dict), a `HashSet` a list without repetitions.
--   Words        machine words: `as u16`, u16 and u32 sums and differences that wrap, saturating
--                products.
--   Manifest     crates/artzain-core/src/manifest.rs: the types and their defaults; Validate is
--                `validate`, AppOrder `apps_ordered`, Interpolate `interpolate_vars`, Load `load`
--                and `parse`, Accounts `lookup_user` and `lookup_group`.
--   State        crates/artzain-core/src/state.rs: phases and the observable state.
--   Process      crates/artzain-core/src/process.rs: handles, spawn requests, signals as effects; Child is
--                `spawn` with its pre-exec closure, Streams the tag, `stream_logs` and
--                `port_listeners`.
--   LogWriter    `log_writer` and `rotate_log` of that file, over the numbered files of one log.
--   LogReader    crates/artzain/src/logs.rs: `log_files`, `tail` and `follow`.
--   Disk, Paths  crates/artzain-core/src/paths.rs: `ensure_private_dir`, `write_private_file` and the
--                opening of a log file, over a disk.
--   Probe        crates/artzain-core/src/probe.rs: `status_ok`, the request, `http_once`, `tcp_once`.
--   Plan         crates/artzain-core/src/lib.rs: `plan` and `read_status`.
--   Systemd      crates/artzain/src/systemd.rs, and `generate_systemd` of main.rs beside it.
--   Fixture      crates/artzain-fixture/src/main.rs: what the test app answers.
--   Lock         crates/artzain-core/src/lock.rs: `acquire`, `read`, `drop` and the liveness test.
--   Cli          crates/artzain/src/main.rs: `down` and the test of `status --check`; Status is
--                `print_status`, Logs `print_logs`, Guarded what `down` signals and leaves.
--   Reconcile    crates/artzain-core/src/reconcile.rs. Select is `select_apps`; Instance a process
--                slot, `begin_stop` and `backoff_delay`; Spec the environment and `spec_hash`;
--                Reconciler the state of the loop; Reap `reap`; Slots `desired_slots` and
--                `surge_port_for`; Stops `terminate_undesired` and `stop_check_blocked`; Roll
--                `roll_stale` and `retire_stale_surplus`; Launch `spawn_missing` and `spawn`; Probes
--                `probe` and `reverify_checks`; Tick `reconcile`, which composes these; Reload
--                `maybe_reload`; Snapshot `snapshot`; Run `run_until` and `teardown`; Startup
--                `verify_checks`, `reclaim_orphans` and `up` until its loop; Sound the invariant
--                of an instance; Kills what a tick signals.
--   Tests        small inputs, and the theorems applied to them.
-- A module's children hold the lemmas about it.
--
-- How they interact: `load` gives a manifest that `select_apps` and the state of the loop are made of.
-- A turn of `run_until` reloads and reconciles, and writes a snapshot; a tick runs its operations in
-- the source's order, each on the state that the one before it left. What an operation does to the
-- system (a signal, a child killed because its handle is dropped) is a list of effects next to it.
--
-- The world outside: a tick gets a `World` with the answers of `try_wait`, of spawning and of the
-- probes, and a clock reading for each place where the source reads the clock. An `Instant` and a
-- `Duration` are numbers of milliseconds. The account database, the toml and serde crates, the
-- standard library's hasher and paths, the variables of the parent process, and what reading a
-- file gives are parameters. Arithmetic is a release build's: sums wrap; only `plan` is modelled in
-- both builds. The kernel of the pre-exec closure, the outcomes of file calls, the account database's
-- calls, the peer of a probe and `String::from_utf8_lossy` are parameters too.
--
-- Loops: `apps_ordered` runs on a fuel of one more than the number of apps, `select_apps` on the
-- number of named apps and dependencies, `interpolate_vars` on one more than the text's length.
-- `run_until` counts the source's own `max_steps`. The waiting loops of `teardown` and
-- `reclaim_orphans` run for the passes that they are given: the source goes on until the children
-- have exited, the second at most until its deadline. `follow` runs for the rounds that are given: in the
-- source it never ends. `lookup_user` and `lookup_group` double their buffer on fuel; as many rounds as
-- the entry has bytes, and one, are enough. `surge_port_for` counts the ports up to 65535.
--
-- Not modelled: the parsing of the command line, of TOML and of JSON (the clap, toml and serde crates),
-- the padding of printed tables, the interleaving of the two output streams of a child (the writer gets
-- the lines in the order of the channel), the shutdown signal, and the tasks of the test app that crash
-- it or print lines: input and output with little state. The memory for the lines of `tail` is taken
-- to suffice where it can be asked for. The calls of `Lock` are single steps, though
-- the source reads and then writes; the replacement of a file is a part of its own (Paths).
pub mod Prelude
pub mod Words
pub mod Manifest
pub mod State
pub mod Disk
pub mod Paths
pub mod LogWriter
pub mod LogReader
pub mod Probe
pub mod Plan
pub mod Fixture
pub mod Systemd
pub mod Lock
pub mod Cli
pub mod Process
pub mod Reconcile
pub mod Tests
