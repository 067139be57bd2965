-- ===== src/Reconcile.antt =====
-- crates/artzain-core/src/reconcile.rs: the control loop.
pub mod Select
pub mod Instance
pub mod Reconciler
pub mod Reap
pub mod Reload
pub mod Slots
pub mod Stops
pub mod Roll
pub mod Launch
pub mod Probes
pub mod Tick
pub mod Snapshot
pub mod Run
pub mod Startup
pub mod Sound
pub mod Spec
pub mod Kills
