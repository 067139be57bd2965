-- ===== src/Reconcile/Kills.antt =====
-- crates/artzain-core/src/reconcile.rs: when a tick sends SIGKILL.
pub mod Gentle
pub mod Later
pub mod Reaped
pub mod Late
