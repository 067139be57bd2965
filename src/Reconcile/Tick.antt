-- ===== src/Reconcile/Tick.antt =====
-- crates/artzain-core/src/reconcile.rs: `Reconciler::reconcile`, one tick of the control loop.
pub mod Converged
pub mod Cover
pub mod Stay
use artzain.Prelude.{List, ◌++◌}
use artzain.Process.{Effect}
use artzain.Reconcile.Spec.{Hasher}
use artzain.Reconcile.Reconciler.{Reconciler, World}
use artzain.Reconcile.Reap.{reap}
use artzain.Reconcile.Slots.{desired_slots}
use artzain.Reconcile.Stops.{terminate_undesired, stop_check_blocked}
use artzain.Reconcile.Roll.{roll_stale, retire_stale_surplus}
use artzain.Reconcile.Launch.{Paths, spawn_missing}
use artzain.Reconcile.Probes.{reverify_checks, probe}

-- The first half: until the second reading of the desired slots.
unfoldable pub settle : Hasher → World → Reconciler → Reconciler × List Effect
settle hasher w r =
    let (reaped, e1) = reap w (reverify_checks w r) in
    let desired = desired_slots hasher reaped in
    let (kept, e2) = terminate_undesired w desired reaped in
    let (unblocked, e3) = stop_check_blocked w kept in
    let (rolled, e4) = roll_stale w desired unblocked in (rolled, e1 ++ (e2 ++ (e3 ++ e4)))

unfoldable pub reconcile : Hasher → Paths → World → Reconciler → Reconciler × List Effect
unfolding settle
reconcile hasher paths w r =
    let (settled, e1) = settle hasher w r in
    let desired = desired_slots hasher settled in
    let launched = spawn_missing hasher paths w desired settled in
    let (retired, e2) = retire_stale_surplus w desired launched in
    let (probed, e3) = probe w retired in (probed, e1 ++ (e2 ++ e3))
