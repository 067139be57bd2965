-- ===== src/Reconcile/Kills/Late.antt =====
-- crates/artzain-core/src/reconcile.rs: SIGKILL follows a stop whose grace period is over.
use artzain.Prelude.{
  ◌+◌, ◌≡◌, refl, Bool, true, false, List, ◌++◌, if◌then◌else◌, ltb, All-append, subst,
}
use artzain.State.{phase_eq}
use artzain.Process.{Effect}
use artzain.Reconcile.Spec.{Hasher}
use artzain.Reconcile.Slots.{desired_slots}
use artzain.Reconcile.Launch.{Paths, spawn_missing}
use artzain.Reconcile.Reconciler.{Reconciler, World}
use artzain.Reconcile.Reap.{reap}
use artzain.Reconcile.Stops.{terminate_undesired, stop_check_blocked}
use artzain.Reconcile.Roll.{roll_stale, retire_stale_surplus}
use artzain.Reconcile.Probes.{probe, check_verify_period, reverify_checks, verify_all}
use artzain.Reconcile.Tick.{settle, reconcile}
use artzain.Reconcile.Kills.Gentle.{terminate_undesired-Gentle, stop_check_blocked-Gentle}
use artzain.Reconcile.Kills.Reaped.{KillIsLate, KillsAreLate, Gentle-KillsAreLate, reap_late}
use artzain.Reconcile.Kills.Later.{roll_stale-Gentle, retire_stale_surplus-Gentle, probe-Gentle}

reverify_checks-instances :
    (w : World) (r : Reconciler) → (reverify_checks w r).instances ≡ r.instances
unfolding reverify_checks
reverify_checks-instances w r = by_time (ltb w.verify_at r.next_check_verify)
  where
    Same : Reconciler → Type 0
    Same s = s.instances ≡ r.instances

    by_time :
        (b : Bool)
        → Same (
            if b then r else record r {
              next_check_verify = w.verify_at + check_verify_period;
              checks_ok = verify_all w r.manifest.checks r.checks_ok;
            })
    by_time true = refl
    by_time false = refl

settle_late :
    (hasher : Hasher) (w : World) (r : Reconciler)
    → KillsAreLate w 0 r.instances (settle hasher w r).1
unfolding settle
settle_late hasher w r =
    let Late : List Effect → Type 0 = KillsAreLate w 0 r.instances in
    let gentle = Gentle-KillsAreLate w 0 r.instances in
    let both = All-append (KillIsLate w 0 r.instances) in
    let verified = reverify_checks w r in
    let reaped = reap w verified in
    let desired = desired_slots hasher reaped.0 in
    let kept = terminate_undesired w desired reaped.0 in
    let unblocked = stop_check_blocked w kept.0 in
    let rolled = roll_stale w desired unblocked.0 in
    let first : Late reaped.1 =
      subst (λ l. KillsAreLate w 0 l reaped.1) (reverify_checks-instances w r)
        (reap_late w verified) in
    both reaped.1 (kept.1 ++ (unblocked.1 ++ rolled.1)) first (
      both kept.1 (unblocked.1 ++ rolled.1)
        (gentle kept.1 (terminate_undesired-Gentle w desired reaped.0))
        (both unblocked.1 rolled.1 (gentle unblocked.1 (stop_check_blocked-Gentle w kept.0))
          (gentle rolled.1 (roll_stale-Gentle w desired unblocked.0))))

-- A SIGKILL that a tick sends to a process group is for the group of an instance of the list that the
-- tick began with, which was being stopped, whose deadline is not after the tick's reading of the clock,
-- and whose process `try_wait` still finds running. The kill of a child whose handle is dropped
-- (`kill_on_drop`) is not meant.
pub reconcile-KillsAreLate :
    (hasher : Hasher) (paths : Paths) (w : World) (r : Reconciler)
    → KillsAreLate w 0 r.instances (reconcile hasher paths w r).1
unfolding reconcile
reconcile-KillsAreLate hasher paths w r =
    let gentle = Gentle-KillsAreLate w 0 r.instances in
    let both = All-append (KillIsLate w 0 r.instances) in
    let settled = settle hasher w r in
    let desired = desired_slots hasher settled.0 in
    let launched = spawn_missing hasher paths w desired settled.0 in
    let retired = retire_stale_surplus w desired launched in
    let probed = probe w retired.0 in
    both settled.1 (retired.1 ++ probed.1) (settle_late hasher w r) (
      both retired.1 probed.1 (gentle retired.1 (retire_stale_surplus-Gentle w desired launched))
        (gentle probed.1 (probe-Gentle w retired.0)))
