-- ===== src/Tests/Running.antt =====
-- Reloading, the run loop, the lock and the command line.
use artzain.Prelude.{◌≡◌, refl, Bool, true, false, List, [], ◌∷◌, All, nat_eq}
use artzain.Manifest.Load.{Loaded}
use artzain.Manifest.Load
use artzain.State.{ClusterState}
use artzain.Lock.{Lock, LockFile, Kill}
use artzain.Lock
use artzain.Lock.Exclusive.{Op, take, release}
use artzain.Reconcile.Reload.{new}
use artzain.Reconcile.Snapshot.{snapshot}
use artzain.Reconcile.Snapshot.Counts.{IsCounted, snapshot-IsCounted}
use artzain.Reconcile.Run.{run_until}
use artzain.Reconcile.Run.Loop.{Stops, run_until-AllSound, run_until-Stops}
use artzain.Reconcile.Sound.{AllSound}
use artzain.Reconcile.Startup.{Outset, Started, begun, start, StateFile, Reclaimed}
use artzain.Reconcile.Startup
use artzain.Reconcile.Startup.LockKept.{LockLeft, start-LockLeft}
use artzain.Tests.Sample.{
  fresh_loop, stale_loop, plain_paths, item_count, own_lock, quiet_turn, orphaned, small_loop,
  after_start,
}

snapshot-IsCounted_example :
    All (IsCounted stale_loop.instances) (snapshot 500 7 42 stale_loop).apps
snapshot-IsCounted_example =
    snapshot-IsCounted 500 7 42 stale_loop ((refl, (refl, tt)), ((refl, tt), (tt, tt)))

abbrev never : ClusterState → Bool
never s = false

run_until-AllSound_example :
    AllSound
      (run_until item_count plain_paths 42 true never 3 (λ n. quiet_turn) fresh_loop).reconciler
run_until-AllSound_example =
    run_until-AllSound item_count plain_paths 42 true never 3 (λ n. quiet_turn) fresh_loop tt

run_until-Stops_example :
    Stops item_count plain_paths 42 true never 3
      (λ n. quiet_turn)
      fresh_loop
      (run_until item_count plain_paths 42 true never 3 (λ n. quiet_turn) fresh_loop)
run_until-Stops_example =
    run_until-Stops item_count plain_paths 42 true never 3 (λ n. quiet_turn) fresh_loop

-- Process 7 takes the lock, gives it up, and process 8 takes it.
abbrev takes : List Op
takes = take (own_lock 7) true ∷ release (own_lock 7) ∷ take (own_lock 8) true ∷ []

-- The state file of a dead owner is there.
started_after_crash : start orphaned ≡ begun small_loop Lock.absent Startup.absent after_start
unfolding start new
started_after_crash = refl

start-LockLeft_example : LockLeft orphaned Lock.absent
start-LockLeft_example =
    start-LockLeft orphaned small_loop Lock.absent Startup.absent after_start started_after_crash
