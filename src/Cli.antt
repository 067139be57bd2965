-- ===== src/Cli.antt =====
-- crates/artzain/src/main.rs: `down` and the test of `status --check`. The state file is seen as what
-- `read_status` gives, the lock file as what `Lock::read` gives.
pub mod Status
pub mod Logs
pub mod Guarded
use artzain.Prelude.{
  ℕ, ◌≡◌, refl, Bool, true, false, Option, none, some, if◌then◌else◌, any, ltb, ◌==◌, nat_eq, arith,
}
use artzain.State.{ClusterState}
use artzain.Lock.{Lock, LockFile, Kill, is_pid_alive, is_delivered, Read, read, drop_lock}
use artzain.Lock

pub data Down : Type 0 where
  -- SIGTERM was sent to the owner.
  signalled : (pid : ℕ) → Down
  no_cluster owner_dead lock_differs no_lock lock_unread not_signalled : Down

-- The signal, and whether it could be sent.
abbrev pub signal_owner : (sigterm : ℕ → Kill) → ℕ → Down
signal_owner sigterm pid = if is_delivered (sigterm pid) then signalled pid else not_signalled

abbrev pub guarded : (kill_zero sigterm : ℕ → Kill) → ClusterState → Read → Down
guarded kill_zero sigterm s (Lock.found l) =
    if l.pid == s.owner_pid
    then (if is_pid_alive kill_zero s.owner_pid
        then signal_owner sigterm s.owner_pid
        else owner_dead)
    else lock_differs
guarded kill_zero sigterm s Lock.none_there = no_lock
guarded kill_zero sigterm s _ = lock_unread

-- The lock that `Lock::read` gives is dropped at the end of the `match`, or by an early return.
unfoldable pub lock_after : Read → LockFile → LockFile
unfolding drop_lock
lock_after (Lock.found l) file = drop_lock l file
lock_after _ file = file

-- The answer, and the lock file that is left.
unfoldable pub down :
    (kill_zero sigterm : ℕ → Kill)
    → (force : Bool) → Option ClusterState
    → LockFile
    → Down × LockFile
unfolding read lock_after
down kill_zero sigterm force none file = (no_cluster, file)
down kill_zero sigterm force (some s) file =
    if force
    then (signal_owner sigterm s.owner_pid, file)
    else (guarded kill_zero sigterm s (read file), lock_after (read file) file)

-- `status --check` exits with 1.
unfoldable pub check_fails : ClusterState → Bool
check_fails s = any (λ a. ltb a.ready a.desired) s.apps
