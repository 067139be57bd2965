-- ===== src/Cli/Guarded.antt =====
-- crates/artzain/src/main.rs: when `down` signals a process, and what it leaves of the lock file.
use artzain.Prelude.{ℕ, ◌≡◌, ◌<◌, ◌⊎◌}
use artzain.State.{ClusterState}
use artzain.Lock.{Lock, LockFile, Kill, delivered, no_permission, no_process, drop_lock}
use artzain.Lock

-- Both files name the process, and both signals reach it.
abbrev pub IsOwner : (kill_zero sigterm : ℕ → Kill) → ClusterState → LockFile → ℕ → Type 0
IsOwner kill_zero sigterm s file pid =
    ((s.owner_pid ≡ pid) × ((l : Lock) × ((file ≡ Lock.holds l) × (l.pid ≡ pid))))
    × ((0 < pid) × ((pid < 2147483648) × ((kill_zero pid ≡ delivered) × (sigterm pid ≡ delivered))))

-- What `down` leaves: a lock file that can be read is gone, any other stays.
abbrev pub FileLeft : (before after : LockFile) → Type 0
FileLeft before after =
    (((l : Lock) × (before ≡ Lock.holds l)) × (after ≡ Lock.absent))
    ⊎ ((¬ ((l : Lock) × (before ≡ Lock.holds l))) × (after ≡ before))
