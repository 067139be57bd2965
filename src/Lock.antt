-- ===== src/Lock.antt =====
-- crates/artzain-core/src/lock.rs: the lock file. Its JSON text is serde's: the file is seen as what
-- reading it gives. `write_private_file` replaces a file as a whole or leaves it (paths.rs); whether
-- it could is given. Each call is one step here, though the source reads and then writes. A `Lock`
-- removes its file when it is dropped, the one that `acquire` or `down` has read as well.
pub mod Exclusive
use artzain.Prelude.{
  ℕ, ◌^◌, Bool, true, false, not, ◌&&◌, ◌||◌, Option, none, some, List, [], ◌∷◌, if◌then◌else◌,
  ◌==◌, nat_eq, leb,
}

pub record Lock : Type 0 where
  pub pid : ℕ
  pub started_at : ℕ

pub data LockFile : Type 0 where
  absent unreadable unparsed : LockFile
  holds : Lock → LockFile

-- `kill(pid, 0)`
pub data Kill : Type 0 where
  delivered no_permission no_process : Kill

-- `pid as i32` is positive.
abbrev pub is_positive_i32 : ℕ → Bool
is_positive_i32 pid = not (pid == 0) && not (leb 2147483648 pid)

abbrev pub is_delivered : Kill → Bool
is_delivered delivered = true
is_delivered _ = false

abbrev pub is_pid_alive : (ℕ → Kill) → ℕ → Bool
is_pid_alive kill_zero pid = is_positive_i32 pid && is_delivered (kill_zero pid)

pub data Read : Type 0 where
  none_there : Read
  found : Lock → Read
  read_failed parse_failed : Read

unfoldable pub read : LockFile → Read
read absent = none_there
read unreadable = read_failed
read unparsed = parse_failed
read (holds l) = found l

pub data Acquired : Type 0 where
  ok : Lock → Acquired
  already_running : (pid : ℕ) → Acquired
  not_read not_parsed not_written : Acquired

-- `Drop`, of a lock that `acquire` or `read` gave a path to: the file is removed if it names the same
-- process.
unfoldable pub drop_lock : Lock → LockFile → LockFile
drop_lock own (holds l) = if l.pid == own.pid then absent else holds l
drop_lock own file = file

-- The file is written, or the call fails, the file stays, and the lock that was made is dropped.
unfoldable pub write_lock : Lock → (written : Bool) → LockFile → Acquired × LockFile
unfolding drop_lock
write_lock own written file =
    if written then (ok own, holds own) else (not_written, drop_lock own file)

-- The lock that was read is dropped when the call is refused, and else before the file is written. A
-- refused or failed call drops the lock that it made too.
unfoldable pub acquire : (ℕ → Kill) → Lock → (written : Bool) → LockFile → Acquired × LockFile
unfolding read drop_lock write_lock
acquire kill_zero own written file = elim (read file) [
  | none_there ↦ write_lock own written file
  | found l ↦
      if not (l.pid == own.pid) && is_pid_alive kill_zero l.pid
      then (already_running l.pid, drop_lock own (drop_lock l file))
      else write_lock own written (drop_lock l file)
  | read_failed ↦ (not_read, drop_lock own file)
  | parse_failed ↦ (not_parsed, drop_lock own file)
]
