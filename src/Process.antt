-- ===== src/Process.antt =====
-- crates/artzain-core/src/process.rs: handles and signals. What the functions do to the system is
-- a list of effects. A process group id is positive; 0 stands for the `unwrap_or(0)` of `spawn`.
pub mod Child
pub mod Streams
use artzain.Prelude.{ℕ, String, Option, List, [], ◌∷◌, if◌then◌else◌, ltb}
use artzain.Manifest.{Limits}

pub data Signal : Type 0 where
  sigterm sigkill : Signal

pub data Effect : Type 0 where
  -- `libc::kill(-pgid, signal)`
  signalled : (pgid : ℕ) → Signal → Effect
  -- A handle that is dropped while its child runs kills the child (`kill_on_drop(true)`).
  killed_on_drop : (child : ℕ) → Effect

-- `child` is the process id of the `Child`.
pub record Handle : Type 0 where
  pub child : ℕ
  pub pgid : ℕ

-- What `spawn` is given.
pub record Spawn : Type 0 where
  pub app : String
  pub replica : ℕ
  pub bin : String
  pub args : List String
  pub cwd : String
  pub env : List (String × String)
  pub log_path : Option String
  pub log_max_bytes : ℕ
  pub log_keep : ℕ
  pub uid : Option ℕ
  pub gid : Option ℕ
  pub limits : Option Limits

abbrev pub signal_group : ℕ → Signal → List Effect
signal_group pgid s = if ltb 0 pgid then signalled pgid s ∷ [] else []

abbrev pub terminate : Handle → List Effect
terminate h = signal_group h.pgid sigterm

abbrev pub kill : Handle → List Effect
kill h = signal_group h.pgid sigkill
