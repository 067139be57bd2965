-- ===== src/Process/Child.antt =====
-- crates/artzain-core/src/process.rs: `spawn`, and what its `pre_exec` closure does in the child between
-- fork and exec. The kernel's answers are given: a call leaves the child's credentials and limits as a
-- function of those before it, or fails.
pub mod Wanted
pub mod Permitted
pub mod Privileges
use artzain.Prelude.{
  ℕ, ◌*◌, ◌%◌, ◌^◌, Bool, String, Option, none, some, List, [], map_or, unwrap_or, is_some,
  if◌then◌else◌, insert, ◌==◌, nat_eq, ◌>>=◌, ◌∷◌,
}
use artzain.Manifest.{Limits, string_key}
use artzain.Process.{Spawn, Handle}

-- The credentials and limits of a process.
pub record Creds : Type 0 where
  pub uid : ℕ
  pub gid : ℕ
  pub groups : List ℕ
  pub open_files : ℕ
  pub address_space : ℕ

-- The system calls of the closure, with the arguments that vary.
pub data Call : Type 0 where
  setgroups : Call
  setgid setuid rlimit_nofile rlimit_as : ℕ → Call

-- What a call gives: the process after it, or nothing when it fails.
abbrev pub Kernel : Type 0
Kernel = Creds → Call → Option Creds

-- `setgroups(0, null)` and `setgid`, when a group is given.
abbrev pub drop_group : Kernel → Option ℕ → Creds → Option Creds
drop_group kernel none c = some c
drop_group kernel (some gid) c = do d ← kernel c setgroups; kernel d (setgid gid)

abbrev pub drop_user : Kernel → Option ℕ → Creds → Option Creds
drop_user kernel none c = some c
drop_user kernel (some uid) c = kernel c (setuid uid)

abbrev pub limit_files : Kernel → Option ℕ → Creds → Option Creds
limit_files kernel none c = some c
limit_files kernel (some nofile) c = kernel c (rlimit_nofile nofile)

-- `memory_mb * 1024 * 1024`, which wraps around in 64 bits.
abbrev pub memory_bytes : ℕ → ℕ
memory_bytes memory_mb = (memory_mb * 1024 * 1024) % 2 ^ 64

abbrev pub limit_memory : Kernel → Option ℕ → Creds → Option Creds
limit_memory kernel none c = some c
limit_memory kernel (some memory_mb) c = kernel c (rlimit_as (memory_bytes memory_mb))

abbrev pub apply_limits : Kernel → Option Limits → Creds → Option Creds
apply_limits kernel none c = some c
apply_limits kernel (some limits) c = do
  d ← limit_files kernel limits.open_files c
  limit_memory kernel limits.memory_mb d

unfoldable pub pre_exec : Kernel → Spawn → Creds → Option Creds
pre_exec kernel s c = do
  d ← drop_group kernel s.gid c
  e ← drop_user kernel s.uid d
  apply_limits kernel s.limits e

-- The program to run, as `Command` keeps it: the parent's environment is cleared first.
pub record Command : Type 0 where
  pub program : String
  pub args : List String
  pub dir : String
  pub env : List (String × String)
  pub process_group : Option ℕ

abbrev pub set_env : List (String × String) → List (String × String) → List (String × String)
set_env [] env = env
set_env (kv ∷ l) env = set_env l (insert kv.0 kv.1 env)

unfoldable pub command : Spawn → Command
command s = record {
  program = s.bin;
  args = s.args;
  dir = s.cwd;
  env = set_env s.env [];
  process_group = some 0;
}

-- The process group of a child: its parent's, unless the command sets one, where 0 stands for the child's
-- own id.
abbrev pub group_of : (parent_group pid : ℕ) → Option ℕ → ℕ
group_of parent_group pid none = parent_group
group_of parent_group pid (some g) = if g == 0 then pid else g

-- `child.id()` is the handle's `pgid`, whatever group the child is in.
abbrev pub replace_image :
    (execs : Command → Creds → Bool)
    → (parent_group : ℕ) → Spawn
    → (pid : ℕ) → Creds
    → Option (Handle × ℕ × Creds)
replace_image execs parent_group s pid c =
    if execs (command s) c
    then some
        (record { child = pid; pgid = pid }, group_of parent_group pid (command s).process_group, c)
    else none

-- What the parent sees: no child, or a handle; and the process group and the credentials with which the
-- program runs. `fork` is the id of the new process, or nothing. `execs` says whether the image can be
-- replaced. Dropping the reader of a failed child leaves nothing running.
unfoldable pub spawn :
    Kernel
    → (fork : Option ℕ) → (execs : Command → Creds → Bool) → (parent_group : ℕ) → Spawn
    → Creds
    → Option (Handle × ℕ × Creds)
unfolding pre_exec command
spawn kernel fork execs parent_group s c = do
  pid ← fork
  d ← pre_exec kernel s c
  replace_image execs parent_group s pid d
