-- ===== src/Reconcile/Startup.antt =====
-- crates/artzain-core/src/reconcile.rs: `verify_checks`, `reclaim_orphans`, and `up` until its loop
-- begins. Files are seen as what reading them gives.
pub mod LockKept
use artzain.Prelude.{
  ℕ, ◌+◌, Bool, true, false, not, ◌&&◌, String, Option, none, some, List, [], ◌∷◌, ◌++◌, map_or,
  if◌then◌else◌, leb, insert, all, string_eq,
}
use artzain.Manifest.{Manifest, Check, string_key}
use artzain.Manifest.Load.{Loaded}
use artzain.Manifest.Load
use artzain.State.{ClusterState, AppStatus, InstanceStatus}
use artzain.Process.{Effect, Signal, sigterm, sigkill, signal_group}
use artzain.Lock.{Lock, LockFile, Kill, Acquired, acquire}
use artzain.Lock
use artzain.Reconcile.Select.{select_apps}
use artzain.Reconcile.Select
use artzain.Reconcile.Reconciler.{Reconciler, World}
use artzain.Reconcile.Probes.{check_answer}
use artzain.Reconcile.Reload.{new}

-- The checks that are down come with their hints; a check without a target does not pass
-- validation, and the source panics on one.
pub data Verified : Type 0 where
  ok : List (String × Bool) → Verified
  failed : List (String × Option String) → Verified
  panicked : Verified

-- The loop over the checks, with the answers and the failures so far.
unfoldable pub verify_from :
    World → List Check → List (String × Bool) → List (String × Option String) → Verified
unfolding check_answer
verify_from w [] out [] = ok out
verify_from w [] out (f ∷ failures) = failed (f ∷ failures)
verify_from w (c ∷ l) out failures = map_or (check_answer w c) panicked (λ up.
    verify_from w l (insert c.name up out)
      (if up then failures else failures ++ (c.name, c.hint) ∷ []))

unfoldable pub verify_checks : World → Manifest → Verified
unfolding verify_from
verify_checks w m = verify_from w m.checks [] []

-- `process::is_pid_alive` and `is_group_alive`: a process that may not be signalled is alive.
abbrev pub is_alive : Kill → Bool
is_alive Lock.no_process = false
is_alive _ = true

abbrev pub app_groups : List InstanceStatus → List ℕ
app_groups [] = []
app_groups (i ∷ l) = map_or i.pgid [] (λ g. g ∷ []) ++ app_groups l

-- The recorded process groups, in order.
abbrev pub groups : List AppStatus → List ℕ
groups [] = []
groups (a ∷ l) = app_groups a.instances ++ groups l

unfoldable pub signal_all : Signal → List ℕ → List Effect
signal_all s [] = []
signal_all s (g ∷ l) = signal_group g s ++ signal_all s l

-- One pass of the waiting loop: which groups live, at the `all` and again at the SIGKILL, and the
-- clock between them. A group id that is not positive is not alive.
pub record Look : Type 0 where
  pub lives : ℕ → Bool
  pub now : ℕ
  pub still_lives : ℕ → Bool

unfoldable pub kill_living : (ℕ → Bool) → List ℕ → List Effect
kill_living lives [] = []
kill_living lives (g ∷ l) = (if lives g then signal_group g sigkill else []) ++ kill_living lives l

-- The loop ends at the deadline at the latest; it is run for the looks that are given.
unfoldable pub await_groups : (deadline : ℕ) → List Look → List ℕ → List Effect
unfolding kill_living
await_groups deadline [] l = []
await_groups deadline (look ∷ looks) l =
    let later = await_groups deadline looks l in
    if all (λ g. not (look.lives g)) l
    then []
    else (if leb deadline look.now then kill_living look.still_lives l else later)

pub data StateFile : Type 0 where
  absent unreadable unparsed : StateFile
  holds : ClusterState → StateFile

abbrev pub orphan_reclaim_grace : ℕ
orphan_reclaim_grace = 2000

-- The files of `.artzain`, and what the call did.
pub record Reclaimed : Type 0 where
  pub is_ok : Bool
  pub state_file : StateFile
  pub lock_file : LockFile
  pub effects : List Effect

-- Whether the `remove_file` calls work, whose results are ignored.
pub record Removals : Type 0 where
  pub state_removed : Bool
  pub lock_removed : Bool

-- `kill_zero` answers for the owner: `pid as i32` is not positive for 0 and from 2 ^ 31 on.
unfoldable pub reclaim_orphans :
    (ℕ → Kill) → (now : ℕ) → List Look → Removals → StateFile → LockFile → Reclaimed
unfolding signal_all await_groups
reclaim_orphans kill_zero now looks removals absent lock = record {
  is_ok = true;
  state_file = absent;
  lock_file = lock;
  effects = [];
}
reclaim_orphans kill_zero now looks removals unreadable lock = record {
  is_ok = false;
  state_file = unreadable;
  lock_file = lock;
  effects = [];
}
reclaim_orphans kill_zero now looks removals unparsed lock = record {
  is_ok = true;
  state_file = if removals.state_removed then absent else unparsed;
  lock_file = lock;
  effects = [];
}
reclaim_orphans kill_zero now looks removals (holds s) lock =
    if Lock.is_positive_i32 s.owner_pid && is_alive (kill_zero s.owner_pid)
    then record { is_ok = true; state_file = holds s; lock_file = lock; effects = [] }
    else record {
      is_ok = true;
      state_file = if removals.state_removed then absent else holds s;
      lock_file = if removals.lock_removed then Lock.absent else lock;
      effects =
          signal_all sigterm (groups s.apps)
          ++ await_groups (now + orphan_reclaim_grace) looks (groups s.apps);
    }

-- What `up` meets before its loop.
pub record Outset : Type 0 where
  pub loaded : Loaded
  pub only : Option (List String)
  pub kill_zero : ℕ → Kill
  pub own : Lock
  pub written : Bool
  pub now : ℕ
  pub looks : List Look
  pub removals : Removals
  pub world : World
  pub mtime : Option ℕ
  pub lock_file : LockFile
  pub state_file : StateFile

pub data Started : Type 0 where
  -- The loop begins in this state, with these files.
  begun : Reconciler → LockFile → StateFile → List Effect → Started
  -- The call fails, with the lock file that is left.
  refused : LockFile → Started
  panicked_out : Started

-- A failure after `acquire` drops the lock.
abbrev pub give_up : Lock → LockFile → Started
give_up own file = refused (Lock.drop_lock own file)

abbrev pub after_verify : Outset → Manifest → List String → Reclaimed → Verified → Started
after_verify o m selected x (ok checks) =
    begun (new o.now o.mtime m selected checks) x.lock_file x.state_file x.effects
after_verify o m selected x (failed l) = give_up o.own x.lock_file
after_verify o m selected x panicked = panicked_out

abbrev pub after_reclaim : Outset → Manifest → List String → Reclaimed → Started
after_reclaim o m selected x =
    if x.is_ok
    then after_verify o m selected x (verify_checks o.world m)
    else give_up o.own x.lock_file

abbrev pub after_acquire : Outset → Manifest → List String → Acquired × LockFile → Started
after_acquire o m selected (Lock.ok own, file) =
    after_reclaim o m selected
      (reclaim_orphans o.kill_zero o.now o.looks o.removals o.state_file file)
after_acquire o m selected (e, file) = refused file

abbrev pub after_select : Outset → Manifest → Select.Result (List String) → Started
after_select o m (Select.ok []) = refused o.lock_file
after_select o m (Select.ok (n ∷ l)) =
    after_acquire o m (n ∷ l) (acquire o.kill_zero o.own o.written o.lock_file)
after_select o m e = refused o.lock_file

abbrev pub after_load : Outset → Loaded → Started
after_load o (Load.ok m) = after_select o m (select_apps m o.only)
after_load o e = refused o.lock_file

unfoldable pub start : Outset → Started
unfolding verify_checks reclaim_orphans acquire select_apps
start o = after_load o o.loaded
