-- ===== src/Tests/Sample.antt =====
-- The inputs of the tests.
use artzain.State.{Phase, ClusterState}
use artzain.Lock.{Lock, LockFile, Kill, delivered, no_process}
use artzain.Manifest.Load.{Loaded, unreadable}
use artzain.Process.{Effect, signalled, sigterm}
use artzain.Reconcile.Run.{Turn}
use artzain.Reconcile.Startup.{Outset, StateFile}
use artzain.Reconcile.Instance.{Instance, new_pending}
use artzain.Prelude.{ℕ, List, ◌+◌, length, ◌<>◌, true, false, none, some, [], ◌∷◌}
use artzain.Manifest.{Manifest, App, Check, default_app, default_defaults}
use artzain.Manifest.Validate.{Accounts}
use artzain.Reconcile.Reconciler.{Reconciler, World, running}
use artzain.Reconcile.Spec.{Hasher}
use artzain.Reconcile.Launch.{Paths}

abbrev pub gateway : App
gateway = record (default_app "gateway" "./gw" 9000) { depends_on = "data" ∷ []; replicas = 2 }

abbrev pub data_app : App
data_app = record (default_app "data" "./data" 8080) { depends_on = "postgres" ∷ [] }

abbrev pub unrelated : App
unrelated = default_app "unrelated" "./u" 7000

abbrev pub postgres : Check
postgres = record { name = "postgres"; tcp = some "127.0.0.1:5432"; http = none; hint = none }

abbrev pub shop : Manifest
shop = record {
  project = none;
  vars = [];
  defaults = default_defaults;
  checks = postgres ∷ [];
  apps = gateway ∷ data_app ∷ unrelated ∷ [];
  base_dir = ".";
}

-- Two apps that depend on each other.
abbrev pub looped : Manifest
looped = record shop {
  apps = record gateway { replicas = 1 } ∷ record data_app { depends_on = "gateway" ∷ [] } ∷ [];
}

-- Two apps that claim one port.
abbrev pub clashing : Manifest
clashing = record shop { apps = data_app ∷ record unrelated { port = 8080 } ∷ [] }

abbrev pub nobody : Accounts
nobody = record { lookup_user = λ n. none; lookup_group = λ n. none }

abbrev pub item_count : Hasher
item_count items = length items

abbrev pub plain_paths : Paths
plain_paths = record { is_absolute = λ p. false; join = λ d p. d <> ("/" <> p) }

-- The first tick of a fresh cluster: every program starts and answers.
abbrev pub quiet : World
quiet = record {
  verify_at = 100;
  reap_at = 100;
  terminate_at = 100;
  block_at = 100;
  roll_at = 100;
  retire_at = 100;
  spawn_at = 100;
  probe_at = 200;
  try_wait = λ at h. running;
  exec = λ at s. some (record { child = 40 + at; pgid = 40 + at });
  spawned_at = λ at. 150;
  ready_answer = λ at addr path. true;
  ready_answered_at = λ at. 210;
  live_answer = λ at addr path. true;
  live_answered_at = λ at. 220;
  tcp_once = λ addr. true;
  http_once = λ addr path. true;
  getenv = λ k. none;
}

abbrev pub fresh_loop : Reconciler
fresh_loop = record {
  manifest = shop;
  manifest_mtime = some 1;
  pending_mtime = none;
  selected = "gateway" ∷ "data" ∷ "unrelated" ∷ [];
  instances = [];
  slot_ports = [];
  checks_ok = ("postgres", true) ∷ [];
  next_check_verify = 10000;
}

-- Two ready gateways of an older spec.
abbrev pub old_gateway : ℕ → Instance
old_gateway replica = record (new_pending 0 "gateway" replica (9000 + replica) 0) {
  handle = some (record { child = 70 + replica; pgid = 70 + replica });
  phase = Phase.ready;
  started_at = some 1;
  ready_deadline = some 30001;
  ever_ready = true;
}

abbrev pub stale_loop : Reconciler
stale_loop = record fresh_loop { instances = old_gateway 0 ∷ old_gateway 1 ∷ [] }

-- What the first tick waits with for the app `data`.
abbrev pub data_pending : Instance
data_pending = new_pending 100 "data" 0 8080 15

abbrev pub everyone : ℕ → Kill
everyone pid = delivered

abbrev pub no_one : ℕ → Kill
no_one pid = no_process

abbrev pub own_lock : ℕ → Lock
own_lock pid = record { pid = pid; started_at = 7 }

abbrev pub small_shop : Manifest
small_shop = record shop { checks = []; apps = unrelated ∷ [] }

abbrev pub quiet_turn : Turn
quiet_turn = record {
  mtime = some 1;
  loaded = unreadable;
  world = quiet;
  now = 250;
  updated_at = 7;
  is_written = true;
  seen_now = 251;
  seen_at = 7;
}

-- A state that a dead process left.
abbrev pub dead_state : ClusterState
dead_state = record {
  state_version = 1;
  project = "local";
  owner_pid = 13;
  updated_at = 3;
  apps =
      record {
        name = "unrelated";
        desired = 1;
        ready = 1;
        instances =
            record {
              replica = 0;
              port = 7000;
              phase = Phase.ready;
              pid = some 14;
              pgid = some 14;
              restarts = 0;
              uptime_secs = 9;
            }
            ∷ [];
      }
      ∷ [];
}

abbrev pub orphaned : Outset
orphaned = record {
  loaded = Loaded.ok small_shop;
  only = none;
  kill_zero = no_one;
  own = own_lock 42;
  written = true;
  now = 50;
  looks = record { lives = λ g. false; now = 60; still_lives = λ g. false } ∷ [];
  removals = record { state_removed = true; lock_removed = true };
  world = quiet;
  mtime = some 1;
  lock_file = LockFile.absent;
  state_file = StateFile.holds dead_state;
}

abbrev pub small_loop : Reconciler
small_loop = record {
  manifest = small_shop;
  manifest_mtime = some 1;
  pending_mtime = none;
  selected = "unrelated" ∷ [];
  instances = [];
  slot_ports = [];
  checks_ok = [];
  next_check_verify = 10050;
}

abbrev pub after_start : List Effect
after_start = signalled 14 sigterm ∷ []
