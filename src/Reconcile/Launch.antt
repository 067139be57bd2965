-- ===== src/Reconcile/Launch.antt =====
-- crates/artzain-core/src/reconcile.rs: `spawn_missing` and `spawn`.
pub mod Gate
use artzain.Prelude.{
  ℕ, suc, ◌+◌, ◌*◌, Bool, true, false, ◌&&◌, ◌||◌, String, none, some, List, [], ◌∷◌, ◌++◌,
  if◌then◌else◌, lookup, map_or, unwrap_or, any, all, leb, ◌==◌, string_eq, nat_eq, to_string, ◌<>◌,
}
use artzain.Words.{add_u32}
use artzain.Manifest.{Manifest, App, Defaults, app, is_app, string_key}
use artzain.State.{Phase, phase_eq}
use artzain.Process.{Handle, Spawn}
use artzain.Reconcile.Instance.{
  Instance, Slot, slot, slot_eq, is_running, new_pending, backoff_delay,
}
use artzain.Reconcile.Spec.{Hasher, spec_hash, instance_env}
use artzain.Reconcile.Reconciler.{Reconciler, World, Desired}

abbrev pub has_current : Slot → ℕ → List Instance → Bool
has_current s hash = any (λ i. slot_eq.equal (slot i) s && (i.spec_hash == hash))

-- The first loop: a pending instance for each desired slot that has none of the current spec.
unfoldable pub add_missing : ℕ → Desired → List Instance → List Instance
unfolding new_pending
add_missing now [] l = l
add_missing now ((s, (port, hash)) ∷ desired) l =
    add_missing now desired
      (if has_current s hash l then l else l ++ new_pending now s.0 s.1 port hash ∷ [])

-- Whether an app has a ready instance.
abbrev pub is_ready_app : List Instance → String → Bool
is_ready_app l name = any (λ i. (i.app == name) && (i.phase == Phase.ready)) l

abbrev pub dep_ok : Reconciler → List Instance → String → Bool
dep_ok r l d =
    if is_app r.manifest d then is_ready_app l d else unwrap_or (lookup d r.checks_ok) true

abbrev pub deps_ok : Reconciler → List Instance → Instance → Bool
deps_ok r l i = map_or (app r.manifest i.app) false (λ a. all (dep_ok r l) a.depends_on)

abbrev pub backoff_ok : ℕ → Instance → Bool
backoff_ok now i = map_or i.backoff_until true (λ t. leb t now)

-- `base_dir.join(p)`, for a path given relative to the manifest's folder; an absolute path stays.
-- Whether a path is absolute, and the joining, are the standard library's `Path`.
pub record Paths : Type 0 where
  pub is_absolute : String → Bool
  pub join : String → String → String

abbrev pub resolve : Paths → Manifest → String → String
resolve paths m p = if paths.is_absolute p then p else paths.join m.base_dir p

abbrev pub log_path : Paths → Manifest → String → ℕ → String
log_path paths m name replica =
    paths.join (paths.join (paths.join m.base_dir ".artzain") "logs")
      (name <> ("-" <> (to_string replica <> ".log")))

unfoldable pub spawn_request : Paths → World → Manifest → App → ℕ → ℕ → Spawn
unfolding instance_env
spawn_request paths w m a replica port = record {
  app = a.name;
  replica = replica;
  bin = resolve paths m a.bin;
  args = a.args;
  cwd = resolve paths m (unwrap_or a.dir ".");
  env = instance_env w.getenv m a replica port;
  log_path = some (log_path paths m a.name replica);
  log_max_bytes = m.defaults.log_max_bytes;
  log_keep = m.defaults.log_keep;
  uid = a.uid;
  gid = a.gid;
  limits = a.limits;
}

-- `Ok(handle)`
unfoldable pub launched : Hasher → Manifest → App → ℕ → Handle → Instance → Instance
launched hasher m a now h i =
    let no_ready_probe = a.ready_path == "" in
    record i {
      handle = some h;
      phase = if no_ready_probe then Phase.ready else Phase.starting;
      started_at = some now;
      backoff_until = none;
      ready_deadline = some (now + a.ready_timeout * 1000);
      consecutive_live_fail = 0;
      ever_ready = no_ready_probe;
      next_ready_probe = now;
      next_live_probe = now + a.live_period * 1000;
      spec_hash = spec_hash hasher m a i.replica i.port;
    }

-- `Err(e)`
unfoldable pub launch_failed : Defaults → ℕ → Instance → Instance
launch_failed d now i =
    let restarts = add_u32 i.restarts 1 in
    record i {
      restarts = restarts;
      backoff_until =
          some (now + backoff_delay d.restart_backoff_ms d.restart_backoff_max_ms restarts);
      phase = Phase.crash_loop_back_off;
    }

module _ (hasher : Hasher) (paths : Paths) (w : World) where
  unfoldable pub spawn : Reconciler → ℕ → Instance → Instance
  unfolding launched launch_failed spawn_request
  spawn r at i = map_or (app r.manifest i.app) i (λ a.
      map_or (w.exec at (spawn_request paths w r.manifest a i.replica i.port))
        (launch_failed r.manifest.defaults (w.spawned_at at) i)
        (λ h. launched hasher r.manifest a (w.spawned_at at) h i))

  -- The body of the second loop. `l` is the list when the loop begins: the set of ready apps is
  -- taken there.
  unfoldable pub spawn_one : Reconciler → List Instance → ℕ → Instance → Instance
  unfolding spawn
  spawn_one r l at i =
      if is_running i || (i.phase == Phase.terminating)
      then i
      else (if backoff_ok w.spawn_at i && deps_ok r l i then spawn r at i else i)

  unfoldable pub spawn_all : Reconciler → List Instance → ℕ → List Instance → List Instance
  unfolding spawn_one
  spawn_all r l at [] = []
  spawn_all r l at (i ∷ rest) = spawn_one r l at i ∷ spawn_all r l (suc at) rest

  unfoldable pub spawn_missing : Desired → Reconciler → Reconciler
  unfolding spawn_all add_missing
  spawn_missing desired r =
      let l = add_missing w.spawn_at desired r.instances in
      record r { instances = spawn_all r l 0 l }
