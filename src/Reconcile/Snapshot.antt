-- ===== src/Reconcile/Snapshot.antt =====
-- crates/artzain-core/src/reconcile.rs: `Reconciler::snapshot`, the state that others read.
pub mod Counts
use artzain.Prelude.{
  ℕ, ◌+◌, ◌-◌, ◌/◌, ◌≡◌, refl, Bool, true, false, not, String, Option, none, some, List, [], ◌∷◌,
  ◌++◌, count, retain, contains, map_or, if◌then◌else◌, ltb, ◌==◌, string_eq, length, ◌&&◌,
}
use artzain.Manifest.{App, project}
use artzain.State.{Phase, phase_eq, InstanceStatus, AppStatus, ClusterState}
use artzain.Reconcile.Instance.{Instance}
use artzain.Reconcile.Reconciler.{Reconciler}
use artzain.Reconcile.Roll.{of_app}

unfoldable pub status_of : ℕ → Instance → InstanceStatus
status_of now i = record {
  replica = i.replica;
  port = i.port;
  phase = i.phase;
  pid = map_or i.handle none (λ h. some h.child);
  pgid = map_or i.handle none (λ h. some h.pgid);
  restarts = i.restarts;
  uptime_secs = map_or i.started_at 0 (λ t. (now - t) / 1000);
}

-- The entry of an app in the map from names to statuses.
abbrev pub entry : ℕ → String → List Instance → List InstanceStatus
entry now name [] = []
entry now name (i ∷ l) =
    if of_app name i then status_of now i ∷ entry now name l else entry now name l

-- `sort_by_key(replica)`, which is stable.
unfoldable pub insert_asc : InstanceStatus → List InstanceStatus → List InstanceStatus
insert_asc x [] = x ∷ []
insert_asc x (y ∷ l) = if ltb y.replica x.replica then y ∷ insert_asc x l else x ∷ y ∷ l

unfoldable pub sort_asc : List InstanceStatus → List InstanceStatus
unfolding insert_asc
sort_asc [] = []
sort_asc (x ∷ l) = insert_asc x (sort_asc l)

abbrev pub is_ready_status : InstanceStatus → Bool
is_ready_status i = i.phase == Phase.ready

unfoldable pub app_status : ℕ → App → List Instance → AppStatus
unfolding sort_asc status_of
app_status now a l =
    let instances = sort_asc (entry now a.name l) in
    record {
      name = a.name;
      desired = a.replicas;
      ready = count is_ready_status instances;
      instances = instances;
    }

-- `remove` takes the entry of an app out of the map: its instances are counted once.
unfoldable pub app_statuses : ℕ → List String → List App → List Instance → List AppStatus
unfolding app_status
app_statuses now selected [] l = []
app_statuses now selected (a ∷ apps) l =
    if contains selected a.name
    then app_status now a l ∷ app_statuses now selected apps (retain (λ i. not (of_app a.name i)) l)
    else app_statuses now selected apps l

unfoldable pub snapshot : (now updated_at pid : ℕ) → Reconciler → ClusterState
unfolding app_statuses
snapshot now updated_at pid r = record {
  state_version = 1;
  project = project r.manifest;
  owner_pid = pid;
  updated_at = updated_at;
  apps = app_statuses now r.selected r.manifest.apps r.instances;
}
