-- ===== src/Reconcile/Run.antt =====
-- crates/artzain-core/src/reconcile.rs: `run_until`, the loop around the ticks, and `teardown`.
pub mod Loop
pub mod Ranks
pub mod Sorted
pub mod Teardown
use artzain.Prelude.{
  ℕ, zero, suc, ◌+◌, ◌-◌, Bool, true, false, not, String, Option, none, some, List, [], ◌∷◌, ◌++◌,
  map_or, if◌then◌else◌, ◌==◌, string_eq, is_some, leb, ltb, any,
}
use artzain.Manifest.{App, string_key}
use artzain.Manifest.Load.{Loaded}
use artzain.Manifest.AppOrder.{apps_ordered, app_names}
use artzain.Manifest.AppOrder
use artzain.State.{Phase, ClusterState}
use artzain.Process.{Handle, Effect, terminate, kill}
use artzain.Reconcile.Instance.{Instance, stop_grace}
use artzain.Reconcile.Spec.{Hasher}
use artzain.Reconcile.Launch.{Paths}
use artzain.Reconcile.Reconciler.{Reconciler, World, Wait, exited, running, failed}
use artzain.Reconcile.Reload.{maybe_reload}
use artzain.Reconcile.Snapshot.{snapshot}
use artzain.Reconcile.Tick.{reconcile}

-- What one turn of the loop meets. The state that is written and the one that the predicate sees are
-- two snapshots, each at clocks of its own; `is_written` says whether the write works.
pub record Turn : Type 0 where
  pub mtime : Option ℕ
  pub loaded : Loaded
  pub world : World
  pub now : ℕ
  pub updated_at : ℕ
  pub is_written : Bool
  pub seen_now : ℕ
  pub seen_at : ℕ

-- What the loop did: the states it wrote, oldest first, and whether the predicate held.
pub record Run : Type 0 where
  pub reconciler : Reconciler
  pub effects : List Effect
  pub written : List ClusterState
  pub satisfied : Bool

module _ (hasher : Hasher) (paths : Paths) (pid : ℕ) (watch_manifest : Bool) where
  unfoldable pub turn : Turn → Reconciler → Reconciler × List Effect
  unfolding maybe_reload reconcile
  turn t r =
      reconcile hasher paths t.world (if watch_manifest then maybe_reload t.mtime t.loaded r else r)

  -- `max_steps` turns at most; the turns are those of the steps to come.
  unfoldable pub run_until : (ClusterState → Bool) → (max_steps : ℕ) → (ℕ → Turn) → Reconciler → Run
  unfolding turn snapshot
  run_until predicate zero turns r = record {
    reconciler = r;
    effects = [];
    written = [];
    satisfied = false;
  }
  run_until predicate (suc steps) turns r =
      let (next, e) = turn (turns 0) r in
      let state = snapshot (turns 0).now (turns 0).updated_at pid next in
      let written = if (turns 0).is_written then state ∷ [] else [] in
      let rest = run_until predicate steps (λ n. turns (suc n)) next in
      if predicate (snapshot (turns 0).seen_now (turns 0).seen_at pid next)
      then record { reconciler = next; effects = e; written = written; satisfied = true }
      else record rest { effects = e ++ rest.effects; written = written ++ rest.written }

-- `position`, and the largest number where there is none.
abbrev pub rank_from : ℕ → List String → String → Option ℕ
rank_from at [] name = none
rank_from at (n ∷ l) name = if n == name then some at else rank_from (suc at) l name

abbrev pub start_order : Reconciler → List String
start_order r = elim (apps_ordered r.manifest) [ AppOrder.ok l ↦ app_names l | _ ↦ [] ]

-- The first rank is the larger one.
abbrev pub later_rank : Option ℕ → Option ℕ → Bool
later_rank none none = false
later_rank none (some b) = true
later_rank (some a) none = false
later_rank (some a) (some b) = ltb b a

-- A stable sort by falling rank.
unfoldable pub insert_rank : (String → Option ℕ) → Instance → List Instance → List Instance
insert_rank rank x [] = x ∷ []
insert_rank rank x (y ∷ l) =
    if later_rank (rank y.app) (rank x.app) then y ∷ insert_rank rank x l else x ∷ y ∷ l

unfoldable pub sort_rank : (String → Option ℕ) → List Instance → List Instance
unfolding insert_rank
sort_rank rank [] = []
sort_rank rank (x ∷ l) = insert_rank rank x (sort_rank rank l)

unfoldable pub terminate_all : List Instance → List Instance × List Effect
terminate_all [] = ([], [])
terminate_all (i ∷ l) =
    let (rest, effects) = terminate_all l in
    map_or i.handle (i ∷ rest, effects)
      (λ h. (record i { phase = Phase.terminating } ∷ rest, terminate h ++ effects))

-- One pass over the children: the ones that exited give up their handle.
abbrev pub forget : Wait → Instance → Instance
forget exited i = record i { handle = none }
forget _ i = i

unfoldable pub wait_all : (at : ℕ) → (ℕ → Handle → Wait) → List Instance → List Instance
wait_all at waits [] = []
wait_all at waits (i ∷ l) =
    map_or i.handle i (λ h. forget (waits at h) i) ∷ wait_all (suc at) waits l

unfoldable pub kill_all : List Instance → List Effect
kill_all [] = []
kill_all (i ∷ l) = map_or i.handle [] kill ++ kill_all l

abbrev pub any_running : List Instance → Bool
any_running = any (λ i. is_some i.handle)

-- One pass of the waiting loop: the answers of the children and the clock.
pub record Pass : Type 0 where
  pub waits : ℕ → Handle → Wait
  pub now : ℕ

-- The loop has no bound in the source; it is run for the passes that are given.
unfoldable pub await_exits :
    (deadline : ℕ) → List Pass → List Instance → List Instance × List Effect
unfolding wait_all kill_all
await_exits deadline [] l = (l, [])
await_exits deadline (p ∷ passes) l =
    let left = wait_all 0 p.waits l in
    let kills = if leb deadline p.now then kill_all left else [] in
    let (rest, effects) = await_exits deadline passes left in
    if any_running left then (rest, kills ++ effects) else (left, [])

unfoldable pub teardown : (now : ℕ) → List Pass → Reconciler → Reconciler × List Effect
unfolding sort_rank terminate_all await_exits apps_ordered
teardown now passes r =
    let sorted = sort_rank (rank_from 0 (start_order r)) r.instances in
    let (stopped, e1) = terminate_all sorted in
    let (left, e2) = await_exits (now + stop_grace) passes stopped in
    (record r { instances = left }, e1 ++ e2)
