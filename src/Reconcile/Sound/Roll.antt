-- ===== src/Reconcile/Sound/Roll.antt =====
-- The invariant through the rolling update.
use artzain.Prelude.{
  ℕ, ◌-◌, ltb, leb, Bool, true, false, Option, none, some, List, [], ◌∷◌, ◌≡◌, nat_eq,
  if◌then◌else◌, map_or, All, arith, ◌==◌, String,
}
use artzain.Manifest.{App}
use artzain.State.{phase_eq}
use artzain.Process.{Effect}
use artzain.Reconcile.Instance.{Instance, slot_eq, begin_stop}
use artzain.Reconcile.Reconciler.{Reconciler, World, Desired}
use artzain.Reconcile.Stops.{stop_at}
use artzain.Reconcile.Roll.{
  stop_first, roll_surge, roll_app, roll_apps, stop_all, surplus_all, retire_stale_surplus,
  non_ready_stale, ready_stale, surge_for, with_instances, desired_count, ready_of, max_unavailable,
}
use artzain.Reconcile.Sound.{IsSound, AllSound, begin_stop-IsSound}
use artzain.Reconcile.Sound.Stops.{stop_at-IsSound}

abbrev Fine : Option (List Instance × List Effect) → Type 0
Fine none = Unit {0}
Fine (some x) = All IsSound x.0

stop_first-Fine :
    (p : Instance → Bool) (now : ℕ) (l : List Instance) → All IsSound l → Fine (stop_first p now l)
unfolding stop_first
stop_first-Fine p now [] v = tt
stop_first-Fine p now (i ∷ l) v =
    at (p i) (stop_first p now l) (stop_first-Fine p now l v.1) (begin_stop-IsSound now false i v.0)
  where
    at :
        (b : Bool) (o : Option (List Instance × List Effect))
        → Fine o
        → IsSound (begin_stop now false i).0
        → Fine (
            if b
            then some ((begin_stop now false i).0 ∷ l, (begin_stop now false i).1)
            else map_or o none (λ x. some (i ∷ x.0, x.1)))
    at true o f stopped = (stopped, v.1)
    at false none f stopped = tt
    at false (some x) f stopped = (v.0, f)

with_instances-AllSound :
    (r : Reconciler) (o : Option (List Instance × List Effect))
    → AllSound r
    → Fine o
    → AllSound (with_instances r o).0
with_instances-AllSound r none v f = v
with_instances-AllSound r (some x) v f = f

surge_for-instances :
    (desired : Desired) (a : App) (budget : ℕ) (stale : Instance) (r : Reconciler)
    → (surge_for desired a budget stale r).instances ≡ r.instances
surge_for-instances desired a budget stale r = ground arith

roll_surge-instances :
    (desired : Desired) (name : String) (r : Reconciler)
    → (roll_surge desired name r).instances ≡ r.instances
unfolding roll_surge
roll_surge-instances desired name r = ground arith

roll_app-AllSound :
    (w : World) (desired : Desired) (name : String) (r : Reconciler)
    → AllSound r
    → AllSound (roll_app w desired name r).0
unfolding roll_app
roll_app-AllSound w desired name r v =
    found (stop_first (non_ready_stale desired name) w.roll_at r.instances)
      (stop_first-Fine (non_ready_stale desired name) w.roll_at r.instances v)
  where
    FinePair : Reconciler × List Effect → Type 0
    FinePair x = AllSound x.0

    rest :
        (a b : Bool)
        → FinePair (
            if a
            then (roll_surge desired name r, [])
            else (if b
                then (r, [])
                else with_instances r
                    (stop_first (ready_stale desired name) w.roll_at r.instances)))
    rest true b = rw (roll_surge-instances desired name r) v
    rest false true = v
    rest false false =
        with_instances-AllSound r (stop_first (ready_stale desired name) w.roll_at r.instances) v
          (stop_first-Fine (ready_stale desired name) w.roll_at r.instances v)

    found :
        (o : Option (List Instance × List Effect))
        → Fine o
        → FinePair (elim o [
          | some x ↦ with_instances r (some x)
          | none ↦
              if ltb 0 r.manifest.defaults.max_surge
              then (roll_surge desired name r, [])
              else (if leb max_unavailable (desired_count r name - ready_of name r.instances)
                  then (r, [])
                  else with_instances r
                      (stop_first (ready_stale desired name) w.roll_at r.instances))
        ])
    found none f =
        rest (ltb 0 r.manifest.defaults.max_surge)
          (leb max_unavailable (desired_count r name - ready_of name r.instances))
    found (some x) f = f

pub roll_apps-AllSound :
    (w : World) (desired : Desired) (names : List String) (r : Reconciler)
    → AllSound r
    → AllSound (roll_apps w desired names r).0
unfolding roll_apps
roll_apps-AllSound w desired [] r v = v
roll_apps-AllSound w desired (n ∷ names) r v =
    roll_apps-AllSound w desired names (roll_app w desired n r).0
      (roll_app-AllSound w desired n r v)

stop_all-IsSound :
    (now : ℕ) (idxs : List ℕ) (l : List Instance)
    → All IsSound l
    → All IsSound (stop_all now idxs l).0
unfolding stop_all
stop_all-IsSound now [] l v = v
stop_all-IsSound now (idx ∷ rest) l v =
    stop_all-IsSound now rest (stop_at now false idx l).0 (stop_at-IsSound now false idx l v)

pub retire_stale_surplus-AllSound :
    (w : World) (desired : Desired) (r : Reconciler)
    → AllSound r
    → AllSound (retire_stale_surplus w desired r).0
unfolding retire_stale_surplus
retire_stale_surplus-AllSound w desired r v = at (r.manifest.defaults.max_surge == 0)
  where
    FinePair : Reconciler × List Effect → Type 0
    FinePair x = AllSound x.0

    at :
        (b : Bool)
        → FinePair (
            if b
            then (r, [])
            else (let (l, e) = stop_all w.retire_at (surplus_all desired r.instances) r.instances in
                (record r { instances = l }, e)))
    at true = v
    at false = stop_all-IsSound w.retire_at (surplus_all desired r.instances) r.instances v
