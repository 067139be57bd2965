-- ===== src/Reconcile/Sound/Whole.antt =====
-- The invariant through a whole tick, and through any number of ticks.
use artzain.Prelude.{
  ℕ, suc, Bool, true, false, ◌&&◌, ◌||◌, not, Option, none, some, List, [], ◌∷◌, ◌++◌, ◌≡◌, refl,
  leb, if◌then◌else◌, map_or, All, arith, ◌==◌, nat_eq, string_eq,
}
use artzain.Manifest.{App, app}
use artzain.State.{Phase, phase_eq}
use artzain.Process.{Effect}
use artzain.Reconcile.Instance.{Instance, is_running}
use artzain.Reconcile.Spec.{Hasher}
use artzain.Reconcile.Slots.{desired_slots}
use artzain.Reconcile.Reconciler.{Reconciler, World, Desired}
use artzain.Reconcile.Reap.{reap}
use artzain.Reconcile.Stops.{terminate_undesired, stop_check_blocked}
use artzain.Reconcile.Roll.{roll_stale, retire_stale_surplus}
use artzain.Reconcile.Launch.{Paths, add_missing, spawn_all, spawn_missing}
use artzain.Reconcile.Probes.{
  Probed, address, unchanged, ready_result, live_result, probe_app, probe_one, probe_all, probe,
  reverify_checks, ready_step, live_step,
}
use artzain.Reconcile.Tick.{settle, reconcile}
use artzain.Reconcile.Sound.{IsSound, AllSound, reap-AllSound}
use artzain.Reconcile.Sound.Stops.{terminate_undesired-AllSound, stop_check_blocked-AllSound}
use artzain.Reconcile.Sound.Roll.{roll_apps-AllSound, retire_stale_surplus-AllSound}
use artzain.Reconcile.Sound.Launch.{add_missing-IsSound, spawn_one-IsSound}

module _ (hasher : Hasher) (paths : Paths) (w : World) (r : Reconciler) where
  spawn_all-IsSound :
      (l : List Instance) (at : ℕ) (rest : List Instance)
      → All IsSound rest
      → All IsSound (spawn_all hasher paths w r l at rest)
  unfolding spawn_all
  spawn_all-IsSound l at [] v = tt
  spawn_all-IsSound l at (i ∷ rest) v =
      (spawn_one-IsSound hasher paths w r l at i v.0, spawn_all-IsSound l (suc at) rest v.1)

  spawn_missing-AllSound :
      (desired : Desired) → AllSound r → AllSound (spawn_missing hasher paths w desired r)
  unfolding spawn_missing
  spawn_missing-AllSound desired v =
      let l = add_missing w.spawn_at desired r.instances in
      spawn_all-IsSound l 0 l (add_missing-IsSound w.spawn_at desired r.instances v)

-- A probed instance is running and not being stopped.
abbrev IsProbed : Instance → Type 0
IsProbed i = (is_running i ≡ true) × ((i.phase == Phase.terminating) ≡ false)

ready_result-IsSound :
    (now : ℕ) (ok : Bool) (i : Instance)
    → IsSound i
    → IsProbed i
    → IsSound (ready_result now ok i).instance
unfolding ready_result
ready_result-IsSound now true i v p = ground arith
ready_result-IsSound now false i v p = ground arith

live_result-IsSound :
    (a : App) (now : ℕ) (ok : Bool) (i : Instance)
    → IsSound i
    → IsSound (live_result a now ok i).instance
unfolding live_result
live_result-IsSound a now true i v = ground arith
live_result-IsSound a now false i v = ground arith

ready_step-IsSound :
    (w : World) (a : App) (at : ℕ) (i : Instance)
    → IsSound i
    → IsProbed i
    → IsSound (ready_step w a at i).instance
ready_step-IsSound w a at i v p =
    by_test (leb i.next_ready_probe w.probe_at && not (a.ready_path == ""))
  where
    FineProbe : Probed → Type 0
    FineProbe x = IsSound x.instance

    by_test :
        (b : Bool)
        → FineProbe (
            if b
            then ready_result
                (w.ready_answered_at at)
                (w.ready_answer at (address i) a.ready_path)
                i
            else unchanged i)
    by_test true =
        ready_result-IsSound (w.ready_answered_at at) (w.ready_answer at (address i) a.ready_path) i
          v p
    by_test false = v

live_step-IsSound :
    (w : World) (a : App) (at : ℕ) (i j : Instance)
    → IsSound j
    → IsSound (live_step w a at i j).instance
live_step-IsSound w a at i j v =
    by_test (leb i.next_live_probe w.probe_at && (not (a.live_path == "") && j.ever_ready))
  where
    FineProbe : Probed → Type 0
    FineProbe x = IsSound x.instance

    by_test :
        (b : Bool)
        → FineProbe (
            if b
            then live_result a (w.live_answered_at at) (w.live_answer at (address i) a.live_path) j
            else unchanged j)
    by_test true =
        live_result-IsSound a (w.live_answered_at at) (w.live_answer at (address i) a.live_path) j v
    by_test false = v

probe_app-IsSound :
    (w : World) (a : App) (at : ℕ) (i : Instance)
    → IsSound i
    → IsProbed i
    → IsSound (probe_app w a at i).0
unfolding probe_app
probe_app-IsSound w a at i v p =
    let first = ready_step-IsSound w a at i v p in
    by_skip (ready_step w a at i).skip first
      (live_step-IsSound w a at i (ready_step w a at i).instance first)
  where
    FinePair : Instance × List Effect → Type 0
    FinePair x = IsSound x.0

    by_skip :
        (b : Bool)
        → IsSound (ready_step w a at i).instance
        → IsSound (live_step w a at i (ready_step w a at i).instance).instance
        → FinePair (
            if b then ((ready_step w a at i).instance, (ready_step w a at i).effects) else (
              (live_step w a at i (ready_step w a at i).instance).instance,
              (ready_step w a at i).effects
                  ++ (live_step w a at i (ready_step w a at i).instance).effects,
            ))
    by_skip true f s = f
    by_skip false f s = s

probe_one-IsSound :
    (w : World) (r : Reconciler) (at : ℕ) (i : Instance)
    → IsSound i
    → IsSound (probe_one w r at i).0
unfolding probe_one
probe_one-IsSound w r at i v =
    by_test (is_running i) (i.phase == Phase.terminating) refl refl (app r.manifest i.app)
  where
    FinePair : Instance × List Effect → Type 0
    FinePair x = IsSound x.0

    by_test :
        (a b : Bool)
        → is_running i ≡ a
        → (i.phase == Phase.terminating) ≡ b
        → (o : Option App)
        → FinePair (if not a || b then (i, []) else map_or o (i, []) (λ a. probe_app w a at i))
    by_test true true p q o = v
    by_test true false p q none = v
    by_test true false p q (some x) = probe_app-IsSound w x at i v (p, q)
    by_test false b p q o = v

probe_all-IsSound :
    (w : World) (r : Reconciler) (at : ℕ) (l : List Instance)
    → All IsSound l
    → All IsSound (probe_all w r at l).0
unfolding probe_all
probe_all-IsSound w r at [] v = tt
probe_all-IsSound w r at (i ∷ l) v =
    (probe_one-IsSound w r at i v.0, probe_all-IsSound w r (suc at) l v.1)

probe-AllSound : (w : World) (r : Reconciler) → AllSound r → AllSound (probe w r).0
unfolding probe
probe-AllSound w r v = probe_all-IsSound w r 0 r.instances v

reverify_checks-instances :
    (w : World) (r : Reconciler) → (reverify_checks w r).instances ≡ r.instances
unfolding reverify_checks
reverify_checks-instances w r = ground arith

settle-AllSound :
    (hasher : Hasher) (w : World) (r : Reconciler) → AllSound r → AllSound (settle hasher w r).0
unfolding settle roll_stale
settle-AllSound hasher w r v =
    let checked : AllSound (reverify_checks w r) = rw (reverify_checks-instances w r) v in
    let reaped = (reap w (reverify_checks w r)).0 in
    let desired = desired_slots hasher reaped in
    let kept = (terminate_undesired w desired reaped).0 in
    let unblocked = (stop_check_blocked w kept).0 in
    roll_apps-AllSound w desired unblocked.selected unblocked (
      stop_check_blocked-AllSound w kept (
        terminate_undesired-AllSound w desired reaped
          (reap-AllSound w (reverify_checks w r) checked)))

-- A tick of the control loop keeps every instance sound, whatever the world answers.
pub reconcile-AllSound :
    (hasher : Hasher) (paths : Paths) (w : World) (r : Reconciler)
    → AllSound r
    → AllSound (reconcile hasher paths w r).0
unfolding reconcile
reconcile-AllSound hasher paths w r v =
    let settled = (settle hasher w r).0 in
    let desired = desired_slots hasher settled in
    let launched = spawn_missing hasher paths w desired settled in
    let retired = (retire_stale_surplus w desired launched).0 in
    probe-AllSound w retired (
      retire_stale_surplus-AllSound w desired launched
        (spawn_missing-AllSound hasher paths w settled desired (settle-AllSound hasher w r v)))
