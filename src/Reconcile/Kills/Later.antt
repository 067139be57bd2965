-- ===== src/Reconcile/Kills/Later.antt =====
-- crates/artzain-core/src/reconcile.rs: the rolling update and the probes never send SIGKILL.
use artzain.Prelude.{
  ℕ, suc, ◌+◌, ◌*◌, refl, Bool, true, false, not, ◌&&◌, ◌||◌, Option, none, some, List, [], ◌∷◌,
  ◌++◌, String, map_or, if◌then◌else◌, ltb, leb, ◌==◌, nat_eq, string_eq, ◌-◌,
}
use artzain.Words.{add_u32}
use artzain.Manifest.{App, app}
use artzain.State.{Phase, phase_eq}
use artzain.Process.{Effect}
use artzain.Reconcile.Instance.{Instance, is_running}
use artzain.Reconcile.Reconciler.{Reconciler, World, Desired}
use artzain.Reconcile.Stops.{stop_at}
use artzain.Reconcile.Roll.{
  stop_first, with_instances, roll_app, roll_apps, roll_stale, roll_surge, stop_all, surplus_all,
  retire_stale_surplus, non_ready_stale, ready_stale, max_unavailable, desired_count, ready_of,
}
use artzain.Reconcile.Probes.{
  Probed, ready_period, ready_result, live_result, ready_step, live_step, probe_app, probe_one,
  probe_all, probe, unchanged, stopped, address,
}
use artzain.Reconcile.Kills.Gentle.{
  Gentle, GentleFound, Gentle-append, begin_stop-Gentle, stop_at-Gentle, stop_first-Gentle,
}

with_instances-Gentle :
    (r : Reconciler) (o : Option (List Instance × List Effect))
    → GentleFound o
    → Gentle (with_instances r o).1
with_instances-Gentle r none h = refl
with_instances-Gentle r (some (l, e)) h = h

roll_app-Gentle :
    (w : World) (desired : Desired) (name : String) (r : Reconciler)
    → Gentle (roll_app w desired name r).1
unfolding roll_app
roll_app-Gentle w desired name r =
    by_search (stop_first (non_ready_stale desired name) w.roll_at r.instances)
      (stop_first-Gentle (non_ready_stale desired name) w.roll_at r.instances)
  where
    next : Option (List Instance × List Effect)
    next = stop_first (ready_stale desired name) w.roll_at r.instances

    GentlePair : Reconciler × List Effect → Type 0
    GentlePair x = Gentle x.1

    by_tests :
        (a b : Bool)
        → GentlePair (
            if a
            then (roll_surge desired name r, [])
            else (if b then (r, []) else with_instances r next))
    by_tests true b = refl
    by_tests false true = refl
    by_tests false false =
        with_instances-Gentle r next
          (stop_first-Gentle (ready_stale desired name) w.roll_at r.instances)

    by_search :
        (o : Option (List Instance × List Effect))
        → GentleFound o
        → GentlePair (elim o as (λ _. Reconciler × List Effect) [
          | some x ↦ with_instances r (some x)
          | none ↦
              if ltb 0 r.manifest.defaults.max_surge
              then (roll_surge desired name r, [])
              else (if leb max_unavailable (desired_count r name - ready_of name r.instances)
                  then (r, [])
                  else with_instances r next)
        ])
    by_search none h =
        by_tests (ltb 0 r.manifest.defaults.max_surge)
          (leb max_unavailable (desired_count r name - ready_of name r.instances))
    by_search (some x) h = h

roll_apps-Gentle :
    (w : World) (desired : Desired) (names : List String) (r : Reconciler)
    → Gentle (roll_apps w desired names r).1
unfolding roll_apps
roll_apps-Gentle w desired [] r = refl
roll_apps-Gentle w desired (n ∷ names) r =
    let one = roll_app w desired n r in
    Gentle-append one.1 (roll_apps w desired names one.0).1 (roll_app-Gentle w desired n r)
      (roll_apps-Gentle w desired names one.0)

pub roll_stale-Gentle :
    (w : World) (desired : Desired) (r : Reconciler) → Gentle (roll_stale w desired r).1
unfolding roll_stale
roll_stale-Gentle w desired r = roll_apps-Gentle w desired r.selected r

stop_all-Gentle : (now : ℕ) (idxs : List ℕ) (l : List Instance) → Gentle (stop_all now idxs l).1
unfolding stop_all
stop_all-Gentle now [] l = refl
stop_all-Gentle now (idx ∷ rest) l =
    let one = stop_at now false idx l in
    Gentle-append one.1 (stop_all now rest one.0).1 (stop_at-Gentle now false idx l)
      (stop_all-Gentle now rest one.0)

pub retire_stale_surplus-Gentle :
    (w : World) (desired : Desired) (r : Reconciler) → Gentle (retire_stale_surplus w desired r).1
unfolding retire_stale_surplus
retire_stale_surplus-Gentle w desired r = by_surge (r.manifest.defaults.max_surge == 0)
  where
    GentlePair : Reconciler × List Effect → Type 0
    GentlePair x = Gentle x.1

    by_surge :
        (b : Bool)
        → GentlePair (
            if b then (r, []) else (
              record r {
                instances = (stop_all w.retire_at (surplus_all desired r.instances) r.instances).0;
              },
              (stop_all w.retire_at (surplus_all desired r.instances) r.instances).1,
            ))
    by_surge true = refl
    by_surge false = stop_all-Gentle w.retire_at (surplus_all desired r.instances) r.instances

abbrev GentleProbe : Probed → Type 0
GentleProbe x = Gentle x.effects

ready_result-Gentle : (now : ℕ) (ok : Bool) (i : Instance) → GentleProbe (ready_result now ok i)
unfolding ready_result
ready_result-Gentle now true i = refl
ready_result-Gentle now false i =
    by_tests (i.phase == Phase.ready)
      ((i.phase == Phase.starting) && map_or i.ready_deadline false (λ dl. leb dl now))
  where
    j : Instance
    j = record i { next_ready_probe = now + ready_period }

    by_tests :
        (a b : Bool)
        → GentleProbe (
            if a
            then unchanged (record j { phase = Phase.unready })
            else (if b then stopped now j else unchanged j))
    by_tests true b = refl
    by_tests false true = begin_stop-Gentle now true j
    by_tests false false = refl

live_result-Gentle :
    (a : App) (now : ℕ) (ok : Bool) (i : Instance) → GentleProbe (live_result a now ok i)
unfolding live_result
live_result-Gentle a now true i = refl
live_result-Gentle a now false i = by_test (leb a.live_failures fails)
  where
    fails : ℕ
    fails = add_u32 i.consecutive_live_fail 1

    j : Instance
    j = record i { next_live_probe = now + a.live_period * 1000; consecutive_live_fail = fails }

    by_test : (b : Bool) → GentleProbe (if b then stopped now j else unchanged j)
    by_test true = begin_stop-Gentle now true j
    by_test false = refl

ready_step-Gentle :
    (w : World) (a : App) (at : ℕ) (i : Instance) → GentleProbe (ready_step w a at i)
ready_step-Gentle w a at i = by_test (leb i.next_ready_probe w.probe_at && not (a.ready_path == ""))
  where
    by_test :
        (b : Bool)
        → GentleProbe (
            if b
            then ready_result
                (w.ready_answered_at at)
                (w.ready_answer at (address i) a.ready_path)
                i
            else unchanged i)
    by_test true =
        ready_result-Gentle (w.ready_answered_at at) (w.ready_answer at (address i) a.ready_path) i
    by_test false = refl

live_step-Gentle :
    (w : World) (a : App) (at : ℕ) (i j : Instance) → GentleProbe (live_step w a at i j)
live_step-Gentle w a at i j =
    by_test (leb i.next_live_probe w.probe_at && (not (a.live_path == "") && j.ever_ready))
  where
    by_test :
        (b : Bool)
        → GentleProbe (
            if b
            then live_result a (w.live_answered_at at) (w.live_answer at (address i) a.live_path) j
            else unchanged j)
    by_test true =
        live_result-Gentle a (w.live_answered_at at) (w.live_answer at (address i) a.live_path) j
    by_test false = refl

probe_app-Gentle : (w : World) (a : App) (at : ℕ) (i : Instance) → Gentle (probe_app w a at i).1
unfolding probe_app
probe_app-Gentle w a at i = by_skip first.skip
  where
    first : Probed
    first = ready_step w a at i

    second : Probed
    second = live_step w a at i first.instance

    GentlePair : Instance × List Effect → Type 0
    GentlePair x = Gentle x.1

    by_skip :
        (b : Bool)
        → GentlePair (
            if b
            then (first.instance, first.effects)
            else (second.instance, first.effects ++ second.effects))
    by_skip true = ready_step-Gentle w a at i
    by_skip false =
        Gentle-append first.effects second.effects (ready_step-Gentle w a at i)
          (live_step-Gentle w a at i first.instance)

probe_one-Gentle :
    (w : World) (r : Reconciler) (at : ℕ) (i : Instance) → Gentle (probe_one w r at i).1
unfolding probe_one
probe_one-Gentle w r at i =
    by_test (not (is_running i) || (i.phase == Phase.terminating)) (app r.manifest i.app)
  where
    GentlePair : Instance × List Effect → Type 0
    GentlePair x = Gentle x.1

    by_test :
        (b : Bool) (o : Option App)
        → GentlePair (if b then (i, []) else map_or o (i, []) (λ a. probe_app w a at i))
    by_test true o = refl
    by_test false none = refl
    by_test false (some a) = probe_app-Gentle w a at i

probe_all-Gentle :
    (w : World) (r : Reconciler) (at : ℕ) (l : List Instance) → Gentle (probe_all w r at l).1
unfolding probe_all
probe_all-Gentle w r at [] = refl
probe_all-Gentle w r at (i ∷ l) =
    Gentle-append (probe_one w r at i).1 (probe_all w r (suc at) l).1 (probe_one-Gentle w r at i)
      (probe_all-Gentle w r (suc at) l)

pub probe-Gentle : (w : World) (r : Reconciler) → Gentle (probe w r).1
unfolding probe
probe-Gentle w r = probe_all-Gentle w r 0 r.instances
