-- ===== src/Reconcile/Tick/Stay.antt =====
-- crates/artzain-core/src/reconcile.rs: the operations of a tick after `terminate_undesired`, and
-- the instances that are wanted or stopping.
use artzain.Prelude.{
  ℕ, zero, suc, ◌≡◌, refl, Bool, true, false, ◌&&◌, ◌||◌, Option, none, some, String, List, [], ◌∷◌,
  ◌++◌, map_or, arith, if◌then◌else◌, All, all, ◌≡◌, ltb, leb, ◌-◌,
}
use artzain.State.{phase_eq}
use artzain.Process.{Effect}
use artzain.Reconcile.Instance.{Instance, Slot, slot, slot_eq, slot_key, begin_stop, new_pending}
use artzain.Reconcile.Spec.{Hasher}
use artzain.Reconcile.Reconciler.{Reconciler, World, Desired}
use artzain.Reconcile.Stops.{stop_at, block_all, is_blocked, stop_check_blocked}
use artzain.Reconcile.Stops.Undesired.{MayStay, is_stopping}
use artzain.Reconcile.Roll.{
  stop_first, roll_app, roll_apps, roll_stale, roll_surge, non_ready_stale, ready_stale,
  with_instances, stop_all, retire_stale_surplus, surplus_all, max_unavailable, desired_count,
  ready_of,
}
use artzain.Reconcile.Launch.{
  Paths, add_missing, has_current, spawn, spawn_one, spawn_all, spawn_missing, launched,
  launch_failed,
}
use artzain.Reconcile.Probes.{probe, probe_all, probe_one}
use artzain.Reconcile.Tick.Cover.{probe_one-slot}

module _ (wanted : Slot → Bool) where
  abbrev pub stays : Instance → Bool
  stays i = wanted (slot i) || is_stopping i

  abbrev pub all_stay : List Instance → Bool
  all_stay l = all stays l

  pub all_stay-of_All : (l : List Instance) → All (MayStay wanted) l → all_stay l ≡ true
  all_stay-of_All [] h = refl
  all_stay-of_All (i ∷ l) h = ground (arith, h.0, all_stay-of_All l h.1)

  all_stay-block_all :
      (now : ℕ) (blocked : Instance → Bool) (l : List Instance)
      → all_stay l ≡ true
      → all_stay (block_all now blocked l).0 ≡ true
  unfolding block_all begin_stop
  all_stay-block_all now blocked [] h = refl
  all_stay-block_all now blocked (i ∷ l) h = ground (arith, all_stay-block_all now blocked l)

  pub all_stay-stop_check_blocked :
      (w : World) (r : Reconciler)
      → all_stay r.instances ≡ true
      → all_stay (stop_check_blocked w r).0.instances ≡ true
  unfolding stop_check_blocked
  all_stay-stop_check_blocked w r = all_stay-block_all w.block_at (is_blocked r) r.instances

  -- What the search for an instance to stop gives.
  abbrev found_stay : Option (List Instance × List Effect) → Bool
  found_stay o = map_or o true (λ x. all_stay x.0)

  found_stay-stop_first :
      (p : Instance → Bool) (now : ℕ) (l : List Instance)
      → all_stay l ≡ true
      → found_stay (stop_first p now l) ≡ true
  unfolding stop_first begin_stop
  found_stay-stop_first p now [] h = refl
  found_stay-stop_first p now (i ∷ l) h =
      by (p i) (stop_first p now l) (found_stay-stop_first p now l (ground arith))
    where
      by :
          (t : Bool) (o : Option (List Instance × List Effect))
          → found_stay o ≡ true
          → found_stay (
              if t
              then some ((begin_stop now false i).0 ∷ l, (begin_stop now false i).1)
              else map_or o none (λ y. some (i ∷ y.0, y.1)))
            ≡ true
      by true o k = ground arith
      by false none k = refl
      by false (some y) k = ground arith

  all_stay-with_instances :
      (r : Reconciler) (o : Option (List Instance × List Effect))
      → all_stay r.instances ≡ true
      → found_stay o ≡ true
      → all_stay (with_instances r o).0.instances ≡ true
  all_stay-with_instances r none h k = h
  all_stay-with_instances r (some x) h k = k

  all_stay-roll_surge :
      (desired : Desired) (name : String) (r : Reconciler)
      → all_stay r.instances ≡ true
      → all_stay (roll_surge desired name r).instances ≡ true
  unfolding roll_surge
  all_stay-roll_surge desired name r h = ground arith

  all_stay-roll_app :
      (w : World) (desired : Desired) (name : String) (r : Reconciler)
      → all_stay r.instances ≡ true
      → all_stay (roll_app w desired name r).0.instances ≡ true
  unfolding roll_app
  all_stay-roll_app w desired name r h =
      by (stop_first (non_ready_stale desired name) w.roll_at r.instances)
        (ltb 0 r.manifest.defaults.max_surge)
        (leb max_unavailable (desired_count r name - ready_of name r.instances))
        (found_stay-stop_first (non_ready_stale desired name) w.roll_at r.instances h)
    where
      by :
          (o : Option (List Instance × List Effect)) (s u : Bool)
          → found_stay o ≡ true
          → all_stay
              (elim o as (λ _. Reconciler × List Effect) [
                | some x ↦ with_instances r (some x)
                | none ↦
                    if s
                    then (roll_surge desired name r, [])
                    else (if u
                        then (r, [])
                        else with_instances r
                            (stop_first (ready_stale desired name) w.roll_at r.instances))
              ]).0.instances
            ≡ true
      by (some x) s u k = k
      by none true u k = all_stay-roll_surge desired name r h
      by none false true k = h
      by none false false k =
          all_stay-with_instances r (stop_first (ready_stale desired name) w.roll_at r.instances) h
            (found_stay-stop_first (ready_stale desired name) w.roll_at r.instances h)

  all_stay-roll_apps :
      (w : World) (desired : Desired) (names : List String) (r : Reconciler)
      → all_stay r.instances ≡ true
      → all_stay (roll_apps w desired names r).0.instances ≡ true
  unfolding roll_apps
  all_stay-roll_apps w desired [] r h = h
  all_stay-roll_apps w desired (n ∷ names) r h =
      all_stay-roll_apps w desired names (roll_app w desired n r).0
        (all_stay-roll_app w desired n r h)

  pub all_stay-roll_stale :
      (w : World) (desired : Desired) (r : Reconciler)
      → all_stay r.instances ≡ true
      → all_stay (roll_stale w desired r).0.instances ≡ true
  unfolding roll_stale
  all_stay-roll_stale w desired r = all_stay-roll_apps w desired r.selected r

  all_stay-append : (l m : List Instance) → all_stay (l ++ m) ≡ (all_stay l && all_stay m)
  all_stay-append [] m = refl
  all_stay-append (i ∷ l) m = ground (arith, all_stay-append l m)

  -- Each slot of the list is wanted.
  abbrev all_wanted : Desired → Bool
  all_wanted desired = all (λ d. wanted d.0) desired

  all_stay-add_missing :
      (now : ℕ) (desired : Desired) (l : List Instance)
      → all_wanted desired ≡ true
      → all_stay l ≡ true
      → all_stay (add_missing now desired l) ≡ true
  unfolding add_missing new_pending
  all_stay-add_missing now [] l d h = h
  all_stay-add_missing now ((t, (port, hash)) ∷ desired) l d h =
      let new = new_pending now t.0 t.1 port hash ∷ [] in
      let next = if has_current t hash l then l else l ++ new in
      ground (arith, all_stay-add_missing now desired next, all_stay-append l new)

  stays-spawn_one :
      (hasher : Hasher) (paths : Paths) (w : World) (r : Reconciler) (l : List Instance) (at : ℕ)
      (i : Instance)
      → stays i ≡ true
      → stays (spawn_one hasher paths w r l at i) ≡ true
  unfolding spawn_one spawn launched launch_failed
  stays-spawn_one hasher paths w r l at i h = ground arith

  all_stay-spawn_all :
      (hasher : Hasher) (paths : Paths) (w : World) (r : Reconciler) (l : List Instance) (at : ℕ)
      (rest : List Instance)
      → all_stay rest ≡ true
      → all_stay (spawn_all hasher paths w r l at rest) ≡ true
  unfolding spawn_all
  all_stay-spawn_all hasher paths w r l at [] h = refl
  all_stay-spawn_all hasher paths w r l at (i ∷ rest) h = ground (
    arith,
    stays-spawn_one hasher paths w r l at i,
    all_stay-spawn_all hasher paths w r l (suc at) rest,
  )

  pub all_stay-spawn_missing :
      (hasher : Hasher) (paths : Paths) (w : World) (desired : Desired) (r : Reconciler)
      → all_wanted desired ≡ true
      → all_stay r.instances ≡ true
      → all_stay (spawn_missing hasher paths w desired r).instances ≡ true
  unfolding spawn_missing
  all_stay-spawn_missing hasher paths w desired r d h =
      let l = add_missing w.spawn_at desired r.instances in
      all_stay-spawn_all hasher paths w r l 0 l
        (all_stay-add_missing w.spawn_at desired r.instances d h)

  all_stay-stop_at :
      (now idx : ℕ) (l : List Instance)
      → all_stay l ≡ true
      → all_stay (stop_at now false idx l).0 ≡ true
  unfolding stop_at begin_stop
  all_stay-stop_at now idx [] h = refl
  all_stay-stop_at now zero (i ∷ l) h = ground arith
  all_stay-stop_at now (suc idx) (i ∷ l) h = ground (arith, all_stay-stop_at now idx l)

  all_stay-stop_all :
      (now : ℕ) (idxs : List ℕ) (l : List Instance)
      → all_stay l ≡ true
      → all_stay (stop_all now idxs l).0 ≡ true
  unfolding stop_all
  all_stay-stop_all now [] l h = h
  all_stay-stop_all now (idx ∷ idxs) l h =
      all_stay-stop_all now idxs (stop_at now false idx l).0 (all_stay-stop_at now idx l h)

  pub all_stay-retire :
      (w : World) (desired : Desired) (r : Reconciler)
      → all_stay r.instances ≡ true
      → all_stay (retire_stale_surplus w desired r).0.instances ≡ true
  unfolding retire_stale_surplus
  all_stay-retire w desired r h =
      ground (arith, all_stay-stop_all w.retire_at (surplus_all desired r.instances) r.instances)

  stays-probe_one :
      (w : World) (r : Reconciler) (at : ℕ) (i : Instance)
      → stays i ≡ true
      → stays (probe_one w r at i).0 ≡ true
  unfolding probe_one
  stays-probe_one w r at i h = ground (arith, probe_one-slot w r at i)

  all_stay-probe_all :
      (w : World) (r : Reconciler) (at : ℕ) (l : List Instance)
      → all_stay l ≡ true
      → all_stay (probe_all w r at l).0 ≡ true
  unfolding probe_all
  all_stay-probe_all w r at [] h = refl
  all_stay-probe_all w r at (i ∷ l) h =
      ground (arith, stays-probe_one w r at i, all_stay-probe_all w r (suc at) l)

  pub all_stay-probe :
      (w : World) (r : Reconciler)
      → all_stay r.instances ≡ true
      → all_stay (probe w r).0.instances ≡ true
  unfolding probe
  all_stay-probe w r = all_stay-probe_all w r 0 r.instances
