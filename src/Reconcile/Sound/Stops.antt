-- ===== src/Reconcile/Sound/Stops.antt =====
-- The invariant through the operations that stop instances.
use artzain.Prelude.{
  ℕ, zero, suc, Bool, true, false, ◌&&◌, not, Option, none, some, List, [], ◌∷◌, ◌++◌, nat_eq,
  if◌then◌else◌, map_or, All, All-retain, ◌==◌, get_elem?, contains,
}
use artzain.State.{Phase, phase_eq}
use artzain.Process.{Effect}
use artzain.Reconcile.Instance.{Instance, slot, slot_eq, is_running, begin_stop}
use artzain.Reconcile.Reconciler.{Reconciler, World, Desired}
use artzain.Reconcile.Stops.{
  stop_at, Sweep, sweep, sweep_one, sort_desc, undesired, terminate_undesired, block_all,
  is_blocked, stop_check_blocked,
}
use artzain.Reconcile.Sound.{IsSound, AllSound, begin_stop-IsSound}

pub stop_at-IsSound :
    (now : ℕ) (b : Bool) (idx : ℕ) (l : List Instance)
    → All IsSound l
    → All IsSound (stop_at now b idx l).0
unfolding stop_at
stop_at-IsSound now b idx [] v = tt
stop_at-IsSound now b zero (i ∷ l) v = (begin_stop-IsSound now b i v.0, v.1)
stop_at-IsSound now b (suc idx) (i ∷ l) v = (v.0, stop_at-IsSound now b idx l v.1)

sweep_one-IsSound :
    (now idx : ℕ) (i : Instance) (s : Sweep)
    → All IsSound s.instances
    → All IsSound (sweep_one now idx i s).instances
sweep_one-IsSound now idx i s v = at (is_running i) (i.phase == Phase.terminating)
  where
    at :
        (a b : Bool)
        → All IsSound
            (if a
              then (if b
                  then s
                  else (let (l, e) = stop_at now false idx s.instances in
                      record s { instances = l; effects = s.effects ++ e }))
              else record s { remove = s.remove ++ slot i ∷ [] }).instances
    at true true = v
    at true false = stop_at-IsSound now false idx s.instances v
    at false b = v

sweep-IsSound :
    (now : ℕ) (l : List (ℕ × ℕ)) (s : Sweep)
    → All IsSound s.instances
    → All IsSound (sweep now l s).instances
unfolding sweep
sweep-IsSound now [] s v = v
sweep-IsSound now ((idx, replica) ∷ l) s v = sweep-IsSound now l _ (at (get_elem? s.instances idx))
  where
    at : (o : Option Instance) → All IsSound (map_or o s (λ i. sweep_one now idx i s)).instances
    at none = v
    at (some i) = sweep_one-IsSound now idx i s v

pub terminate_undesired-AllSound :
    (w : World) (desired : Desired) (r : Reconciler)
    → AllSound r
    → AllSound (terminate_undesired w desired r).0
unfolding terminate_undesired
terminate_undesired-AllSound w desired r v =
    let order = sort_desc (undesired desired 0 r.instances) in
    let swept =
      sweep w.terminate_at order (record { instances = r.instances; remove = []; effects = [] }) in
    All-retain IsSound (λ i. not (contains swept.remove (slot i))) swept.instances
      (sweep-IsSound w.terminate_at order _ v)

abbrev FineList : List Instance × List Effect → Type 0
FineList x = All IsSound x.0

block_all-IsSound :
    (now : ℕ) (p : Instance → Bool) (l : List Instance)
    → All IsSound l
    → All IsSound (block_all now p l).0
unfolding block_all
block_all-IsSound now p [] v = tt
block_all-IsSound now p (i ∷ l) v =
    at (p i && (is_running i && not (i.phase == Phase.terminating))) (block_all-IsSound now p l v.1)
      (begin_stop-IsSound now true i v.0)
  where
    at :
        (b : Bool)
        → All IsSound (block_all now p l).0
        → IsSound (begin_stop now true i).0
        → FineList (
            if b
            then (
              (begin_stop now true i).0 ∷ (block_all now p l).0,
              (begin_stop now true i).1 ++ (block_all now p l).1,
            )
            else (i ∷ (block_all now p l).0, (block_all now p l).1))
    at true rest stopped = (stopped, rest)
    at false rest stopped = (v.0, rest)

pub stop_check_blocked-AllSound :
    (w : World) (r : Reconciler) → AllSound r → AllSound (stop_check_blocked w r).0
unfolding stop_check_blocked
stop_check_blocked-AllSound w r v = block_all-IsSound w.block_at (is_blocked r) r.instances v

-- What `find` and `begin_stop` leave, if anything was found.
