-- ===== src/Reconcile/Kills/Gentle.antt =====
-- crates/artzain-core/src/reconcile.rs: the operations of a tick that never send SIGKILL.
use artzain.Prelude.{
  ℕ, zero, suc, ◌≡◌, refl, Bool, true, false, not, ◌&&◌, Option, none, some, List, [], ◌∷◌, ◌++◌,
  all, all-append, map_or, if◌then◌else◌, ap₂, ◌∙◌, ltb, ◌==◌, nat_eq, string_eq, contains,
  get_elem?,
}
use artzain.State.{Phase, phase_eq}
use artzain.Process.{Handle, Effect, signalled, killed_on_drop, sigterm, sigkill, terminate}
use artzain.Reconcile.Instance.{Instance, Slot, slot, slot_eq, is_running, begin_stop}
use artzain.Reconcile.Reconciler.{Reconciler, World, Desired, drop_effects}
use artzain.Reconcile.Reap.{removed_effects}
use artzain.Reconcile.Stops.{
  stop_at, Sweep, sweep_one, sweep, sort_desc, undesired, terminate_undesired, block_all,
  is_blocked, stop_check_blocked,
}
use artzain.Reconcile.Roll.{stop_first}

abbrev pub is_gentle : Effect → Bool
is_gentle (signalled pgid sigterm) = true
is_gentle (signalled pgid sigkill) = false
is_gentle (killed_on_drop child) = true

abbrev pub Gentle : List Effect → Type 0
Gentle l = all is_gentle l ≡ true

pub Gentle-append : (l m : List Effect) → Gentle l → Gentle m → Gentle (l ++ m)
Gentle-append l m h k = all-append is_gentle l m ∙ ap₂ (λ a b. a && b) h k

terminate-Gentle : (h : Handle) → Gentle (terminate h)
terminate-Gentle h = by_positive (ltb 0 h.pgid)
  where
    by_positive : (b : Bool) → Gentle (if b then signalled h.pgid sigterm ∷ [] else [])
    by_positive true = refl
    by_positive false = refl

pub begin_stop-Gentle :
    (now : ℕ) (respawn : Bool) (i : Instance) → Gentle (begin_stop now respawn i).1
unfolding begin_stop
begin_stop-Gentle now respawn i = by_handle i.handle
  where
    by_handle : (o : Option Handle) → Gentle (map_or o [] terminate)
    by_handle none = refl
    by_handle (some h) = terminate-Gentle h

pub stop_at-Gentle :
    (now : ℕ) (respawn : Bool) (idx : ℕ) (l : List Instance) → Gentle (stop_at now respawn idx l).1
unfolding stop_at
stop_at-Gentle now respawn idx [] = refl
stop_at-Gentle now respawn zero (i ∷ l) = begin_stop-Gentle now respawn i
stop_at-Gentle now respawn (suc idx) (i ∷ l) = stop_at-Gentle now respawn idx l

pub removed_effects-Gentle :
    (slots : List Slot) (l : List Instance) → Gentle (removed_effects slots l)
removed_effects-Gentle slots [] = refl
removed_effects-Gentle slots (i ∷ l) =
    Gentle-append (if contains slots (slot i) then drop_effects i else []) (removed_effects slots l)
      (by_slot (contains slots (slot i)) i.handle) (removed_effects-Gentle slots l)
  where
    by_slot :
        (b : Bool) (o : Option Handle)
        → Gentle (if b then map_or o [] (λ h. killed_on_drop h.child ∷ []) else [])
    by_slot false o = refl
    by_slot true none = refl
    by_slot true (some h) = refl

sweep_one-Gentle :
    (now idx : ℕ) (i : Instance) (s : Sweep)
    → Gentle s.effects
    → Gentle (sweep_one now idx i s).effects
sweep_one-Gentle now idx i s h = by_tests (is_running i) (i.phase == Phase.terminating) (
    Gentle-append s.effects (stop_at now false idx s.instances).1 h
      (stop_at-Gentle now false idx s.instances))
  where
    GentleSweep : Sweep → Type 0
    GentleSweep t = Gentle t.effects

    by_tests :
        (a b : Bool)
        → Gentle (s.effects ++ (stop_at now false idx s.instances).1)
        → GentleSweep (
            if a
            then (if b then s else record s {
              instances = (stop_at now false idx s.instances).0;
              effects = s.effects ++ (stop_at now false idx s.instances).1;
            })
            else record s { remove = s.remove ++ slot i ∷ [] })
    by_tests true true k = h
    by_tests true false k = k
    by_tests false b k = h

sweep-Gentle :
    (now : ℕ) (l : List (ℕ × ℕ)) (s : Sweep) → Gentle s.effects → Gentle (sweep now l s).effects
unfolding sweep
sweep-Gentle now [] s h = h
sweep-Gentle now ((idx, replica) ∷ l) s h =
    sweep-Gentle now l (map_or (get_elem? s.instances idx) s (λ i. sweep_one now idx i s))
      (by_elem (get_elem? s.instances idx))
  where
    by_elem : (o : Option Instance) → Gentle (map_or o s (λ i. sweep_one now idx i s)).effects
    by_elem none = h
    by_elem (some i) = sweep_one-Gentle now idx i s h

pub terminate_undesired-Gentle :
    (w : World) (desired : Desired) (r : Reconciler) → Gentle (terminate_undesired w desired r).1
unfolding terminate_undesired
terminate_undesired-Gentle w desired r =
    let start : Sweep = record { instances = r.instances; remove = []; effects = [] } in
    let l = sort_desc (undesired desired 0 r.instances) in
    let swept = sweep w.terminate_at l start in
    Gentle-append swept.effects (removed_effects swept.remove swept.instances)
      (sweep-Gentle w.terminate_at l start refl)
      (removed_effects-Gentle swept.remove swept.instances)

block_all-Gentle :
    (now : ℕ) (blocked : Instance → Bool) (l : List Instance) → Gentle (block_all now blocked l).1
unfolding block_all
block_all-Gentle now blocked [] = refl
block_all-Gentle now blocked (i ∷ l) =
    by_test (blocked i && (is_running i && not (i.phase == Phase.terminating)))
      (block_all-Gentle now blocked l)
  where
    GentlePair : List Instance × List Effect → Type 0
    GentlePair x = Gentle x.1

    by_test :
        (b : Bool)
        → Gentle (block_all now blocked l).1
        → GentlePair (
            if b
            then (
              (begin_stop now true i).0 ∷ (block_all now blocked l).0,
              (begin_stop now true i).1 ++ (block_all now blocked l).1,
            )
            else (i ∷ (block_all now blocked l).0, (block_all now blocked l).1))
    by_test true h =
        Gentle-append (begin_stop now true i).1 (block_all now blocked l).1
          (begin_stop-Gentle now true i) h
    by_test false h = h

pub stop_check_blocked-Gentle : (w : World) (r : Reconciler) → Gentle (stop_check_blocked w r).1
unfolding stop_check_blocked
stop_check_blocked-Gentle w r = block_all-Gentle w.block_at (is_blocked r) r.instances

-- What the search for an instance to stop gives.
abbrev pub GentleFound : Option (List Instance × List Effect) → Type 0
GentleFound o = map_or o true (λ x. all is_gentle x.1) ≡ true

pub stop_first-Gentle :
    (p : Instance → Bool) (now : ℕ) (l : List Instance) → GentleFound (stop_first p now l)
unfolding stop_first
stop_first-Gentle p now [] = refl
stop_first-Gentle p now (i ∷ l) = by_test (p i) (stop_first-Gentle p now l)
  where
    later :
        (o : Option (List Instance × List Effect))
        → GentleFound o
        → GentleFound (map_or o none (λ x. some (i ∷ x.0, x.1)))
    later none h = refl
    later (some x) h = h

    by_test :
        (b : Bool)
        → GentleFound (stop_first p now l)
        → GentleFound (
            if b
            then some ((begin_stop now false i).0 ∷ l, (begin_stop now false i).1)
            else map_or (stop_first p now l) none (λ x. some (i ∷ x.0, x.1)))
    by_test true h = begin_stop-Gentle now false i
    by_test false h = later (stop_first p now l) h
