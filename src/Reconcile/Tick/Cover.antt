-- ===== src/Reconcile/Tick/Cover.antt =====
-- crates/artzain-core/src/reconcile.rs: the slots that have an instance, in `spawn_missing` and in
-- what comes after it in a tick.
use artzain.Prelude.{
  ℕ, zero, suc, ◌≡◌, refl, Bool, true, false, ◌||◌, List, [], ◌∷◌, ◌++◌, any, any-append, ◌==◌,
  is_some, lookup, arith, if◌then◌else◌, ◌∙◌, ap,
}
use artzain.Reconcile.Instance.{Instance, Slot, slot, slot_eq, slot_key, begin_stop, new_pending}
use artzain.Reconcile.Spec.{Hasher}
use artzain.Reconcile.Reconciler.{Reconciler, World, Desired}
use artzain.Reconcile.Stops.{stop_at}
use artzain.Reconcile.Roll.{stop_all, retire_stale_surplus, surplus_all}
use artzain.Reconcile.Launch.{
  Paths, add_missing, has_current, spawn, spawn_one, spawn_all, spawn_missing, launched,
  launch_failed,
}
use artzain.Reconcile.Probes.{probe, probe_all, probe_one, probe_app, ready_result, live_result}

-- Some instance is in the slot.
abbrev pub is_filled : Slot → List Instance → Bool
is_filled s l = any (λ i. slot i == s) l

has_current-is_filled :
    (s : Slot) (hash : ℕ) (l : List Instance) → has_current s hash l ≡ true → is_filled s l ≡ true
has_current-is_filled s hash [] h = cc
has_current-is_filled s hash (i ∷ l) h = ground (arith, has_current-is_filled s hash l)

add_missing-is_filled :
    (now : ℕ) (desired : Desired) (l : List Instance) (s : Slot)
    → is_filled s (add_missing now desired l) ≡ (is_filled s l || is_some (lookup s desired))
unfolding add_missing new_pending
add_missing-is_filled now [] l s = ground arith
add_missing-is_filled now ((t, (port, hash)) ∷ desired) l s =
    let new = new_pending now t.0 t.1 port hash ∷ [] in
    let next = if has_current t hash l then l else l ++ new in
    ground (
      arith,
      add_missing-is_filled now desired next s,
      has_current-is_filled t hash l,
      any-append (λ i. slot i == s) l new,
      slot_eq.equal_iff t s,
    )

stop_at-is_filled :
    (now : ℕ) (respawn : Bool) (idx : ℕ) (l : List Instance) (s : Slot)
    → is_filled s (stop_at now respawn idx l).0 ≡ is_filled s l
unfolding stop_at begin_stop
stop_at-is_filled now respawn idx [] s = refl
stop_at-is_filled now respawn zero (i ∷ l) s = refl
stop_at-is_filled now respawn (suc idx) (i ∷ l) s =
    ap (λ b. (slot i == s) || b) (stop_at-is_filled now respawn idx l s)

stop_all-is_filled :
    (now : ℕ) (idxs : List ℕ) (l : List Instance) (s : Slot)
    → is_filled s (stop_all now idxs l).0 ≡ is_filled s l
unfolding stop_all
stop_all-is_filled now [] l s = refl
stop_all-is_filled now (idx ∷ idxs) l s =
    stop_all-is_filled now idxs (stop_at now false idx l).0 s ∙ stop_at-is_filled now false idx l s

pub retire_stale_surplus-is_filled :
    (w : World) (desired : Desired) (r : Reconciler) (s : Slot)
    → is_filled s (retire_stale_surplus w desired r).0.instances ≡ is_filled s r.instances
unfolding retire_stale_surplus
retire_stale_surplus-is_filled w desired r s =
    ground (arith, stop_all-is_filled w.retire_at (surplus_all desired r.instances) r.instances s)

module _ (hasher : Hasher) (paths : Paths) (w : World) where
  pub spawn_one-slot :
      (r : Reconciler) (l : List Instance) (at : ℕ) (i : Instance)
      → slot (spawn_one hasher paths w r l at i) ≡ slot i
  unfolding spawn_one spawn launched launch_failed
  spawn_one-slot r l at i = ground arith

  spawn_all-is_filled :
      (r : Reconciler) (l : List Instance) (at : ℕ) (rest : List Instance) (s : Slot)
      → is_filled s (spawn_all hasher paths w r l at rest) ≡ is_filled s rest
  unfolding spawn_all
  spawn_all-is_filled r l at [] s = refl
  spawn_all-is_filled r l at (i ∷ rest) s =
      ground (arith, spawn_one-slot r l at i, spawn_all-is_filled r l (suc at) rest s)

  pub spawn_missing-is_filled :
      (desired : Desired) (r : Reconciler) (s : Slot)
      → is_filled s (spawn_missing hasher paths w desired r).instances
        ≡ (is_filled s r.instances || is_some (lookup s desired))
  unfolding spawn_missing
  spawn_missing-is_filled desired r s =
      let l = add_missing w.spawn_at desired r.instances in
      spawn_all-is_filled r l 0 l s ∙ add_missing-is_filled w.spawn_at desired r.instances s

pub probe_one-slot :
    (w : World) (r : Reconciler) (at : ℕ) (i : Instance) → slot (probe_one w r at i).0 ≡ slot i
unfolding probe_one probe_app ready_result live_result begin_stop
probe_one-slot w r at i = ground arith

probe_all-is_filled :
    (w : World) (r : Reconciler) (at : ℕ) (l : List Instance) (s : Slot)
    → is_filled s (probe_all w r at l).0 ≡ is_filled s l
unfolding probe_all
probe_all-is_filled w r at [] s = refl
probe_all-is_filled w r at (i ∷ l) s =
    ground (arith, probe_one-slot w r at i, probe_all-is_filled w r (suc at) l s)

pub probe-is_filled :
    (w : World) (r : Reconciler) (s : Slot)
    → is_filled s (probe w r).0.instances ≡ is_filled s r.instances
unfolding probe
probe-is_filled w r s = probe_all-is_filled w r 0 r.instances s
