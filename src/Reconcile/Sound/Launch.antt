-- ===== src/Reconcile/Sound/Launch.antt =====
-- The invariant through `spawn_missing`.
use artzain.Prelude.{
  ℕ, Bool, true, false, List, [], ◌∷◌, ◌++◌, ◌≡◌, nat_eq, if◌then◌else◌, All, All-append, arith,
  Bool-cases, inl, inr,
}
use artzain.Manifest.{App, Defaults, Manifest}
use artzain.State.{phase_eq}
use artzain.Process.{Handle}
use artzain.Reconcile.Instance.{Instance, slot_eq, is_running, new_pending}
use artzain.Reconcile.Spec.{Hasher}
use artzain.Reconcile.Reconciler.{Reconciler, World, Desired}
use artzain.Reconcile.Launch.{
  Paths, add_missing, launched, launch_failed, spawn, spawn_one, has_current,
}
use artzain.Reconcile.Sound.{IsSound, new_pending-IsSound}

pub add_missing-IsSound :
    (now : ℕ) (desired : Desired) (l : List Instance)
    → All IsSound l
    → All IsSound (add_missing now desired l)
unfolding add_missing
add_missing-IsSound now [] l v = v
add_missing-IsSound now ((s, (port, hash)) ∷ desired) l v =
    add_missing-IsSound now desired _ (at (has_current s hash l))
  where
    at : (b : Bool) → All IsSound (if b then l else l ++ new_pending now s.0 s.1 port hash ∷ [])
    at true = v
    at false = All-append IsSound l _ v (new_pending-IsSound now s port hash, tt)

launched-IsSound :
    (hasher : Hasher) (m : Manifest) (a : App) (now : ℕ) (h : Handle) (i : Instance)
    → IsSound (launched hasher m a now h i)
unfolding launched
launched-IsSound hasher m a now h i = ground arith

launch_failed-IsSound :
    (d : Defaults) (now : ℕ) (i : Instance)
    → IsSound i
    → is_running i ≡ false
    → IsSound (launch_failed d now i)
unfolding launch_failed
launch_failed-IsSound d now i v idle = ground arith

module _ (hasher : Hasher) (paths : Paths) (w : World) (r : Reconciler) where
  spawn-IsSound :
      (at : ℕ) (i : Instance)
      → IsSound i
      → is_running i ≡ false
      → IsSound (spawn hasher paths w r at i)
  unfolding spawn
  spawn-IsSound at i v idle = ground (
    arith,
    launch_failed-IsSound r.manifest.defaults (w.spawned_at at) i v idle,
    launched-IsSound hasher r.manifest,
  )

  pub spawn_one-IsSound :
      (l : List Instance) (at : ℕ) (i : Instance)
      → IsSound i
      → IsSound (spawn_one hasher paths w r l at i)
  unfolding spawn_one
  spawn_one-IsSound l at i v = elim (Bool-cases (is_running i)) [
    | inl runs ↦ rw runs v
    | inr idle ↦ rw idle (ground (arith, spawn-IsSound at i v idle))
  ]
