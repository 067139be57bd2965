-- ===== src/Reconcile/Tick/Converged.antt =====
-- crates/artzain-core/src/reconcile.rs: a tick against the desired slots.
use artzain.Prelude.{◌≡◌, refl, Bool, true, String, List, [], ◌∷◌, all, is_some, lookup, arith, ◌∙◌}
use artzain.Reconcile.Instance.{Instance, Slot, slot, slot_eq, slot_key}
use artzain.Reconcile.Spec.{Hasher}
use artzain.Reconcile.Reconciler.{Reconciler, World, Desired}
use artzain.Reconcile.Reap.{reap}
use artzain.Reconcile.Slots.{desired_slots}
use artzain.Reconcile.Slots.Wanted.{is_wanted, desired_slots_iff}
use artzain.Reconcile.Stops.{terminate_undesired, stop_check_blocked}
use artzain.Reconcile.Stops.Undesired.{terminate_undesired-MayStay}
use artzain.Reconcile.Roll.{roll_stale, roll_apps, roll_app, roll_surge, retire_stale_surplus}
use artzain.Reconcile.Launch.{Paths, spawn_missing}
use artzain.Reconcile.Probes.{reverify_checks}
use artzain.Reconcile.Tick.{settle, reconcile}
use artzain.Reconcile.Tick.Cover.{
  is_filled, spawn_missing-is_filled, retire_stale_surplus-is_filled, probe-is_filled,
}
use artzain.Reconcile.Tick.Stay.{
  all_stay, all_stay-of_All, all_stay-stop_check_blocked, all_stay-roll_stale,
  all_stay-spawn_missing, all_stay-retire, all_stay-probe,
}

all-lookup :
    (f : Slot → Bool) (m : Desired)
    → ((s : Slot) → is_some (lookup s m) ≡ true → f s ≡ true)
    → all (λ d. f d.0) m ≡ true
all-lookup f [] h = refl
all-lookup f ((t, v) ∷ m) h =
    let rest = all-lookup f m (λ s k. h s (ground arith)) in
    let here = h t in ground (arith, slot_eq.equal_iff t t)

-- The slots that a state of the loop wants.
abbrev pub wanted_by : Reconciler → Slot → Bool
wanted_by r = is_wanted r.manifest.apps r.selected

abbrev SameConfig : Reconciler → Reconciler → Type 0
SameConfig s r = (s.manifest ≡ r.manifest) × (s.selected ≡ r.selected)

roll_app-SameConfig :
    (w : World) (desired : Desired) (n : String) (r : Reconciler)
    → SameConfig (roll_app w desired n r).0 r
unfolding roll_app roll_surge
roll_app-SameConfig w desired n r = ground arith

roll_apps-SameConfig :
    (w : World) (desired : Desired) (names : List String) (r : Reconciler)
    → SameConfig (roll_apps w desired names r).0 r
unfolding roll_apps
roll_apps-SameConfig w desired [] r = (refl, refl)
roll_apps-SameConfig w desired (n ∷ names) r =
    let a = roll_app-SameConfig w desired n r in
    let b = roll_apps-SameConfig w desired names (roll_app w desired n r).0 in
    (b.0 ∙ a.0, b.1 ∙ a.1)

reverify_checks-SameConfig : (w : World) (r : Reconciler) → SameConfig (reverify_checks w r) r
unfolding reverify_checks
reverify_checks-SameConfig w r = ground arith

settle-SameConfig :
    (hasher : Hasher) (w : World) (r : Reconciler) → SameConfig (settle hasher w r).0 r
unfolding settle roll_stale reap terminate_undesired stop_check_blocked
settle-SameConfig hasher w r =
    let reaped = (reap w (reverify_checks w r)).0 in
    let desired = desired_slots hasher reaped in
    let unblocked = (stop_check_blocked w (terminate_undesired w desired reaped).0).0 in
    let a = reverify_checks-SameConfig w r in
    let b = roll_apps-SameConfig w desired unblocked.selected unblocked in (b.0 ∙ a.0, b.1 ∙ a.1)

settle-wanted :
    (hasher : Hasher) (w : World) (r : Reconciler) (s : Slot)
    → wanted_by (settle hasher w r).0 s ≡ wanted_by r s
settle-wanted hasher w r s = ground (arith, settle-SameConfig hasher w r)

all_stay-congr :
    (f g : Slot → Bool) (l : List Instance)
    → ((s : Slot) → f s ≡ g s)
    → all_stay f l ≡ true
    → all_stay g l ≡ true
all_stay-congr f g [] e h = refl
all_stay-congr f g (i ∷ l) e h = ground (arith, e (slot i), all_stay-congr f g l e)

settle-all_stay :
    (hasher : Hasher) (w : World) (r : Reconciler)
    → all_stay (wanted_by r) (settle hasher w r).0.instances ≡ true
unfolding settle reap
settle-all_stay hasher w r =
    let reaped = (reap w (reverify_checks w r)).0 in
    let desired = desired_slots hasher reaped in
    let kept = (terminate_undesired w desired reaped).0 in
    let named : Slot → Bool = λ s. is_some (lookup s desired) in
    let checked = reverify_checks-SameConfig w r in
    let first : all_stay named kept.instances ≡ true =
      all_stay-of_All named kept.instances (terminate_undesired-MayStay w desired reaped) in
    let second : all_stay (wanted_by r) kept.instances ≡ true =
      all_stay-congr named (wanted_by r) kept.instances
        (λ s. ground (arith, desired_slots_iff hasher reaped s, checked)) first in
    all_stay-roll_stale (wanted_by r) w desired (stop_check_blocked w kept).0
      (all_stay-stop_check_blocked (wanted_by r) w kept second)

reconcile-is_filled :
    (hasher : Hasher) (paths : Paths) (w : World) (r : Reconciler) (s : Slot)
    → wanted_by r s ≡ true
    → is_filled s (reconcile hasher paths w r).0.instances ≡ true
unfolding reconcile
reconcile-is_filled hasher paths w r s h =
    let settled = (settle hasher w r).0 in
    let desired = desired_slots hasher settled in
    let launched = spawn_missing hasher paths w desired settled in
    let retired = (retire_stale_surplus w desired launched).0 in
    let found : is_filled s launched.instances ≡ true = ground (
      arith,
      spawn_missing-is_filled hasher paths w desired settled s,
      desired_slots_iff hasher settled s,
      settle-wanted hasher w r s,
    ) in
    probe-is_filled w retired s ∙ (retire_stale_surplus-is_filled w desired launched s ∙ found)

reconcile-all_stay :
    (hasher : Hasher) (paths : Paths) (w : World) (r : Reconciler)
    → all_stay (wanted_by r) (reconcile hasher paths w r).0.instances ≡ true
unfolding reconcile
reconcile-all_stay hasher paths w r =
    let settled = (settle hasher w r).0 in
    let desired = desired_slots hasher settled in
    let launched = spawn_missing hasher paths w desired settled in
    let retired = (retire_stale_surplus w desired launched).0 in
    let known =
      all-lookup (wanted_by r) desired
        (λ s k. ground (arith, desired_slots_iff hasher settled s, settle-wanted hasher w r s)) in
    all_stay-probe (wanted_by r) w retired (
      all_stay-retire (wanted_by r) w desired launched (
        all_stay-spawn_missing (wanted_by r) hasher paths w desired settled known
          (settle-all_stay hasher w r)))

-- After a tick, from whatever state and whatever the world answers, each replica of each selected
-- app has an instance in its slot, and each instance is in such a slot or is being terminated.
pub reconcile-converges :
    (hasher : Hasher) (paths : Paths) (w : World) (r : Reconciler)
    → ((s : Slot)
        → wanted_by r s ≡ true
        → is_filled s (reconcile hasher paths w r).0.instances ≡ true)
      × (all_stay (wanted_by r) (reconcile hasher paths w r).0.instances ≡ true)
reconcile-converges hasher paths w r =
    (reconcile-is_filled hasher paths w r, reconcile-all_stay hasher paths w r)
