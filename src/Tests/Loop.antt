-- ===== src/Tests/Loop.antt =====
-- The control loop.
use artzain.Prelude.{
  ℕ, ◌≡◌, ◌≤◌, min, refl, true, false, none, [], arith, lookup, string_eq, contains, ◌⊎◌, nat_eq,
}
use artzain.Words.{u16_max}
use artzain.Manifest.{string_key}
use artzain.Reconcile.Instance.{Slot, new_pending, backoff_delay}
use artzain.Reconcile.Instance.Backoff.{backoff_delay_bounds}
use artzain.Reconcile.Spec.{spec_hash, instance_env, inherit_extra, inherit_base, base_env_keys}
use artzain.Reconcile.Spec.Env.{instance_env-precedence, or_else, lookup_last, pointer}
use artzain.Reconcile.Slots.{desired_slots, claimed, surge_port_for}
use artzain.Reconcile.Slots.Surge.{surge_port_for-is_free}
use artzain.Reconcile.Reconciler.{Desired}
use artzain.Reconcile.Roll.{roll_stale, ready_of, desired_count}
use artzain.Reconcile.Roll.Budget.{WithinBudget, roll_stale-WithinBudget}
use artzain.Reconcile.Launch.{add_missing, spawn_missing}
use artzain.Reconcile.Launch.Gate.{MayStart, Started, spawn_missing-MayStart}
use artzain.Reconcile.Tick.{reconcile}
use artzain.Reconcile.Tick.Cover.{is_filled}
use artzain.Reconcile.Tick.Stay.{all_stay}
use artzain.Reconcile.Tick.Converged.{wanted_by, reconcile-converges}
use artzain.Reconcile.Sound.{AllSound}
use artzain.Reconcile.Sound.Whole.{reconcile-AllSound}
use artzain.Tests.Sample.{
  fresh_loop, quiet, plain_paths, item_count, gateway, shop, stale_loop, data_pending,
}

reconcile-AllSound_example : AllSound (reconcile item_count plain_paths quiet fresh_loop).0
reconcile-AllSound_example = reconcile-AllSound item_count plain_paths quiet fresh_loop tt

reconcile-converges_example :
    ((s : Slot)
      → wanted_by fresh_loop s ≡ true
      → is_filled s (reconcile item_count plain_paths quiet fresh_loop).0.instances ≡ true)
    × (all_stay
          (wanted_by fresh_loop)
          (reconcile item_count plain_paths quiet fresh_loop).0.instances
        ≡ true)
reconcile-converges_example = reconcile-converges item_count plain_paths quiet fresh_loop

-- Two ready replicas of an old spec: one is stopped.
abbrev stale_desired : Desired
stale_desired = desired_slots item_count stale_loop

rolled_ready : ready_of "gateway" (roll_stale quiet stale_desired stale_loop).0.instances ≡ 1
unfolding roll_stale desired_slots new_pending spec_hash
rolled_ready = refl

roll_stale-WithinBudget_example :
    WithinBudget
      (desired_count stale_loop "gateway")
      (ready_of "gateway" stale_loop.instances)
      (ready_of "gateway" (roll_stale quiet stale_desired stale_loop).0.instances)
roll_stale-WithinBudget_example =
    roll_stale-WithinBudget quiet stale_desired "gateway" stale_loop refl
      ((refl, (refl, tt)), ((refl, tt), (tt, tt)))

Started-data_pending :
    Started
      (add_missing 100 (desired_slots item_count fresh_loop) [])
      (spawn_missing item_count plain_paths quiet
        (desired_slots item_count fresh_loop)
        fresh_loop).instances
      0
      data_pending
unfolding desired_slots add_missing spawn_missing spec_hash new_pending
Started-data_pending = (refl, (refl, refl))

spawn_missing-MayStart_example :
    MayStart quiet fresh_loop
      (add_missing 100 (desired_slots item_count fresh_loop) [])
      data_pending
spawn_missing-MayStart_example =
    spawn_missing-MayStart item_count plain_paths quiet (desired_slots item_count fresh_loop)
      fresh_loop 0 data_pending Started-data_pending

surge_port_for-is_free_example :
    ((9002 ≤ surge_port_for shop gateway)
      × ((surge_port_for shop gateway ≤ u16_max)
          × (contains (claimed shop.apps) (surge_port_for shop gateway) ≡ false)))
    ⊎ ((p : ℕ) → 9002 ≤ p → p ≤ u16_max → contains (claimed shop.apps) p ≡ true)
surge_port_for-is_free_example = surge_port_for-is_free shop gateway (omega arith)

backoff_delay_bounds_example :
    (backoff_delay 500 30000 3 ≤ backoff_delay 500 30000 9)
    × (min 500 30000 ≤ backoff_delay 500 30000 3)
    × (backoff_delay 500 30000 9 ≤ 30000)
backoff_delay_bounds_example = backoff_delay_bounds 500 30000 3 9 (omega arith) (omega arith)

instance_env-precedence_example :
    lookup "PORT" (instance_env (λ k. none) shop gateway 0 9000)
    ≡ or_else (pointer gateway 0 9000 "PORT") (
        or_else (lookup_last "PORT" gateway.env) (
          or_else (lookup_last "PORT" shop.defaults.env) (
            lookup "PORT" (
              inherit_extra
                (λ k. none)
                shop.defaults.inherit_env
                (inherit_base (λ k. none) base_env_keys [])))))
instance_env-precedence_example = instance_env-precedence (λ k. none) shop gateway 0 9000 "PORT"
