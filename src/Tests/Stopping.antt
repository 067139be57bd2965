-- ===== src/Tests/Stopping.antt =====
-- Stops that are forced, and the teardown.
use artzain.Prelude.{◌+◌, ◌≡◌, refl, ◌⊎◌, Bool, false, some, List, [], ◌∷◌, ◌++◌, count, all}
use artzain.State.{Phase}
use artzain.Process.{Effect, signalled, sigterm, sigkill}
use artzain.Manifest.AppOrder.{apps_ordered}
use artzain.Manifest.AppOrder
use artzain.Reconcile.Instance.{Instance, new_pending, stop_grace}
use artzain.Reconcile.Reconciler.{Reconciler, exited}
use artzain.Reconcile.Reap.{reap}
use artzain.Reconcile.Tick.{reconcile}
use artzain.Reconcile.Run.{Pass, teardown}
use artzain.Reconcile.Run.Teardown.{
  DependentsFirst, terminations, is_early, teardown-DependentsFirst,
}
use artzain.Reconcile.Kills.Reaped.{KillsAreLate}
use artzain.Reconcile.Kills.Late.{reconcile-KillsAreLate}
use artzain.Tests.Sample.{
  shop, data_app, gateway, unrelated, old_gateway, fresh_loop, quiet, plain_paths, item_count,
}

-- One gateway ignores its stop, the deadline of the other is still to come.
abbrev overdue_loop : Reconciler
overdue_loop = record fresh_loop {
  instances =
      record (old_gateway 0) { phase = Phase.terminating; kill_deadline = some 90 }
      ∷ record (old_gateway 1) { phase = Phase.terminating; kill_deadline = some 190 }
      ∷ [];
}

reap-kills : (reap quiet overdue_loop).1 ≡ signalled 70 sigkill ∷ []
unfolding reap
reap-kills = refl

reconcile-KillsAreLate_example :
    KillsAreLate quiet 0 overdue_loop.instances
      (reconcile item_count plain_paths quiet overdue_loop).1
reconcile-KillsAreLate_example = reconcile-KillsAreLate item_count plain_paths quiet overdue_loop

abbrev data_instance : Instance
data_instance = record (new_pending 0 "data" 0 8080 15) {
  handle = some (record { child = 80; pgid = 80 });
  phase = Phase.ready;
}

abbrev running_loop : Reconciler
running_loop = record fresh_loop { instances = data_instance ∷ old_gateway 0 ∷ [] }

abbrev all_exit : Pass
all_exit = record { waits = λ at h. exited; now = 300 }

-- The gateway needs the data app, and is stopped first.
teardown-order :
    (teardown 200 (all_exit ∷ []) running_loop).1 ≡ signalled 70 sigterm ∷ signalled 80 sigterm ∷ []
unfolding teardown new_pending
teardown-order = refl

shop_order : apps_ordered shop ≡ AppOrder.ok (data_app ∷ gateway ∷ unrelated ∷ [])
unfolding apps_ordered
shop_order = refl

teardown-DependentsFirst_example :
    (order : List Instance) × (DependentsFirst shop order
      × (((p : Instance → Bool) → count p order ≡ count p running_loop.instances)
          × ((kills : List Effect) × (((teardown 200 (all_exit ∷ []) running_loop).1
                  ≡ (terminations order ++ kills))
                × ((all (is_early (200 + stop_grace)) (all_exit ∷ []) ≡ false) ⊎ (kills ≡ []))))))
teardown-DependentsFirst_example =
    teardown-DependentsFirst 200 (all_exit ∷ []) running_loop (data_app ∷ gateway ∷ unrelated ∷ [])
      shop_order
