-- ===== src/Reconcile/Select/Refused.antt =====
-- crates/artzain-core/src/reconcile.rs: the names that `select_apps` refuses.
use artzain.Prelude.{ℕ, zero, suc, ◌≢◌, String, List, [], ◌∷◌}
use artzain.Manifest.{Manifest, string_key}
use artzain.Manifest.AppOrder.{Names}
use artzain.Reconcile.Select.{unknown_app, select_loop}

pub select_loop-known :
    (names : Names) (fuel : ℕ) (queue selected : List String) (n : String)
    → select_loop names fuel queue selected ≢ unknown_app n
unfolding select_loop
select_loop-known names zero queue selected n = λ e. cc
select_loop-known names (suc fuel) [] selected n = λ e. cc
select_loop-known names (suc fuel) (k ∷ queue) selected n = select_loop-known names fuel _ _ n
