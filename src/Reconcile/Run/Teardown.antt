-- ===== src/Reconcile/Run/Teardown.antt =====
-- crates/artzain-core/src/reconcile.rs: `teardown` stops dependents before their dependencies, and
-- forces nothing within the grace period.
use artzain.Prelude.{
  ℕ, ◌+◌, ◌≡◌, refl, ◌⊎◌, Bool, true, false, not, ◌&&◌, Option, none, some, String, List, [], ◌∷◌,
  ◌++◌, if◌then◌else◌, is_some, map_or, lookup, string_eq, All, All-map, count, all, leb,
  Bool-cases, inl, inr, subst, ap, arith,
}
use artzain.Manifest.{App, Manifest, string_key}
use artzain.Manifest.AppOrder.{by_name, app_names, apps_ordered}
use artzain.Manifest.AppOrder
use artzain.Manifest.AppOrder.Placed.{IsStartOrder, apps_ordered-IsStartOrder}
use artzain.Manifest.AppOrder.Cycles.{Chain}
use artzain.State.{Phase}
use artzain.Process.{Handle, Effect, terminate}
use artzain.Reconcile.Instance.{Instance, stop_grace}
use artzain.Reconcile.Reconciler.{Reconciler}
use artzain.Reconcile.Run.{
  rank_from, start_order, sort_rank, terminate_all, wait_all, kill_all, any_running, Pass,
  await_exits, teardown,
}
use artzain.Reconcile.Run.Sorted.{IsBehind, IsSorted, sort_rank-IsSorted, count-sort_rank}
use artzain.Reconcile.Run.Ranks.{Chain-rank}

-- The app `d` of the manifest is a dependency of `n`, through a chain or at once.
abbrev pub NeedsApp : Manifest → (n d : String) → Type 0
NeedsApp m n d = Chain (by_name m) n d × (is_some (lookup d (by_name m)) ≡ true)

-- No instance stands behind one of an app that its own app needs, through a chain or at once.
abbrev pub DependentsFirst : Manifest → List Instance → Type 0
DependentsFirst m [] = Unit
DependentsFirst m (i ∷ l) = All (λ j. ¬ NeedsApp m j.app i.app) l × DependentsFirst m l

IsSorted-DependentsFirst :
    (m : Manifest) (order : List App) (l : List Instance)
    → IsStartOrder m order
    → IsSorted (rank_from 0 (app_names order)) l
    → DependentsFirst m l
IsSorted-DependentsFirst m order [] started s = tt
IsSorted-DependentsFirst m order (i ∷ l) started s = (
  All-map (IsBehind (rank_from 0 (app_names order)) i) (λ j. ¬ NeedsApp m j.app i.app) l
      (λ j behind (chain, known).
        let (a, b, (at_i, (at_j, lt))) = Chain-rank m order j.app i.app started chain known in
        ground arith)
      s.0,
  IsSorted-DependentsFirst m order l started s.1,
)

-- SIGTERM for each running instance, in the order of the list.
abbrev pub terminations : List Instance → List Effect
terminations [] = []
terminations (i ∷ l) = map_or i.handle [] terminate ++ terminations l

terminate_all-effects : (l : List Instance) → (terminate_all l).1 ≡ terminations l
unfolding terminate_all
terminate_all-effects [] = refl
terminate_all-effects (i ∷ l) = by_handle i.handle (terminate_all-effects l)
  where
    effects_of : List Instance × List Effect → List Effect
    effects_of x = x.1

    by_handle :
        (o : Option Handle)
        → (terminate_all l).1 ≡ terminations l
        → effects_of (
            map_or o
              (i ∷ (terminate_all l).0, (terminate_all l).1)
              (λ h. (
                record i { phase = Phase.terminating } ∷ (terminate_all l).0,
                terminate h ++ (terminate_all l).1,
              )))
          ≡ (map_or o [] terminate ++ terminations l)
    by_handle none ih = ih
    by_handle (some h) ih = ap (λ e. terminate h ++ e) ih

-- A pass whose reading of the clock is before the deadline.
abbrev pub is_early : ℕ → Pass → Bool
is_early deadline p = not (leb deadline p.now)

await_exits_early :
    (deadline : ℕ) (passes : List Pass) (l : List Instance)
    → all (is_early deadline) passes ≡ true
    → (await_exits deadline passes l).1 ≡ []
unfolding await_exits
await_exits_early deadline [] l h = refl
await_exits_early deadline (p ∷ passes) l h =
    let left = wait_all 0 p.waits l in
    let (early, rest) = both (leb deadline p.now) (all (is_early deadline) passes) h in
    by_running (any_running left) (leb deadline p.now) early
      (await_exits_early deadline passes left rest)
  where
    both : (a b : Bool) → (not a && b) ≡ true → (a ≡ false) × (b ≡ true)
    both a b k = ground arith

    next : List Instance × List Effect
    next = await_exits deadline passes (wait_all 0 p.waits l)

    NoEffect : List Instance × List Effect → Type 0
    NoEffect x = x.1 ≡ []

    by_running :
        (a b : Bool)
        → b ≡ false
        → next.1 ≡ []
        → NoEffect (
            if a
            then (next.0, (if b then kill_all (wait_all 0 p.waits l) else []) ++ next.1)
            else (wait_all 0 p.waits l, []))
    by_running true true e ih = cc
    by_running true false e ih = ih
    by_running false b e ih = refl

-- What `teardown` signals, with its kills named.
abbrev IsTorn : (now : ℕ) → List Pass → Reconciler → List Instance → List Effect → Type 0
IsTorn now passes r order kills =
    ((teardown now passes r).1 ≡ (terminations order ++ kills))
    × ((all (is_early (now + stop_grace)) passes ≡ false) ⊎ (kills ≡ []))

teardown-IsTorn :
    (now : ℕ) (passes : List Pass) (r : Reconciler)
    → (kills : List Effect) × IsTorn now passes r
        (sort_rank (rank_from 0 (start_order r)) r.instances)
        kills
unfolding teardown
teardown-IsTorn now passes r =
    let sorted = sort_rank (rank_from 0 (start_order r)) r.instances in
    let stopped = terminate_all sorted in
    let kills = (await_exits (now + stop_grace) passes stopped.0).1 in
    (
      kills,
      (
        ap (λ e. e ++ kills) (terminate_all-effects sorted),
        elim (Bool-cases (all (is_early (now + stop_grace)) passes)) [
          | inl early ↦ inr (await_exits_early (now + stop_grace) passes stopped.0 early)
          | inr due ↦ inl due
        ],
      ),
    )

-- `teardown` sends SIGTERM to the running instances in an order of all instances in which none stands
-- behind one of an app that its own app needs, through a chain of dependencies or at once; what it
-- signals after that is nothing, unless a pass reads the clock at the grace period's end or after. The manifest has a
-- start order.

pub teardown-DependentsFirst :
    (now : ℕ) (passes : List Pass) (r : Reconciler) (apps : List App)
    → apps_ordered r.manifest ≡ AppOrder.ok apps
    → (order : List Instance) × (DependentsFirst r.manifest order
        × (((p : Instance → Bool) → count p order ≡ count p r.instances)
            × ((kills : List Effect) × (((teardown now passes r).1 ≡ (terminations order ++ kills))
                  × ((all (is_early (now + stop_grace)) passes ≡ false) ⊎ (kills ≡ []))))))
teardown-DependentsFirst now passes r apps ok =
    let sorted = sort_rank (rank_from 0 (start_order r)) r.instances in
    let ranked : rank_from 0 (start_order r) ≡ rank_from 0 (app_names apps) =
      ap (λ x. rank_from 0 (elim x as (λ _. List String) [ AppOrder.ok l ↦ app_names l | _ ↦ [] ]))
        ok in
    let in_order =
      subst (λ rank. IsSorted rank sorted) ranked
        (sort_rank-IsSorted (rank_from 0 (start_order r)) r.instances) in
    (
      sorted,
      (
        IsSorted-DependentsFirst r.manifest apps sorted
            (apps_ordered-IsStartOrder r.manifest apps ok) in_order,
        (
          (λ p. count-sort_rank (rank_from 0 (start_order r)) p r.instances),
          teardown-IsTorn now passes r,
        ),
      ),
    )
