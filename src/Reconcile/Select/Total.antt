-- ===== src/Reconcile/Select/Total.antt =====
-- crates/artzain-core/src/reconcile.rs: the work stack of `select_apps` and its fuel.
use artzain.Prelude.{
  ℕ, zero, suc, ◌+◌, ◌≤◌, ◌<◌, ◌≡◌, ◌≢◌, ◌⊎◌, ◌∙◌, inl, inr, refl, Bool, true, false, all, is_some,
  lookup, if◌then◌else◌, ◌++◌, String, some, List, [], ◌∷◌, contains, length, string_eq, arith,
  ◌==◌, Bool-cases, ap,
}
use artzain.Manifest.{Manifest, string_key}
use artzain.Manifest.AppOrder.{Names, by_name}
use artzain.Reconcile.Select.{
  Result, ok, unknown_app, out_of_fuel, ◌>>=◌, load_queue, push_deps, deps_of, select_loop,
  open_deps, enough, select_apps, known,
}
use artzain.Reconcile.Select.Refused.{select_loop-known}

length-push_deps :
    (names : Names) (l queue : List String)
    → length (push_deps names l queue) ≤ length l + length queue
unfolding push_deps
length-push_deps names [] queue = omega arith
length-push_deps names (d ∷ l) queue =
    ground (arith, length-push_deps names l queue, length-push_deps names l (d ∷ queue))

open_deps_mono :
    (names : Names) (selected : List String) (n : String)
    → open_deps names (n ∷ selected) ≤ open_deps names selected
open_deps_mono [] selected n = omega arith
open_deps_mono ((k, a) ∷ rest) selected n = ground (arith, open_deps_mono rest selected n)

-- Selecting a name closes its dependencies.
open_deps_falls :
    (names : Names) (selected : List String) (n : String)
    → contains selected n ≡ false
    → length (deps_of names n) + open_deps names (n ∷ selected) ≤ open_deps names selected
open_deps_falls [] selected n new = omega arith
open_deps_falls ((k, a) ∷ rest) selected n new = elim (Bool-cases (k == n)) [
  | inl hit ↦
      let same = ap (contains selected) ((string_eq.equal_iff k n).0 hit) in
      ground (
        arith,
        same,
        open_deps_mono rest selected n,
        string_eq.equal_iff n k,
        string_eq.equal_iff k n,
      )
  | inr miss ↦
      ground (
        arith,
        open_deps_falls rest selected n new,
        string_eq.equal_iff n k,
        string_eq.equal_iff k n,
      )
]

select_loop_fuelled :
    (names : Names) (fuel : ℕ) (queue selected : List String)
    → length queue + open_deps names selected < fuel
    → select_loop names fuel queue selected ≢ out_of_fuel
unfolding select_loop
select_loop_fuelled names zero queue selected lt = absurd (omega arith)
select_loop_fuelled names (suc fuel) [] selected lt = λ e. cc
select_loop_fuelled names (suc fuel) (n ∷ queue) selected lt =
    elim (Bool-cases (contains selected n)) [
      | inl old ↦ rw old (select_loop_fuelled names fuel queue selected (omega arith))
      | inr new ↦ rw new (
          select_loop_fuelled names fuel (push_deps names (deps_of names n) queue) (n ∷ selected) (
            omega (
              arith,
              length-push_deps names (deps_of names n) queue,
              open_deps_falls names selected n new,
            )))
    ]

abbrev pub AllApps : Manifest → List String → Type 0
AllApps m l = all (λ n. is_some (lookup n (by_name m))) l ≡ true

-- The name is the first of the list that no app has.
abbrev pub FirstUnknown : Manifest → List String → String → Type 0
FirstUnknown m only n =
    (before : List String) × ((after : List String) × ((only ≡ before ++ n ∷ after)
        × (AllApps m before × (is_some (lookup n (by_name m)) ≡ false))))

-- Every name is an app's and the queue is made, or the first other name is reported.
abbrev Queued : Manifest → List String → Result (List String) → Type 0
Queued m l x =
    (AllApps m l × ((queue : List String) × (x ≡ ok queue)))
    ⊎ ((n : String) × (FirstUnknown m l n × (x ≡ unknown_app n)))

load_queue-Queued :
    (m : Manifest) (l queue : List String) → Queued m l (load_queue (by_name m) l queue)
unfolding load_queue
load_queue-Queued m [] queue = inl (refl, (queue, refl))
load_queue-Queued m (n ∷ l) queue =
    by (known (by_name m) n) refl (load_queue-Queued m l (n ∷ queue))
  where
    rest : Result (List String)
    rest = load_queue (by_name m) l (n ∷ queue)

    by :
        (b : Bool)
        → known (by_name m) n ≡ b
        → Queued m l rest
        → Queued m (n ∷ l) (if b then rest else unknown_app n)
    by true e (inl (h, made)) = inl (ground arith, made)
    by true e (inr (k, ((before, (after, (split, (h, miss)))), out))) =
        inr (k, ((n ∷ before, (after, (ap (λ l. n ∷ l) split, (ground arith, miss)))), out))
    by false e x = inr (n, (([], (l, (refl, (refl, e)))), refl))

-- `select_apps` with `--only` returns a selection if every name is an app's, and else the first name
-- that is not.
pub select_apps_total :
    (m : Manifest) (only : List String)
    → (AllApps m only × ((selected : List String) × (select_apps m (some only) ≡ ok selected)))
      ⊎ ((n : String) × (FirstUnknown m only n × (select_apps m (some only) ≡ unknown_app n)))
unfolding select_apps
select_apps_total m only = by (load_queue (by_name m) only []) (load_queue-Queued m only [])
  where
    selected_from : List String → Result (List String)
    selected_from queue = select_loop (by_name m) (enough (by_name m) queue) queue []

    returned :
        (queue : List String) (x : Result (List String))
        → selected_from queue ≡ x
        → x ≢ out_of_fuel
        → (selected : List String) × (x ≡ ok selected)
    returned queue (ok l) e h = (l, refl)
    returned queue (unknown_app n) e h =
        absurd (select_loop-known (by_name m) (enough (by_name m) queue) queue [] n e)
    returned queue out_of_fuel e h = absurd (h refl)

    by :
        (x : Result (List String))
        → Queued m only x
        → (AllApps m only × ((selected : List String) × ((x >>= selected_from) ≡ ok selected)))
          ⊎ ((n : String) × (FirstUnknown m only n × ((x >>= selected_from) ≡ unknown_app n)))
    by x (inl (h, (queue, e))) =
        let full =
          select_loop_fuelled (by_name m) (enough (by_name m) queue) queue [] (omega arith) in
        let (l, same) = returned queue (selected_from queue) refl full in
        inl (h, (l, ap (λ y. y >>= selected_from) e ∙ same))
    by x (inr (n, (h, e))) = inr (n, (h, ap (λ y. y >>= selected_from) e))
