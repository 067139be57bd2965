-- ===== src/Reconcile/Select.antt =====
-- crates/artzain-core/src/reconcile.rs: `select_apps`. A `HashSet` is a list without repetitions.
-- The work stack has its top in front. The loop runs on fuel: every round takes one entry off the
-- stack, and an app puts its dependencies there once, so the named apps and all dependencies
-- together bound the rounds (`Total`).
pub mod Exact
pub mod Total
pub mod Refused
use artzain.Prelude.{
  ℕ, zero, suc, ◌+◌, Bool, String, Option, none, some, List, [], ◌∷◌, lookup, contains, length,
  is_some, if◌then◌else◌, string_eq, not, ◌≡◌,
}
use artzain.Manifest.{Manifest, App, string_key}
use artzain.Manifest.AppOrder.{Names, by_name, by_name_from, app_names}

pub data Result {ℓ} (A : Type ℓ) : Type ℓ where
  ok : A → Result A
  unknown_app : String → Result A
  out_of_fuel : Result A

infixl 5 ◌>>=◌
abbrev pub ◌>>=◌ {ℓ κ} : {A : Type ℓ} {B : Type κ} → Result A → (A → Result B) → Result B
ok a >>= f = f a
unknown_app n >>= f = unknown_app n
out_of_fuel >>= f = out_of_fuel

abbrev pub known : Names → String → Bool
known names n = is_some (lookup n names)

-- `for name in only`: an unknown name ends the call, the others are pushed.
unfoldable pub load_queue : Names → List String → List String → Result (List String)
load_queue names [] queue = ok queue
load_queue names (n ∷ l) queue =
    let rest = load_queue names l (n ∷ queue) in if known names n then rest else unknown_app n

-- `for dep in &app.depends_on`
unfoldable pub push_deps : Names → List String → List String → List String
push_deps names [] queue = queue
push_deps names (d ∷ l) queue = push_deps names l (if known names d then d ∷ queue else queue)

abbrev pub deps_of : Names → String → List String
deps_of names n = elim (lookup n names) [ none ↦ [] | some a ↦ a.depends_on ]

-- The `while let` loop.
unfoldable pub select_loop : Names → ℕ → (queue selected : List String) → Result (List String)
unfolding push_deps
select_loop names zero queue selected = out_of_fuel
select_loop names (suc fuel) [] selected = ok selected
select_loop names (suc fuel) (n ∷ queue) selected =
    select_loop names fuel
      (if contains selected n then queue else push_deps names (deps_of names n) queue)
      (if contains selected n then selected else n ∷ selected)

-- The names in the table that are not selected yet, each with all of its dependencies.
abbrev pub open_deps : Names → List String → ℕ
open_deps [] selected = 0
open_deps ((n, a) ∷ rest) selected =
    (if contains selected n then 0 else length a.depends_on) + open_deps rest selected

abbrev pub enough : Names → List String → ℕ
enough names queue = suc (length queue + open_deps names [])

unfoldable pub select_apps : Manifest → Option (List String) → Result (List String)
unfolding load_queue select_loop by_name_from
select_apps m none = ok (app_names m.apps)
select_apps m (some only) = load_queue (by_name m) only [] >>= λ queue.
    select_loop (by_name m) (enough (by_name m) queue) queue []
