-- ===== src/Manifest/AppOrder.antt =====
-- crates/artzain-core/src/manifest.rs: `Manifest::apps_ordered` and its `visit`. The recursion of
-- `visit` is on fuel; the depth of the calls is bounded by the apps not yet marked, so one more
-- than the number of apps is enough (`Total`).
pub mod Marks
pub mod NameTable
pub mod Total
pub mod Placed
pub mod Cycles
use artzain.Prelude.{
  ℕ, zero, suc, Bool, String, Option, none, some, List, [], ◌∷◌, ◌++◌, lookup, insert, length,
}
use artzain.Manifest.{Manifest, App, string_key}

-- The values 1 and 2 of the source's `state` map.
pub data Mark : Type 0 where
  visiting done : Mark

pub record Walk : Type 0 where
  pub marks : List (String × Mark)
  pub ordered : List App

pub data Result {ℓ} (A : Type ℓ) : Type ℓ where
  ok : A → Result A
  cycle : String → Result A
  out_of_fuel : Result A

infixl 5 ◌>>=◌
abbrev pub ◌>>=◌ {ℓ κ} : {A : Type ℓ} {B : Type κ} → Result A → (A → Result B) → Result B
ok a >>= f = f a
cycle n >>= f = cycle n
out_of_fuel >>= f = out_of_fuel

abbrev pub Names : Type 0
Names = List (String × App)

-- `self.apps.iter().map(|a| (a.name, a)).collect()`: a later app of the same name replaces.
unfoldable pub by_name_from : Names → List App → Names
by_name_from m [] = m
by_name_from m (a ∷ l) = by_name_from (insert a.name a m) l

abbrev pub set_mark : String → Mark → Walk → Walk
set_mark n k w = record w { marks = insert n k w.marks }

abbrev pub finish : String → App → Walk → Walk
finish n a w = record { marks = insert n done w.marks; ordered = w.ordered ++ a ∷ [] }

-- `for dep in ... { visit(dep)?; }`
unfoldable pub visit_all : (String → Walk → Result Walk) → List String → Walk → Result Walk
visit_all v [] w = ok w
visit_all v (d ∷ ds) w = v d w >>= visit_all v ds

unfoldable pub visit : Names → ℕ → String → Walk → Result Walk
unfolding visit_all
visit by_name zero n w = out_of_fuel
visit by_name (suc fuel) n w = elim (lookup n w.marks) [
  | some done ↦ ok w
  | some visiting ↦ cycle n
  | none ↦ elim (lookup n by_name) [
    | none ↦ ok w
    | some a ↦ visit_all (visit by_name fuel) a.depends_on (set_mark n visiting w) >>= λ v.
        ok (finish n a v)
  ]
]

abbrev pub start : Walk
start = record { marks = []; ordered = [] }

abbrev pub by_name : Manifest → Names
by_name m = by_name_from [] m.apps

abbrev pub app_names : List App → List String
app_names [] = []
app_names (a ∷ l) = a.name ∷ app_names l

unfoldable pub apps_ordered : Manifest → Result (List App)
unfolding visit visit_all by_name_from
apps_ordered m =
    visit_all (visit (by_name m) (suc (length m.apps))) (app_names m.apps) start >>= λ w.
    ok w.ordered
