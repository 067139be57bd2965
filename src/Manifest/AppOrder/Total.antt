-- ===== src/Manifest/AppOrder/Total.antt =====
-- The fuel of `apps_ordered` is enough.
use artzain.Prelude.{
  ℕ, zero, suc, ◌≤◌, ◌<◌, ◌≡◌, ◌≢◌, refl, Bool, true, String, none, List, [], ◌∷◌, lookup,
  lookup-insert, string_eq, arith, count, count-le-length, length, is_some, not, contains,
  Option-cases, inl, inr,
}
use artzain.Manifest.{Manifest, App, string_key}
use artzain.Manifest.AppOrder.{
  Mark, visiting, Walk, Result, ok, cycle, out_of_fuel, ◌>>=◌, Names, set_mark, visit_all, visit,
  by_name, app_names, start, apps_ordered,
}
use artzain.Manifest.AppOrder.NameTable.{Listed, by_name-Listed}
use artzain.Manifest.AppOrder.Marks.{
  Visit, was_done, was_visiting, no_app, expands, visit-Visit, Keeps, visit-Keeps,
}

abbrev unmarked_by : Walk → App → Bool
unmarked_by w a = not (is_some (lookup a.name w.marks))

-- How many apps have no mark.
abbrev unmarked : List App → Walk → ℕ
unmarked apps w = count (unmarked_by w) apps

unmarked_set_le :
    (apps : List App) (n : String) (k : Mark) (w : Walk)
    → unmarked apps (set_mark n k w) ≤ unmarked apps w
unmarked_set_le [] n k w = omega arith
unmarked_set_le (a ∷ l) n k w =
    ground (arith, lookup-insert n a.name k w.marks, unmarked_set_le l n k w)

unmarked_falls :
    (apps : List App) (n : String) (w : Walk)
    → lookup n w.marks ≡ none
    → contains (app_names apps) n ≡ true
    → unmarked apps (set_mark n visiting w) < unmarked apps w
unmarked_falls [] n w h m = cc
unmarked_falls (a ∷ l) n w h m = ground (
  arith,
  lookup-insert n a.name visiting w.marks,
  string_eq.equal_iff n a.name,
  string_eq.equal_iff a.name n,
  unmarked_set_le l n visiting w,
  unmarked_falls l n w h,
)

stays_marked : (a : App) (w v : Walk) → Keeps w v → unmarked_by v a ≡ true → unmarked_by w a ≡ true
stays_marked a w v k h = elim (Option-cases (lookup a.name w.marks)) [
  | inl e ↦ rw e refl
  | inr (x, e) ↦ let still = k.stays a.name x e in ground arith
]

unmarked_mono : (apps : List App) (w v : Walk) → Keeps w v → unmarked apps v ≤ unmarked apps w
unmarked_mono [] w v k = omega arith
unmarked_mono (a ∷ l) w v k = ground (arith, stays_marked a w v k, unmarked_mono l w v k)

-- `Returns r`: the call did not run out of fuel.
module _ {ℓ κ} {A : Type ℓ} {B : Type κ} where
  >>=-fuelled :
      (r : Result A) (f : A → Result B)
      → r ≢ out_of_fuel
      → ((a : A) → r ≡ ok a → f a ≢ out_of_fuel)
      → (r >>= f) ≢ out_of_fuel
  >>=-fuelled (ok a) f h k = k a refl
  >>=-fuelled (cycle n) f h k = λ e. cc
  >>=-fuelled out_of_fuel f h k = absurd (h refl)

visit_all_fuelled :
    (names : Names) (apps : List App) (fuel : ℕ) (l : List String) (w : Walk)
    → ((d : String) (x : Walk) → unmarked apps x < fuel → visit names fuel d x ≢ out_of_fuel)
    → unmarked apps w < fuel
    → visit_all (visit names fuel) l w ≢ out_of_fuel
unfolding visit_all
visit_all_fuelled names apps fuel [] w h lt = λ e. cc
visit_all_fuelled names apps fuel (d ∷ l) w h lt =
    >>=-fuelled (visit names fuel d w) (visit_all (visit names fuel) l) (h d w lt) λ v e.
      visit_all_fuelled names apps fuel l v h
        (omega (arith, unmarked_mono apps w v (visit-Keeps names fuel d w v e)))

visit_case_fuelled :
    (names : Names) (apps : List App) (fuel : ℕ) (n : String) (w : Walk) {r : Result Walk}
    → Listed apps names
    → ((d : String) (x : Walk) → unmarked apps x < fuel → visit names fuel d x ≢ out_of_fuel)
    → unmarked apps w < suc fuel
    → Visit names fuel n w r
    → r ≢ out_of_fuel
visit_case_fuelled names apps fuel n w t h lt (was_done m) = λ e. cc
visit_case_fuelled names apps fuel n w t h lt (was_visiting m) = λ e. cc
visit_case_fuelled names apps fuel n w t h lt (no_app m k) = λ e. cc
visit_case_fuelled names apps fuel n w t h lt (expands a m k) =
    let less = unmarked_falls apps n w m (t n a k).1 in
    >>=-fuelled (visit_all (visit names fuel) a.depends_on (set_mark n visiting w)) _
      (visit_all_fuelled names apps fuel a.depends_on (set_mark n visiting w) h (omega arith))
      λ v e q. cc

-- A call with more fuel than there are unmarked apps does not run out.
visit_fuelled :
    (names : Names) (apps : List App) (fuel : ℕ) (n : String) (w : Walk)
    → Listed apps names
    → unmarked apps w < fuel
    → visit names fuel n w ≢ out_of_fuel
unfolding visit
visit_fuelled names apps zero n w t lt = absurd (omega arith)
visit_fuelled names apps (suc fuel) n w t lt =
    visit_case_fuelled names apps fuel n w t (λ d x less. visit_fuelled names apps fuel d x t less)
      lt (visit-Visit names fuel n w)

-- `apps_ordered` always returns: an order, or a cycle.
pub apps_ordered_total : (m : Manifest) → apps_ordered m ≢ out_of_fuel
unfolding apps_ordered
apps_ordered_total m =
    let enough = count-le-length (unmarked_by start) m.apps in
    >>=-fuelled (visit_all (visit (by_name m) (suc (length m.apps))) (app_names m.apps) start) _
      (visit_all_fuelled (by_name m) m.apps (suc (length m.apps)) (app_names m.apps) start
        (λ d x less.
          visit_fuelled (by_name m) m.apps (suc (length m.apps)) d x (by_name-Listed m) less)
        (omega arith))
      λ v e q. cc
