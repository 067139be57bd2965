-- ===== src/Tests/Manifests.antt =====
-- The manifest: validation, the start order and the selection.
use artzain.Prelude.{
  ℕ, if◌then◌else◌, ◌==◌, nat_eq, Option, none, ◌≡◌, ◌≢◌, ◌⊎◌, ◌↔◌, refl, true, String, some, List,
  [], ◌∷◌, arith, contains, string_eq,
}
use artzain.Manifest.Interpolate.{Code, resolve, interpolate_vars}
use artzain.Manifest.Interpolate
use artzain.Manifest.Interpolate.Print.{
  Segment, literal, escaped, variable, print, render, interpolate_vars-print,
}
use artzain.Manifest.Interpolate.Total.{interpolate_vars_total}
use artzain.Manifest.{App, string_key}
use artzain.Manifest.Validate.{ok, invalid, validate, port_claimed}
use artzain.Manifest.Validate.Valid.{IsValid, resolved, validate-IsValid}
use artzain.Manifest.Validate.Slots.{validate-slots_distinct}
use artzain.Manifest.AppOrder.{by_name, apps_ordered}
use artzain.Manifest.AppOrder
use artzain.Manifest.AppOrder.Placed.{IsStartOrder, apps_ordered-IsStartOrder}
use artzain.Manifest.AppOrder.Cycles.{Chain, apps_ordered-cycle, apps_ordered-acyclic}
use artzain.Manifest.AppOrder.Total.{apps_ordered_total}
use artzain.Reconcile.Select.{select_apps}
use artzain.Reconcile.Select
use artzain.Reconcile.Select.Exact.{Selected, select_apps-Selected}
use artzain.Reconcile.Select.Total.{AllApps, FirstUnknown, select_apps_total}
use artzain.Tests.Sample.{shop, looped, clashing, gateway, data_app, unrelated, nobody}

validate-shop : validate nobody shop ≡ ok shop
unfolding validate
validate-shop = refl

validate-clashing : validate nobody clashing ≡ invalid (port_claimed 8080 "data" "unrelated" ∷ [])
unfolding validate
validate-clashing = refl

shop-IsValid : IsValid nobody shop
shop-IsValid = (validate-IsValid nobody shop (omega arith)).0 validate-shop

validate-IsValid_example : (validate nobody shop ≡ ok (resolved nobody shop)) ↔ IsValid nobody shop
validate-IsValid_example = validate-IsValid nobody shop (omega arith)

validate-slots_distinct_example : (◌≡◌ {A = ℕ} 0 0) × (◌≡◌ {A = ℕ} 1 1)
validate-slots_distinct_example =
    validate-slots_distinct nobody shop shop 0 0 1 1 gateway gateway (omega arith) validate-shop
      refl refl (omega arith) (omega arith) refl

apps_ordered-shop : apps_ordered shop ≡ AppOrder.ok (data_app ∷ gateway ∷ unrelated ∷ [])
unfolding apps_ordered
apps_ordered-shop = refl

apps_ordered-looped : apps_ordered looped ≡ AppOrder.cycle "gateway"
unfolding apps_ordered
apps_ordered-looped = refl

apps_ordered-IsStartOrder_example : IsStartOrder shop (data_app ∷ gateway ∷ unrelated ∷ [])
apps_ordered-IsStartOrder_example =
    apps_ordered-IsStartOrder shop (data_app ∷ gateway ∷ unrelated ∷ []) apps_ordered-shop

apps_ordered-cycle_example : Chain (by_name looped) "gateway" "gateway"
apps_ordered-cycle_example = apps_ordered-cycle looped "gateway" apps_ordered-looped

apps_ordered-acyclic_example :
    ((l : List App) × (apps_ordered shop ≡ AppOrder.ok l))
    ↔ ((n : String) → ¬ Chain (by_name shop) n n)
apps_ordered-acyclic_example = apps_ordered-acyclic shop

apps_ordered_total_example : apps_ordered looped ≢ AppOrder.out_of_fuel
apps_ordered_total_example = apps_ordered_total looped

select_apps-gateway : select_apps shop (some ("gateway" ∷ [])) ≡ Select.ok ("data" ∷ "gateway" ∷ [])
unfolding select_apps
select_apps-gateway = refl

select_apps-Selected_example :
    (contains {A = String} ("data" ∷ "gateway" ∷ []) "data" ≡ true)
    ↔ Selected (by_name shop) ("gateway" ∷ []) "data"
select_apps-Selected_example =
    select_apps-Selected shop ("gateway" ∷ []) ("data" ∷ "gateway" ∷ []) select_apps-gateway "data"

select_apps_total_example :
    (AllApps shop ("gateway" ∷ "nope" ∷ "none" ∷ [])
      × ((selected : List String) × (select_apps shop (some ("gateway" ∷ "nope" ∷ "none" ∷ []))
            ≡ Select.ok selected)))
    ⊎ ((n : String) × (FirstUnknown shop ("gateway" ∷ "nope" ∷ "none" ∷ []) n
          × (select_apps shop (some ("gateway" ∷ "nope" ∷ "none" ∷ [])) ≡ Select.unknown_app n)))
select_apps_total_example = select_apps_total shop ("gateway" ∷ "nope" ∷ "none" ∷ [])

-- `a${x}$$`, with the variable `x` bound to `b`.
abbrev bound : Code → Option Code
bound [] = none
bound (x ∷ l) = if x == 120 then some (98 ∷ []) else none

abbrev segments : List Segment
segments = literal (97 ∷ []) ∷ variable (120 ∷ []) ∷ escaped ∷ []

interpolated :
    interpolate_vars (λ n. none) bound (print segments) ≡ Interpolate.ok (97 ∷ 98 ∷ 36 ∷ [])
unfolding interpolate_vars
interpolated = refl

interpolate_vars-print_example :
    interpolate_vars (λ n. none) bound (print segments)
    ≡ render (resolve (λ n. none) bound) segments
interpolate_vars-print_example = interpolate_vars-print (λ n. none) bound segments refl

interpolate_vars_total_example :
    interpolate_vars (λ n. none) bound (36 ∷ 123 ∷ []) ≢ Interpolate.out_of_fuel
interpolate_vars_total_example = interpolate_vars_total (λ n. none) bound (36 ∷ 123 ∷ [])
