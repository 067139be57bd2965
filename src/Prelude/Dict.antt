-- ===== src/Prelude/Dict.antt =====
-- `BTreeMap` and `HashMap` as association lists. A `BTreeMap` is iterated in the order of its keys,
-- so `insert` takes the order and puts a new key in front of the first larger one.
use mathlib.Core.Path.{◌≡◌, refl}
use mathlib.Core.Bool.{Bool}
use mathlib.Core.Option.{Option, none, some}
use mathlib.Core.List.{List, [], ◌∷◌}
use native.Mathlib.Omega.{arith}
use artzain.Prelude.Tests.{if◌then◌else◌, Eq}

-- A key type: equality, and the order of iteration.
pub record Key {ℓ} (K : Type ℓ) : Type ℓ where
  pub eq : Eq K
  pub before : K → K → Bool

module _ {ℓ κ} {K : Type ℓ} {V : Type κ} ⦃k : Key K⦄ where
  abbrev pub lookup : K → List (K × V) → Option V
  lookup x [] = none
  lookup x ((y, v) ∷ m) = if k.eq.equal y x then some v else lookup x m

  abbrev pub insert : K → V → List (K × V) → List (K × V)
  insert x v [] = (x, v) ∷ []
  insert x v ((y, w) ∷ m) =
      if k.eq.equal y x
      then (x, v) ∷ m
      else (if k.before x y then (x, v) ∷ (y, w) ∷ m else (y, w) ∷ insert x v m)

  pub lookup-insert :
      (x z : K) (v : V) (m : List (K × V))
      → lookup z (insert x v m) ≡ (if k.eq.equal x z then some v else lookup z m)
  lookup-insert x z v [] = refl
  lookup-insert x z v ((y, w) ∷ m) =
      ground
        (arith, k.eq.equal_iff x z, k.eq.equal_iff y x, k.eq.equal_iff y z, lookup-insert x z v m)
