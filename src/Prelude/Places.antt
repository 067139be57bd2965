-- ===== src/Prelude/Places.antt =====
-- What the tests on lists say of the elements at their places.
use artzain.Prelude.Lists.{get_elem?, any, all, find}
use Prim.Native.Nat.{ℕ, zero, suc}
use mathlib.Core.Path.{◌≡◌, refl}
use mathlib.Core.Bool.{Bool, true, false}
use mathlib.Core.Option.{some}
use mathlib.Core.List.{List, [], ◌∷◌}
use native.Mathlib.Omega.{arith}

module _ {ℓ} {A : Type ℓ} where
  -- The value stands somewhere in the list.
  abbrev pub In : A → List A → Type ℓ
  In x xs = (k : ℕ) × (get_elem? xs k ≡ some x)

  pub any-In : (p : A → Bool) (xs : List A) → any p xs ≡ true → (x : A) × (In x xs × (p x ≡ true))
  any-In p [] h = absurd (ground arith)
  any-In p (x ∷ xs) h = by (p x) refl (any-In p xs)
    where
      Found : List A → Type ℓ
      Found l = (y : A) × (In y l × (p y ≡ true))

      by : (b : Bool) → p x ≡ b → (any p xs ≡ true → Found xs) → Found (x ∷ xs)
      by true e later = (x, ((zero, refl), e))
      by false e later = let (y, ((k, at), q)) = later (ground arith) in (y, ((suc k, at), q))

  pub none-In : (p : A → Bool) (xs : List A) (x : A) → any p xs ≡ false → In x xs → p x ≡ false
  none-In p [] x h (k, at) = absurd (ground arith)
  none-In p (y ∷ ys) x h (zero, at) = ground arith
  none-In p (y ∷ ys) x h (suc k, at) = none-In p ys x (ground arith) (k, at)

  pub all-In : (p : A → Bool) (xs : List A) (x : A) → all p xs ≡ true → In x xs → p x ≡ true
  all-In p [] x h (k, at) = absurd (ground arith)
  all-In p (y ∷ ys) x h (zero, at) = ground arith
  all-In p (y ∷ ys) x h (suc k, at) = all-In p ys x (ground arith) (k, at)

  pub find-In : (p : A → Bool) (xs : List A) (x : A) → find p xs ≡ some x → In x xs
  find-In p [] x h = absurd (ground arith)
  find-In p (y ∷ ys) x h = by (p y) refl (find-In p ys x)
    where
      by : (b : Bool) → p y ≡ b → (find p ys ≡ some x → In x ys) → In x (y ∷ ys)
      by true e later = (zero, ground arith)
      by false e later = let (k, at) = later (ground arith) in (suc k, at)
