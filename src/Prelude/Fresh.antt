-- ===== src/Prelude/Fresh.antt =====
-- Pairwise distinct lists, and the loops that find a repetition by keeping a set of what they saw.
use mathlib.Core.Path.{◌≡◌, refl, fun_ext, subst}
use mathlib.Core.Logic.{◌↔◌, inl, inr}
use mathlib.Core.Bool.{Bool, true, false, ◌||◌}
use mathlib.Core.List.{List, [], ◌∷◌, ◌++◌}
use native.Mathlib.Omega.{arith}
use artzain.Prelude.Tests.{Eq, ◌==◌, ==_refl, Bool-cases}
use artzain.Prelude.Lists.{All, any-append, contains}

pub append_nil_iff {ℓ} : {A : Type ℓ} (xs ys : List A) → (xs ++ ys ≡ []) ↔ ((xs ≡ []) × (ys ≡ []))
append_nil_iff [] ys = (λ h. (refl, h), λ h. h.1)
append_nil_iff (x ∷ xs) ys = (λ h. cc, λ h. cc)

pub All-map {ℓ κ μ} :
    {A : Type ℓ} (P : A → Type κ) (Q : A → Type μ) (xs : List A)
    → ((x : A) → P x → Q x)
    → All P xs
    → All Q xs
All-map P Q [] f h = tt
All-map P Q (x ∷ xs) f h = (f x h.0, All-map P Q xs f h.1)

pub All-zip {ℓ κ μ ν} :
    {A : Type ℓ} (P : A → Type κ) (Q : A → Type μ) (R : A → Type ν) (xs : List A)
    → ((x : A) → P x → Q x → R x)
    → All P xs
    → All Q xs
    → All R xs
All-zip P Q R [] f h k = tt
All-zip P Q R (x ∷ xs) f h k = (f x h.0 k.0, All-zip P Q R xs f h.1 k.1)

module _ {ℓ} {A : Type ℓ} ⦃e : Eq A⦄ where
  abbrev pub Distinct : List A → Type ℓ
  Distinct [] = Unit
  Distinct (x ∷ xs) = All (λ y. (x == y) ≡ false) xs × Distinct xs

  -- A set by its membership test, with `x` put in.
  abbrev pub mark : A → (A → Bool) → A → Bool
  mark x s y = (x == y) || s y

  abbrev pub mark_all : List A → (A → Bool) → A → Bool
  mark_all [] s = s
  mark_all (x ∷ xs) s = mark_all xs (mark x s)

  -- Each element is new when the loop comes to it.
  abbrev pub FreshBy : (A → Bool) → List A → Type ℓ
  FreshBy s [] = Unit
  FreshBy s (x ∷ xs) = (s x ≡ false) × FreshBy (mark x s) xs

  pub FreshBy-iff :
      (s : A → Bool) (xs : List A) → FreshBy s xs ↔ (Distinct xs × All (λ x. s x ≡ false) xs)
  FreshBy-iff s [] = (λ h. (tt, tt), λ h. tt)
  FreshBy-iff s (x ∷ xs) =
      let ih = FreshBy-iff (mark x s) xs in
      (
        λ h.
            let (d, a) = ih.0 h.1 in
            (
              (
                All-map (λ y. mark x s y ≡ false) (λ y. (x == y) ≡ false) xs (λ y k. ground arith)
                    a,
                d,
              ),
              (
                h.0,
                All-map (λ y. mark x s y ≡ false) (λ y. s y ≡ false) xs (λ y k. ground arith) a,
              ),
            ),
        λ h. (
          h.1.0,
          ih.1 (
            h.0.1,
            All-zip (λ y. (x == y) ≡ false) (λ y. s y ≡ false) (λ y. mark x s y ≡ false) xs
                (λ y p q. ground arith) h.0.0 h.1.1,
          ),
        ),
      )

  pub FreshBy-append :
      (s : A → Bool) (xs ys : List A)
      → FreshBy s (xs ++ ys) ↔ (FreshBy s xs × FreshBy (mark_all xs s) ys)
  FreshBy-append s [] ys = (λ h. (tt, h), λ h. h.1)
  FreshBy-append s (x ∷ xs) ys =
      let ih = FreshBy-append (mark x s) xs ys in
      (λ h. let (a, b) = ih.0 h.1 in ((h.0, a), b), λ h. (h.0.0, ih.1 (h.0.1, h.1)))

  pub FreshBy-congr :
      (s t : A → Bool) (xs : List A) → ((x : A) → s x ≡ t x) → FreshBy s xs → FreshBy t xs
  FreshBy-congr s t xs h f = subst_fresh (fun_ext h) f
    where
      subst_fresh : s ≡ t → FreshBy s xs → FreshBy t xs
      subst_fresh p k = rw (← p) k

  pub mark_all_iff : (xs : List A) (s : A → Bool) (y : A) → mark_all xs s y ≡ (contains xs y || s y)
  mark_all_iff [] s y = refl
  mark_all_iff (x ∷ xs) s y = ground (arith, mark_all_iff xs (mark x s) y)

  -- Different positions of a list of distinct values hold different values.
  pub All-false-contains :
      (x : A) (xs : List A) → All (λ y. (x == y) ≡ false) xs → contains xs x ≡ false
  All-false-contains x [] h = refl
  All-false-contains x (y ∷ ys) h =
      ground (arith, All-false-contains x ys h.1, e.equal_iff x y, e.equal_iff y x)

  All-trivial : (xs : List A) → All (λ x. false ≡ false) xs
  All-trivial [] = tt
  All-trivial (x ∷ xs) = (refl, All-trivial xs)

  pub FreshBy-nil_iff : (xs : List A) → FreshBy (λ x. false) xs ↔ Distinct xs
  FreshBy-nil_iff xs =
      let both = FreshBy-iff (λ x. false) xs in (λ h. (both.0 h).0, λ h. both.1 (h, All-trivial xs))

  pub Distinct-append :
      (xs ys : List A)
      → Distinct (xs ++ ys)
      → Distinct ys × ((z : A) → contains xs z ≡ true → contains ys z ≡ false)
  Distinct-append [] ys d = (d, λ z h. cc)
  Distinct-append (x ∷ xs) ys d =
      let (rest, apart) = Distinct-append xs ys d.1 in
      let new = All-false-contains x (xs ++ ys) d.0 in
      let split = any-append (λ y. y == x) xs ys in
      (rest, λ z h. ground (arith, apart z, e.equal_iff x z, split, new))

  All-ne-snoc :
      (y x : A) (xs : List A)
      → All (λ z. (y == z) ≡ false) xs
      → (y == x) ≡ false
      → All (λ z. (y == z) ≡ false) (xs ++ x ∷ [])
  All-ne-snoc y x [] h k = (k, tt)
  All-ne-snoc y x (z ∷ zs) h k = (h.0, All-ne-snoc y x zs h.1 k)

  pub Distinct-snoc :
      (x : A) (xs : List A) → Distinct xs → contains xs x ≡ false → Distinct (xs ++ x ∷ [])
  Distinct-snoc x [] d h = (tt, tt)
  Distinct-snoc x (y ∷ ys) d h =
      (All-ne-snoc y x ys d.0 (ground arith), Distinct-snoc x ys d.1 (ground arith))

  pub All-contains : (xs : List A) → All (λ x. contains xs x ≡ true) xs
  All-contains [] = tt
  All-contains (x ∷ xs) = (
    ground (arith, ==_refl x),
    All-map (λ y. contains xs y ≡ true) (λ y. contains (x ∷ xs) y ≡ true) xs (λ y h. ground arith)
        (All-contains xs),
  )

  pub All-of_contains {κ} :
      (P : A → Type κ) (xs : List A) → All P xs → (x : A) → contains xs x ≡ true → P x
  All-of_contains P [] h x m = cc
  All-of_contains P (y ∷ ys) h x m = elim (Bool-cases (y == x)) [
    | inl same ↦ subst P ((e.equal_iff y x).0 same) h.0
    | inr other ↦ All-of_contains P ys h.1 x (ground arith)
  ]
