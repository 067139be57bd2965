-- ===== src/Manifest/Validate/Wrapping.antt =====
-- `Manifest::validate` where its sums wrap: with more than 65536 replicas the claimed ports repeat.
use artzain.Prelude.{
  ℕ, zero, suc, ◌+◌, ◌≤◌, ◌<◌, ◌≡◌, refl, true, false, List, [], ◌∷◌, ◌++◌, ◌==◌, nat_eq, arith,
  All, Distinct, contains, Distinct-append, All-false-contains,
}
use native.Mathlib.Decide.{dec_lt}
use artzain.Words.{u16_max, as_u16, add_u16}
use artzain.Manifest.{App}
use artzain.Manifest.Validate.Scans.{FitsPorts, FitsWrapped}
use artzain.Manifest.Validate.Ports.{wrapped, wrapped_all}

contains-wrapped :
    (a : App) (i left k n : ℕ)
    → k < left
    → i + k ≡ n
    → contains (wrapped a i left) (add_u16 a.port (as_u16 n)) ≡ true
contains-wrapped a i zero k n h e = absurd (omega arith)
contains-wrapped a i (suc left) zero n h e =
    let here : i ≡ n = omega arith in
    let hit = (nat_eq.equal_iff (add_u16 a.port (as_u16 n)) (add_u16 a.port (as_u16 n))).1 refl in
    rw (here, hit) refl
contains-wrapped a i (suc left) (suc k) n h e =
    ground (arith, contains-wrapped a (suc i) left k n (omega arith) (omega arith))

-- The ports of replicas 0 and 65536 are the same.
no_repeats : (a : App) (n : ℕ) → 65536 < n → ¬ Distinct (wrapped a 0 n)
no_repeats a zero h d = absurd (omega arith)
no_repeats a (suc left) h d =
    let new = All-false-contains (add_u16 a.port (as_u16 0)) (wrapped a 1 left) d.0 in
    let again = contains-wrapped a 1 left 65535 65536 (omega arith) refl in cc

few_replicas : (a : App) (n : ℕ) → Distinct (wrapped a 0 n) → n ≤ 65536
few_replicas a n d = elim (dec_lt 65536 n) [
  | yes p ↦ absurd (no_repeats a n p d)
  | no p ↦ omega arith
]

Distinct-front : (xs ys : List ℕ) → Distinct (xs ++ ys) → Distinct xs
Distinct-front [] ys d = tt
Distinct-front (x ∷ xs) ys d = (front xs d.0, Distinct-front xs ys d.1)
  where
    front : (l : List ℕ) → All (λ y. (x == y) ≡ false) (l ++ ys) → All (λ y. (x == y) ≡ false) l
    front [] h = tt
    front (y ∷ l) h = (h.0, front l h.1)

pub Distinct-few_replicas :
    (l : List App) → Distinct (wrapped_all l) → All (λ a. a.replicas ≤ 65536) l
Distinct-few_replicas [] d = tt
Distinct-few_replicas (a ∷ l) d =
    let (rest, off) = Distinct-append (wrapped a 0 a.replicas) (wrapped_all l) d in
    (
      few_replicas a a.replicas (Distinct-front (wrapped a 0 a.replicas) (wrapped_all l) d),
      Distinct-few_replicas l rest,
    )

pub fits_exactly : (a : App) → a.port ≤ u16_max → a.replicas ≤ 65536 → FitsWrapped a → FitsPorts a
fits_exactly a p r f many = let w = f many in omega arith

pub fits_wrapped : (a : App) → a.port ≤ u16_max → FitsPorts a → FitsWrapped a
fits_wrapped a p f many = let w = f many in omega arith
