-- ===== src/Prelude/Codes.antt =====
-- Texts as lists of numbers: bytes, or the code points of characters.
use Prim.Native.Nat.{ℕ, zero, suc}
use Prim.Native.Char.{code}
use Prim.Native.String.{String}
use mathlib.Core.Path.{◌≡◌}
use mathlib.Core.Logic.{◌↔◌}
use mathlib.Core.Bool.{Bool, true, false, ◌&&◌}
use mathlib.Core.List.{List, [], ◌∷◌}
use native.Mathlib.Omega.{arith}
use artzain.Prelude.Tests.{Eq, nat_eq}

abbrev pub Bytes : Type 0
Bytes = List ℕ

-- A text literal.
abbrev pub codes : String → Bytes
codes String.[] = []
codes (String.◌∷◌ c s) = code c ∷ codes s

abbrev pub newline : ℕ
newline = 10

module _ {ℓ} {A : Type ℓ} where
  abbrev pub take : ℕ → List A → List A
  take zero xs = []
  take (suc n) [] = []
  take (suc n) (x ∷ xs) = x ∷ take n xs

  abbrev pub list_beq : Eq A → List A → List A → Bool
  list_beq e [] [] = true
  list_beq e (x ∷ xs) (y ∷ ys) = e.equal x y && list_beq e xs ys
  list_beq e _ _ = false

  pub list_beq_iff : (e : Eq A) (xs ys : List A) → (list_beq e xs ys ≡ true) ↔ (xs ≡ ys)
  list_beq_iff e [] [] = ground arith
  list_beq_iff e [] (y ∷ ys) = ground arith
  list_beq_iff e (x ∷ xs) [] = ground arith
  list_beq_iff e (x ∷ xs) (y ∷ ys) = ground (arith, e.equal_iff x y, list_beq_iff e xs ys)

instance abbrev pub bytes_eq : Eq Bytes
bytes_eq = record { equal = list_beq nat_eq; equal_iff = list_beq_iff nat_eq }

-- `starts_with`.
abbrev pub starts_with : Bytes → Bytes → Bool
starts_with [] s = true
starts_with (c ∷ p) [] = false
starts_with (c ∷ p) (d ∷ s) = nat_eq.equal c d && starts_with p s
