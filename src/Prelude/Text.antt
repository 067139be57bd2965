-- ===== src/Prelude/Text.antt =====
-- Numbers as decimal text, as `to_string` and `{}` print them.
use Prim.Native.Nat.{ℕ, zero, suc, ◌/◌, ◌%◌}
use Prim.Native.String.{String, ◌++◌ as ◌++ₛ◌}
use artzain.Prelude.Tests.{if◌then◌else◌, ltb}
use mathlib.Core.List.{List, [], ◌∷◌}

infixr 65 ◌<>◌
abbrev pub ◌<>◌ : String → String → String
s <> t = ◌++ₛ◌ s t

abbrev pub digit : ℕ → String
digit zero = "0"
digit (suc zero) = "1"
digit (suc (suc zero)) = "2"
digit (suc (suc (suc zero))) = "3"
digit (suc (suc (suc (suc zero)))) = "4"
digit (suc (suc (suc (suc (suc zero))))) = "5"
digit (suc (suc (suc (suc (suc (suc zero)))))) = "6"
digit (suc (suc (suc (suc (suc (suc (suc zero))))))) = "7"
digit (suc (suc (suc (suc (suc (suc (suc (suc zero)))))))) = "8"
digit (suc (suc (suc (suc (suc (suc (suc (suc (suc n))))))))) = "9"

unfoldable pub to_string_from : ℕ → ℕ → String
to_string_from zero n = ""
to_string_from (suc fuel) n =
    let front = to_string_from fuel (n / 10) in
    if ltb n 10 then digit n else front <> digit (n % 10)

-- Twenty digits hold every 64-bit number.
unfoldable pub to_string : ℕ → String
unfolding to_string_from
to_string n = to_string_from 20 n

abbrev pub join : String → List String → String
join sep [] = ""
join sep (s ∷ []) = s
join sep (s ∷ t ∷ l) = s <> (sep <> join sep (t ∷ l))
