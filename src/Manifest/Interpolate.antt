-- ===== src/Manifest/Interpolate.antt =====
-- crates/artzain-core/src/manifest.rs: `interpolate_vars`. A text is the list of its characters'
-- codes. The variables of the parent process, upper-casing and the reading of the `[vars]` table by
-- the toml crate are given. The loop runs on fuel: each round takes a character off the text.
pub mod Print
pub mod Total
use artzain.Prelude.{
  ℕ, zero, suc, Bool, true, false, Option, none, some, List, [], ◌∷◌, ◌++◌, if◌then◌else◌, Eq, ◌≡◌,
  ◌↔◌, arith, Key, ltb, lookup, nat_eq, ◌==◌, length, ◌&&◌,
}

abbrev pub Code : Type 0
Code = List ℕ

abbrev pub dollar : ℕ
dollar = 36

abbrev pub open_brace : ℕ
open_brace = 123

abbrev pub close_brace : ℕ
close_brace = 125

-- `str::find(c)`: the text in front of the first `c`, and the text behind it.
abbrev pub split_at : ℕ → Code → Option (Code × Code)
split_at c [] = none
split_at c (x ∷ l) = elim (split_at c l) [
  | none ↦ if x == c then some ([], l) else none
  | some p ↦ if x == c then some ([], l) else some (x ∷ p.0, p.1)
]

pub data Interpolated : Type 0 where
  ok : Code → Interpolated
  unterminated : Interpolated
  unknown_variable : (name : Code) → Interpolated
  out_of_fuel : Interpolated

-- `resolve`, of the process's `ARTZAIN_VAR_` variable for a name and the manifest's own variables.
abbrev pub first_of : Option Code → Option Code → Option Code
first_of (some v) d = some v
first_of none d = d

abbrev pub resolve : (env_var vars : Code → Option Code) → Code → Option Code
resolve env_var vars name = first_of (env_var name) (vars name)

-- `out.push_str`, in front of what the rest gives.
abbrev pub push_str : Code → Interpolated → Interpolated
push_str l (ok rest) = ok (l ++ rest)
push_str l unterminated = unterminated
push_str l (unknown_variable name) = unknown_variable name
push_str l out_of_fuel = out_of_fuel

-- What one round of the loop does: it ends, or it pushes some text and goes on with the rest.
pub data Round : Type 0 where
  finished : Code → Round
  emitted : (out rest : Code) → Round
  referred : (out name rest : Code) → Round
  open_ended : Round

abbrev pub after_dollar : Code → Code → Round
after_dollar before [] = emitted (before ++ dollar ∷ []) []
after_dollar before (c ∷ l) =
    if c == dollar
    then emitted (before ++ dollar ∷ []) l
    else (if c == open_brace
        then (elim (split_at close_brace l) [
          | none ↦ open_ended
          | some p ↦ referred before p.0 p.1
        ])
        else emitted (before ++ dollar ∷ []) (c ∷ l))

unfoldable pub round : Code → Round
round raw = elim (split_at dollar raw) [ none ↦ finished raw | some p ↦ after_dollar p.0 p.1 ]

module _ (variable : Code → Option Code) where
  abbrev pub push_variable : Code → Option Code → Interpolated → Interpolated
  push_variable name none rest = unknown_variable name
  push_variable name (some v) rest = push_str v rest

  unfoldable pub interpolate_from : ℕ → Code → Interpolated
  unfolding round
  interpolate_from zero raw = out_of_fuel
  interpolate_from (suc fuel) raw = elim (round raw) [
    | finished l ↦ ok l
    | emitted out rest ↦ push_str out (interpolate_from fuel rest)
    | referred out name rest ↦
        push_str out (push_variable name (variable name) (interpolate_from fuel rest))
    | open_ended ↦ unterminated
  ]

unfoldable pub interpolate_vars : (env_var vars : Code → Option Code) → Code → Interpolated
unfolding interpolate_from
interpolate_vars env_var vars raw = interpolate_from (resolve env_var vars) (suc (length raw)) raw
