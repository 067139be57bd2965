-- ===== src/Manifest/Interpolate/Total.antt =====
-- crates/artzain-core/src/manifest.rs: the rounds of `interpolate_vars` and its fuel.
use artzain.Prelude.{
  ℕ, zero, suc, ◌≤◌, ◌<◌, ◌≡◌, ◌≢◌, refl, Option, none, some, [], ◌∷◌, nat_eq, length, map_or,
  arith,
}
use artzain.Manifest.Interpolate.{
  Code, dollar, close_brace, split_at, Interpolated, ok, unterminated, unknown_variable,
  out_of_fuel, resolve, push_str, Round, finished, emitted, referred, open_ended, after_dollar,
  round, push_variable, interpolate_from, interpolate_vars,
}

split_at_shorter : (c : ℕ) (l : Code) → map_or (split_at c l) 0 (λ p. suc (length p.1)) ≤ length l
split_at_shorter c [] = omega arith
split_at_shorter c (x ∷ l) = ground (arith, split_at_shorter c l)

-- The length of the text that is left, and one more.
abbrev left_over : Round → ℕ
left_over (finished l) = 0
left_over (emitted out rest) = suc (length rest)
left_over (referred out name rest) = suc (length rest)
left_over open_ended = 0

after_dollar_shorter :
    (before after : Code) → left_over (after_dollar before after) ≤ suc (length after)
after_dollar_shorter before [] = omega arith
after_dollar_shorter before (c ∷ l) = ground (arith, split_at_shorter close_brace l)

round_shorter : (raw : Code) → left_over (round raw) ≤ length raw
unfolding round
round_shorter raw = by (split_at dollar raw) refl
  where
    by :
        (o : Option (Code × Code))
        → split_at dollar raw ≡ o
        → left_over (elim o [ none ↦ finished raw | some p ↦ after_dollar p.0 p.1 ]) ≤ length raw
    by none e = omega arith
    by (some p) e = ground (arith, split_at_shorter dollar raw, after_dollar_shorter p.0 p.1)

push_str_returns : (l : Code) (i : Interpolated) → i ≢ out_of_fuel → push_str l i ≢ out_of_fuel
push_str_returns l (ok m) h = λ e. cc
push_str_returns l unterminated h = λ e. cc
push_str_returns l (unknown_variable n) h = λ e. cc
push_str_returns l out_of_fuel h = λ e. h refl

push_variable_returns :
    (value : Code → Option Code) (name : Code) (o : Option Code) (i : Interpolated)
    → i ≢ out_of_fuel
    → push_variable value name o i ≢ out_of_fuel
push_variable_returns value name none i h = λ e. cc
push_variable_returns value name (some v) i h = push_str_returns v i h

interpolate_from_returns :
    (value : Code → Option Code) (fuel : ℕ) (raw : Code)
    → length raw < fuel
    → interpolate_from value fuel raw ≢ out_of_fuel
unfolding interpolate_from
interpolate_from_returns value zero raw h = λ e. ground arith
interpolate_from_returns value (suc fuel) raw h =
    by (round raw) (round_shorter raw) (λ rest k. interpolate_from_returns value fuel rest k)
  where
    by :
        (o : Round)
        → left_over o ≤ length raw
        → ((rest : Code) → length rest < fuel → interpolate_from value fuel rest ≢ out_of_fuel)
        → (elim o as (λ _. Interpolated) [
          | finished l ↦ ok l
          | emitted out rest ↦ push_str out (interpolate_from value fuel rest)
          | referred out name rest ↦
              push_str out
                (push_variable value name (value name) (interpolate_from value fuel rest))
          | open_ended ↦ unterminated
        ])
          ≢ out_of_fuel
    by (finished l) k ih = λ e. cc
    by (emitted out rest) k ih =
        push_str_returns out (interpolate_from value fuel rest) (ih rest (omega arith))
    by (referred out name rest) k ih =
        push_str_returns out
          (push_variable value name (value name) (interpolate_from value fuel rest))
          (push_variable_returns value name (value name) (interpolate_from value fuel rest)
            (ih rest (omega arith)))
    by open_ended k ih = λ e. cc

-- `interpolate_vars` always returns: the text, or one of its two errors.
pub interpolate_vars_total :
    (env_var vars : Code → Option Code) (raw : Code)
    → interpolate_vars env_var vars raw ≢ out_of_fuel
unfolding interpolate_vars
interpolate_vars_total env_var vars raw =
    interpolate_from_returns (resolve env_var vars) (suc (length raw)) raw (omega arith)
