-- ===== src/Manifest/Interpolate/Print.antt =====
-- crates/artzain-core/src/manifest.rs: texts printed in segments, for `interpolate_vars`.
use artzain.Prelude.{
  ℕ, zero, suc, ◌≤◌, ◌≡◌, refl, Bool, true, false, Option, none, some, List, [], ◌∷◌, ◌++◌, nat_eq,
  ◌==◌, length, length-append, all, not, arith, append_assoc, ◌∙◌, ap, sym,
}
use artzain.Manifest.Interpolate.{
  Code, dollar, open_brace, close_brace, split_at, Interpolated, ok, unterminated, unknown_variable,
  out_of_fuel, resolve, push_str, Round, finished, emitted, referred, open_ended, after_dollar,
  round, push_variable, interpolate_from, interpolate_vars,
}

pub data Segment : Type 0 where
  -- Text without a `$`.
  literal : Code → Segment
  -- A `$`, which is printed twice.
  escaped : Segment
  -- `${name}`
  variable : (name : Code) → Segment

-- The character is not in the text.
abbrev pub lacks : ℕ → Code → Bool
lacks c l = all (λ x. not (x == c)) l

abbrev pub is_printable : Segment → Bool
is_printable (literal l) = lacks dollar l
is_printable escaped = true
is_printable (variable name) = lacks close_brace name

abbrev pub print_one : Segment → Code
print_one (literal l) = l
print_one escaped = dollar ∷ dollar ∷ []
print_one (variable name) = dollar ∷ open_brace ∷ (name ++ close_brace ∷ [])

abbrev pub print : List Segment → Code
print [] = []
print (s ∷ l) = print_one s ++ print l

module _ (value : Code → Option Code) where
  -- What the segments stand for.
  abbrev pub render : List Segment → Interpolated
  render [] = ok []
  render (literal l ∷ segments) = push_str l (render segments)
  render (escaped ∷ segments) = push_str (dollar ∷ []) (render segments)
  render (variable name ∷ segments) = push_variable value name (value name) (render segments)

split_at-lacks : (c : ℕ) (l m : Code) → lacks c l ≡ true → split_at c (l ++ c ∷ m) ≡ some (l, m)
split_at-lacks c [] m h = ground (arith, split_at c m, nat_eq.equal_iff c c)
split_at-lacks c (x ∷ l) m h = ground (arith, split_at-lacks c l m)

push_str-push_str :
    (l m : Code) (i : Interpolated) → push_str (l ++ m) i ≡ push_str l (push_str m i)
push_str-push_str l m (ok rest) = ap ok (append_assoc l m rest)
push_str-push_str l m unterminated = refl
push_str-push_str l m (unknown_variable name) = refl
push_str-push_str l m out_of_fuel = refl

push_str-nil : (i : Interpolated) → push_str [] i ≡ i
push_str-nil (ok rest) = refl
push_str-nil unterminated = refl
push_str-nil (unknown_variable name) = refl
push_str-nil out_of_fuel = refl

-- A round on a text with one more character in front of it, which is no `$`.
abbrev cons_round : ℕ → Round → Round
cons_round x (finished l) = finished (x ∷ l)
cons_round x (emitted out rest) = emitted (x ∷ out) rest
cons_round x (referred out name rest) = referred (x ∷ out) name rest
cons_round x open_ended = open_ended

after_dollar-cons :
    (x : ℕ) (before after : Code)
    → after_dollar (x ∷ before) after ≡ cons_round x (after_dollar before after)
after_dollar-cons x before [] = refl
after_dollar-cons x before (c ∷ l) = ground arith

round-cons : (x : ℕ) (l : Code) → (x == dollar) ≡ false → round (x ∷ l) ≡ cons_round x (round l)
unfolding round
round-cons x l h = by (split_at dollar l) refl
  where
    by : (o : Option (Code × Code)) → split_at dollar l ≡ o → round (x ∷ l) ≡ cons_round x (round l)
    by none e = ground (arith, e)
    by (some p) e = ground (arith, e, after_dollar-cons x p.0 p.1)

module _ (value : Code → Option Code) where
  interpolate_from-cons :
      (fuel x : ℕ) (l : Code)
      → (x == dollar) ≡ false
      → interpolate_from value (suc fuel) (x ∷ l)
        ≡ push_str (x ∷ []) (interpolate_from value (suc fuel) l)
  unfolding interpolate_from
  interpolate_from-cons fuel x l h = by (round l) refl
    where
      by :
          (o : Round)
          → round l ≡ o
          → interpolate_from value (suc fuel) (x ∷ l)
            ≡ push_str (x ∷ []) (interpolate_from value (suc fuel) l)
      by (finished m) e = ground (arith, round-cons x l h)
      by (emitted out rest) e = ground (
        arith,
        round-cons x l h,
        push_str-push_str (x ∷ []) out (interpolate_from value fuel rest),
      )
      by (referred out name rest) e = ground (
        arith,
        round-cons x l h,
        push_str-push_str (x ∷ []) out
            (push_variable value name (value name) (interpolate_from value fuel rest)),
      )
      by open_ended e = ground (arith, round-cons x l h)

  interpolate_from-literal :
      (fuel : ℕ) (l m : Code)
      → lacks dollar l ≡ true
      → interpolate_from value (suc fuel) (l ++ m)
        ≡ push_str l (interpolate_from value (suc fuel) m)
  interpolate_from-literal fuel [] m h = sym (push_str-nil (interpolate_from value (suc fuel) m))
  interpolate_from-literal fuel (x ∷ l) m h = ground (
    arith,
    interpolate_from-cons fuel x (l ++ m),
    interpolate_from-literal fuel l m,
    push_str-push_str (x ∷ []) l (interpolate_from value (suc fuel) m),
  )

  -- The rounds that a text in segments takes.
  abbrev rounds : List Segment → ℕ
  rounds [] = 1
  rounds (literal l ∷ segments) = rounds segments
  rounds (s ∷ segments) = suc (rounds segments)

  rounds_pos : (segments : List Segment) → 1 ≤ rounds segments
  rounds_pos [] = omega arith
  rounds_pos (literal l ∷ segments) = rounds_pos segments
  rounds_pos (escaped ∷ segments) = omega arith
  rounds_pos (variable name ∷ segments) = omega arith

  interpolate_from-escaped :
      (fuel : ℕ) (m : Code)
      → interpolate_from value (suc fuel) (dollar ∷ dollar ∷ m)
        ≡ push_str (dollar ∷ []) (interpolate_from value fuel m)
  unfolding interpolate_from round
  interpolate_from-escaped fuel m = ground (arith, split_at-lacks dollar [] (dollar ∷ m) refl)

  interpolate_from-variable :
      (fuel : ℕ) (name m : Code)
      → lacks close_brace name ≡ true
      → interpolate_from value (suc fuel) (dollar ∷ open_brace ∷ (name ++ close_brace ∷ m))
        ≡ push_variable value name (value name) (interpolate_from value fuel m)
  unfolding interpolate_from round
  interpolate_from-variable fuel name m h = ground (
    arith,
    split_at-lacks dollar [] (open_brace ∷ (name ++ close_brace ∷ m)) refl,
    split_at-lacks close_brace name m h,
    push_str-nil (push_variable value name (value name) (interpolate_from value fuel m)),
  )

  interpolate_from-print :
      (fuel : ℕ) (segments : List Segment)
      → all is_printable segments ≡ true
      → rounds segments ≤ fuel
      → interpolate_from value fuel (print segments) ≡ render value segments
  unfolding interpolate_from round
  interpolate_from-print zero segments p h = let pos = rounds_pos segments in ground arith
  interpolate_from-print (suc fuel) [] p h = refl
  interpolate_from-print (suc fuel) (literal l ∷ segments) p h =
      interpolate_from-literal fuel l (print segments) (ground arith)
      ∙ ap (push_str l) (interpolate_from-print (suc fuel) segments (ground arith) h)
  interpolate_from-print (suc fuel) (escaped ∷ segments) p h =
      interpolate_from-escaped fuel (print segments)
      ∙ ap (push_str (dollar ∷ []))
          (interpolate_from-print fuel segments (ground arith) (omega arith))
  interpolate_from-print (suc fuel) (variable name ∷ segments) p h =
      ap (interpolate_from value (suc fuel))
        (ap (λ l. dollar ∷ open_brace ∷ l) (append_assoc name (close_brace ∷ []) (print segments)))
      ∙ (interpolate_from-variable fuel name (print segments) (ground arith)
          ∙ ap (push_variable value name (value name))
              (interpolate_from-print fuel segments (ground arith) (omega arith)))

  rounds-le-length : (segments : List Segment) → rounds segments ≤ suc (length (print segments))
  rounds-le-length [] = omega arith
  rounds-le-length (literal l ∷ segments) =
      omega (arith, rounds-le-length segments, length-append l (print segments))
  rounds-le-length (escaped ∷ segments) = omega (arith, rounds-le-length segments)
  rounds-le-length (variable name ∷ segments) =
      omega (
        arith,
        rounds-le-length segments,
        length-append (name ++ close_brace ∷ []) (print segments),
      )

-- Printing and interpolating: a text given in segments, whose literals have no `$` and whose variable
-- names no `}`, comes back with each doubled `$` single and each variable replaced by its value,
-- or as the error about the first variable that has none.
pub interpolate_vars-print :
    (env_var vars : Code → Option Code) (segments : List Segment)
    → all is_printable segments ≡ true
    → interpolate_vars env_var vars (print segments) ≡ render (resolve env_var vars) segments
unfolding interpolate_vars
interpolate_vars-print env_var vars segments p =
    interpolate_from-print (resolve env_var vars) (suc (length (print segments))) segments p
      (rounds-le-length (resolve env_var vars) segments)
