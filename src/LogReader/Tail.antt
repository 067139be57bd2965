-- ===== src/LogReader/Tail.antt =====
-- crates/artzain/src/logs.rs: which lines `tail` prints.
use artzain.Prelude.{
  ℕ, zero, suc, ◌-◌, ◌≡◌, ◌≢◌, ◌≤◌, ◌<◌, refl, Bool, true, false, ◌||◌, ◌*◌, Option, none, some,
  List, [], ◌∷◌, ◌++◌, Bytes, ltb, ◌&&◌, if◌then◌else◌, ◌==◌, nat_eq, length, length-append, drop,
  map, arith, ◌∙◌, ap, append_assoc, append-nil, sym,
}
use native.Mathlib.Decide.{dec_lt}
use artzain.LogReader.{Tailed, printed, panicked, push_line, tail_from, tail}

-- The last `n` of a list.
abbrev pub last_of {ℓ} : {A : Type ℓ} → ℕ → List A → List A
last_of n l = drop (length l - n) l

drop-append {ℓ} :
    {A : Type ℓ} (n : ℕ) (l m : List A) → n ≤ length l → drop n (l ++ m) ≡ drop n l ++ m
drop-append zero l m h = refl
drop-append (suc n) [] m h = absurd (omega arith)
drop-append (suc n) (x ∷ l) m h = drop-append n l m (omega arith)

drop-drop_one {ℓ} : {A : Type ℓ} (n : ℕ) (l : List A) → drop 1 (drop n l) ≡ drop (suc n) l
drop-drop_one zero [] = refl
drop-drop_one zero (x ∷ l) = refl
drop-drop_one (suc n) [] = refl
drop-drop_one (suc n) (x ∷ l) = drop-drop_one n l

drop-nil {ℓ} : {A : Type ℓ} (n : ℕ) → drop {A = A} n [] ≡ []
drop-nil zero = refl
drop-nil (suc n) = refl

length-drop {ℓ} : {A : Type ℓ} (n : ℕ) (l : List A) → length (drop n l) ≡ length l - n
length-drop zero l = omega arith
length-drop (suc n) [] = omega arith
length-drop (suc n) (x ∷ l) = omega (arith, length-drop n l)

push_line_full :
    (n : ℕ) (line : Bytes) (ring : List Bytes)
    → length ring ≡ n
    → 0 < n
    → push_line n line ring ≡ some (drop 1 ring ++ line ∷ [])
push_line_full n line [] e pos = absurd (omega arith)
push_line_full n line (x ∷ l) e pos = ground (arith, nat_eq.equal_iff (length (x ∷ l)) n)

push_line_room :
    (n : ℕ) (line : Bytes) (ring : List Bytes)
    → length ring ≢ n
    → push_line n line ring ≡ some (ring ++ line ∷ [])
push_line_room n line ring e = ground (arith, nat_eq.equal_iff (length ring) n)

-- One line more: the ring of the last lines goes on to be that.
push_line-last_of :
    (n : ℕ) (seen : List Bytes) (line : Bytes)
    → 0 < n
    → push_line n line (last_of n seen) ≡ some (last_of n (seen ++ line ∷ []))
push_line-last_of n seen line pos = elim (dec_lt (length seen) n) [
  | yes short ↦
      let none_dropped : length seen - n ≡ 0 = omega arith in
      let still_none : length (seen ++ line ∷ []) - n ≡ 0 =
        omega (arith, length-append seen (line ∷ [])) in
      rw (none_dropped, still_none) (push_line_room n line seen (omega arith))
  | no long ↦
      let at = length seen - n in
      let one_more : length (seen ++ line ∷ []) - n ≡ suc (length seen - n) =
        omega (arith, length-append seen (line ∷ [])) in
      rw one_more (
        push_line_full n line (drop (length seen - n) seen)
          (omega (arith, length-drop (length seen - n) seen)) pos
        ∙ ap (λ l. some (l ++ line ∷ [])) (drop-drop_one (length seen - n) seen)
        ∙ ap some (sym (drop-append (suc (length seen - n)) seen (line ∷ []) (omega arith))))
]

tail_from_step :
    (n : ℕ) (line : Bytes) (lines : List (Option Bytes)) (ring next : List Bytes)
    → push_line n line ring ≡ some next
    → tail_from n (some line ∷ lines) ring ≡ tail_from n lines next
unfolding tail_from
tail_from_step n line lines ring next h =
    ap (λ o. elim o as (λ _. Tailed) [ none ↦ panicked | some r ↦ tail_from n lines r ]) h

tail_from-last_of :
    (n : ℕ) (seen lines : List Bytes)
    → 0 < n
    → tail_from n (map some lines) (last_of n seen) ≡ printed (last_of n (seen ++ lines))
unfolding tail_from
tail_from-last_of n seen [] pos = ap (λ l. printed (last_of n l)) (sym (append-nil seen))
tail_from-last_of n seen (line ∷ lines) pos =
    tail_from_step n line (map some lines) (last_of n seen) (last_of n (seen ++ line ∷ []))
      (push_line-last_of n seen line pos)
    ∙ (tail_from-last_of n (seen ++ line ∷ []) lines pos
        ∙ ap (λ l. printed (last_of n l)) (append_assoc seen (line ∷ []) lines))

-- With room for the ring.
tail-within :
    (n : ℕ) (lines : List Bytes)
    → tail_from n (map some lines) []
      ≡ (if (n == 0) && ltb 0 (length lines) then panicked else printed (last_of n lines))
unfolding tail_from
tail-within zero [] = refl
tail-within zero (x ∷ lines) = ground arith
tail-within (suc n) lines =
    ap (tail_from (suc n) (map some lines)) (sym (drop-nil (0 - suc n)))
    ∙ (tail_from-last_of (suc n) [] lines (omega arith)
        ∙ ap (λ b. if b && ltb 0 (length lines) then panicked else printed (last_of (suc n) lines))
            (sym not_zero))
  where
    not_zero : (suc n == 0) ≡ false
    not_zero = ground (arith, nat_eq.equal_iff (suc n) 0)

-- `tail` prints the last `n` lines of a file whose lines can be read, but panics if `n` is zero and
-- there is a line, or if `n` strings of 24 bytes are more bytes than `isize::MAX`.
pub tail-last_of :
    (n : ℕ) (lines : List Bytes)
    → tail n (some (map some lines)) ≡ (
        if ltb 9223372036854775807 (n * 24) || ((n == 0) && ltb 0 (length lines))
        then panicked
        else printed (last_of n lines))
unfolding tail
tail-last_of n lines = by (ltb 9223372036854775807 (n * 24)) (tail-within n lines)
  where
    by :
        (b : Bool)
        → tail_from n (map some lines) []
          ≡ (if (n == 0) && ltb 0 (length lines) then panicked else printed (last_of n lines))
        → (if b then panicked else tail_from n (map some lines) []) ≡ (
            if b || ((n == 0) && ltb 0 (length lines)) then panicked else printed (last_of n lines))
    by true h = refl
    by false h = h
