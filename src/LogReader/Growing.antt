-- ===== src/LogReader/Growing.antt =====
-- crates/artzain/src/logs.rs: `follow` on a file that only grows.
use artzain.Prelude.{
  ℕ, ◌≡◌, refl, Bool, true, false, none, some, List, [], ◌∷◌, ◌++◌, Bytes, map_or, length,
  length-append, drop, arith, ◌∙◌, ap, append_assoc, append-nil, sym,
}
use artzain.Disk.{FilePath, same_path_iff}
use artzain.LogReader.{
  View, Positions, set_position, read_from, follow_file, after_file, follow_round, follow_from,
  follow,
}

-- A file that holds `bytes` and does not change while it is looked at.
abbrev pub view_of : Bytes → View
view_of bytes = record {
  len = some (length bytes);
  bytes = some bytes;
  len_after = some (length bytes);
}

-- What is appended before each round, and the views that the rounds have.
abbrev pub growing : (so_far : Bytes) → List Bytes → List (FilePath → View)
growing so_far [] = []
growing so_far (more ∷ rest) = (λ p. view_of (so_far ++ more)) ∷ growing (so_far ++ more) rest

abbrev pub joined : List Bytes → Bytes
joined [] = []
joined (more ∷ rest) = more ++ joined rest

drop-length : (l m : Bytes) → drop (length l) (l ++ m) ≡ m
drop-length [] m = refl
drop-length (x ∷ l) m = drop-length l m

follow_file-growing :
    (l m : Bytes)
    → follow_file (view_of (l ++ m)) (length l, length l)
      ≡ some ((length (l ++ m), length (l ++ m)), m)
unfolding follow_file read_from
follow_file-growing l m =
    ground
      (arith, length-append l m, drop-length l m, drop-length m [], ap length (drop-length l m))

follow_round_one :
    (views : FilePath → View) (p : FilePath) (s : Positions) (out more : Bytes) (at : ℕ × ℕ)
    → follow_file (views p) (s p) ≡ some (at, more)
    → follow_round views (p ∷ []) (s, out) ≡ some (set_position p at s, out ++ more)
unfolding follow_round
follow_round_one views p s out more at h =
    ap (λ o. map_or (after_file p o (s, out)) none (λ x. some x)) h

follow_from_step :
    (views : FilePath → View) (rounds : List (FilePath → View)) (p : FilePath)
    (x y : Positions × Bytes)
    → follow_round views (p ∷ []) x ≡ some y
    → follow_from (views ∷ rounds) (p ∷ []) x ≡ follow_from rounds (p ∷ []) y
unfolding follow_from
follow_from_step views rounds p x y h =
    ap
      (λ o. elim o as (λ _. Bool × Bytes) [
        | none ↦ (false, x.1)
        | some z ↦ follow_from rounds (p ∷ []) z
      ])
      h

follow_from-growing :
    (p : FilePath) (so_far : Bytes) (rounds : List Bytes) (s : Positions) (out : Bytes)
    → s p ≡ (length so_far, length so_far)
    → follow_from (growing so_far rounds) (p ∷ []) (s, out) ≡ (true, out ++ joined rounds)
unfolding follow_from
follow_from-growing p so_far [] s out h = ap (λ (l : Bytes). (true, l)) (sym (append-nil out))
follow_from-growing p so_far (more ∷ rest) s out h =
    let now = so_far ++ more in
    let at : ℕ × ℕ = (length now, length now) in
    let seen : follow_file (view_of now) (s p) ≡ some (at, more) =
      ap (follow_file (view_of now)) h ∙ follow_file-growing so_far more in
    follow_from_step (λ q. view_of now) (growing now rest) p (s, out)
      (set_position p at s, out ++ more) (follow_round_one (λ q. view_of now) p s out more at seen)
    ∙ (follow_from-growing p now rest (set_position p at s) (out ++ more)
          (ground (arith, same_path_iff p p))
        ∙ ap (λ (l : Bytes). (true, l)) (append_assoc out more (joined rest)))

-- While a file only grows, `follow` prints each of its bytes once, from the start of the file, and
-- goes on.
pub follow-growing :
    (p : FilePath) (rounds : List Bytes)
    → follow (growing [] rounds) (p ∷ []) ≡ (true, joined rounds)
unfolding follow
follow-growing p rounds = follow_from-growing p [] rounds (λ q. (0, 0)) [] refl
