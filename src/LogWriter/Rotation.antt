-- ===== src/LogWriter/Rotation.antt =====
-- crates/artzain-core/src/process.rs: where `rotate_log` leaves each file.
use artzain.Prelude.{
  ℕ, zero, suc, ◌-◌, ◌≡◌, ◌≤◌, ◌<◌, ◌⊎◌, refl, Bool, true, false, ◌&&◌, Option, none, some, Bytes,
  if◌then◌else◌, nat_eq, leb, is_some, arith, ◌∙◌, sym, ◌≢◌, subst,
}
use native.Mathlib.Decide.{dec_lt}
use artzain.LogWriter.{Files, put, move, shift, remove, rotate_log}

-- The files 1 to `n` are each one further, with file 1 gone; the others are where they were.
abbrev Shifted : ℕ → Files → Files → Type 0
Shifted n f g =
    (g 1 ≡ none)
    × (((j : ℕ) → 1 ≤ j → j ≤ n → g (suc j) ≡ f j)
        × ((g 0 ≡ f 0) × ((j : ℕ) → suc n < j → g j ≡ f j)))

shift-Shifted :
    (renames : ℕ → Bool) (n : ℕ) (f : Files)
    → f (suc n) ≡ none
    → (shift renames n f).0 ≡ true
    → Shifted n f (shift renames n f).1
unfolding shift
shift-Shifted renames zero f free ok =
    (free, ((λ j a b. absurd (omega arith)), (refl, λ j a. refl)))
shift-Shifted renames (suc n) f free ok =
    by (f (suc n)) refl (renames (suc n)) ok
      (shift-Shifted renames n (move (suc n) (suc (suc n)) f)) (shift-Shifted renames n f)
  where
    moved : Files
    moved = move (suc n) (suc (suc n)) f

    moved_apart : (j : ℕ) → j ≢ suc n → j ≢ suc (suc n) → moved j ≡ f j
    moved_apart j p q = ground (arith, nat_eq.equal_iff (suc (suc n)) j, nat_eq.equal_iff (suc n) j)

    moved_to : moved (suc (suc n)) ≡ f (suc n)
    moved_to = ground (arith, nat_eq.equal_iff (suc (suc n)) (suc (suc n)))

    by :
        (o : Option Bytes)
        → f (suc n) ≡ o
        → (r : Bool)
        → (if is_some o
            then (if r then shift renames n moved else (false, f))
            else shift renames n f).0
          ≡ true
        → (moved (suc n) ≡ none
            → (shift renames n moved).0 ≡ true
            → Shifted n moved (shift renames n moved).1)
        → (f (suc n) ≡ none → (shift renames n f).0 ≡ true → Shifted n f (shift renames n f).1)
        → Shifted
            (suc n)
            f
            (if is_some o
              then (if r then shift renames n moved else (false, f))
              else shift renames n f).1
    by none e r h ihm ih =
        let (a, (b, (c, d))) = ih e h in
        (
          a,
          (
            (λ j lo hi. elim (dec_lt j (suc n)) [
              | yes p ↦ b j lo (omega arith)
              | no p ↦
                  let same : j ≡ suc n = omega arith in
                  rw same (d (suc (suc n)) (omega arith) ∙ (free ∙ sym e))
            ]),
            (c, λ j lt. d j (omega arith)),
          ),
        )
    by (some x) e true h ihm ih =
        let (a, (b, (c, d))) = ihm (ground (arith, nat_eq.equal_iff (suc (suc n)) (suc n))) h in
        (
          a,
          (
            (λ j lo hi. elim (dec_lt j (suc n)) [
              | yes p ↦ b j lo (omega arith) ∙ moved_apart j (omega arith) (omega arith)
              | no p ↦
                  let same : j ≡ suc n = omega arith in
                  rw same (d (suc (suc n)) (omega arith) ∙ moved_to)
            ]),
            (ground arith, λ j lt. d j (omega arith) ∙ moved_apart j (omega arith) (omega arith)),
          ),
        )
    by (some x) e false h ihm ih = cc

-- After a rotation that worked: the active file is gone, each other file that is kept is one further,
-- and nothing stands behind those.
abbrev pub Rotated : ℕ → Files → Files → Type 0
Rotated keep f g =
    (g 0 ≡ none)
    × (((j : ℕ) → suc j < keep → g (suc j) ≡ f j) × ((j : ℕ) → keep ≤ j → 1 ≤ j → g j ≡ f j))

-- The last step of a rotation, from the shifted files.
finish-Rotated :
    (n : ℕ) (f g : Files) → Shifted n (put (suc n) none f) g → Rotated (suc (suc n)) f (move 0 1 g)
finish-Rotated n f g (a, (b, (c, d))) = (
  ground (arith, nat_eq.equal_iff 1 0),
  (
    λ j lt. elim (dec_lt 0 j) [
      | yes p ↦ ground (
        arith,
        b j (omega arith),
        nat_eq.equal_iff 1 (suc j),
        nat_eq.equal_iff 0 (suc j),
        nat_eq.equal_iff (suc n) j,
      )
      | no p ↦
          let zero_index : j ≡ 0 = omega arith in
          rw zero_index (ground (arith, nat_eq.equal_iff 1 1, c, nat_eq.equal_iff (suc n) 0))
    ],
    λ j le lo. ground (
      arith,
      d j (omega arith),
      nat_eq.equal_iff 1 j,
      nat_eq.equal_iff 0 j,
      nat_eq.equal_iff (suc n) j,
    ),
  ),
)

removed-Rotated :
    (renames : ℕ → Bool) (keep : ℕ) (f : Files)
    → (rotate_log true renames keep f).0 ≡ true
    → Rotated keep f (rotate_log true renames keep f).1
unfolding rotate_log
removed-Rotated renames zero f ok =
    (refl, ((λ j lt. absurd (omega arith)), λ j le lo. ground (arith, nat_eq.equal_iff 0 j)))
removed-Rotated renames (suc zero) f ok =
    (refl, ((λ j lt. absurd (omega arith)), λ j le lo. ground (arith, nat_eq.equal_iff 0 j)))
removed-Rotated renames (suc (suc n)) f ok =
    by (leb (suc (suc n)) 1) (ground arith) (suc (suc n) - 2) (suc (suc n) - 1) (omega arith)
      (omega arith) ok
  where
    ended : Bool → Bool → Files → Bool × Files
    ended shifted b g =
        if shifted then (if b then (true, move 0 1 g) else (false, g)) else (false, g)

    step : (k d : ℕ) → Bool × Files
    step k d =
        let (shifted, g) = shift renames k (put d none f) in
        ended shifted (is_some (g 0) && renames 0) g

    pick :
        (shifted : Bool) (g : Files) (b : Bool)
        → (shifted ≡ true → Shifted n (put (suc n) none f) g)
        → (ended shifted b g).0 ≡ true
        → Rotated (suc (suc n)) f (ended shifted b g).1
    pick true g true h k = finish-Rotated n f g (h refl)
    pick true g false h k = cc
    pick false g b h k = cc

    at :
        (k d : ℕ)
        → k ≡ n
        → d ≡ suc n
        → (shift renames k (put d none f)).0 ≡ true
        → Shifted n (put (suc n) none f) (shift renames k (put d none f)).1
    at k d p q s =
        subst (λ e. Shifted n (put e none f) (shift renames k (put d none f)).1) q
          (subst (λ e. Shifted e (put d none f) (shift renames k (put d none f)).1) p
            (shift-Shifted renames k (put d none f) (ground (arith, nat_eq.equal_iff d (suc k))) s))

    whole : Bool → (k d : ℕ) → Bool × Files
    whole t k d = if t then (true, put 0 none f) else step k d

    by :
        (t : Bool)
        → t ≡ false
        → (k d : ℕ) → k ≡ n
        → d ≡ suc n
        → (whole t k d).0 ≡ true
        → Rotated (suc (suc n)) f (whole t k d).1
    by true small k d p q h = cc
    by false small k d p q h =
        pick (shift renames k (put d none f)).0 (shift renames k (put d none f)).1
          (is_some ((shift renames k (put d none f)).1 0) && renames 0) (at k d p q) h

pub rotate_log-Rotated :
    (removes : Bool) (renames : ℕ → Bool) (keep : ℕ) (f : Files)
    → removes ≡ true
    → (rotate_log removes renames keep f).0 ≡ true
    → Rotated keep f (rotate_log removes renames keep f).1
rotate_log-Rotated true renames keep f works ok = removed-Rotated renames keep f ok
rotate_log-Rotated false renames keep f works ok = cc

-- After a rotation the active file is gone, if it was renamed, or else removed.
pub rotate_log_gone :
    (removes : Bool) (renames : ℕ → Bool) (keep : ℕ) (f : Files)
    → (2 ≤ keep) ⊎ (removes ≡ true)
    → (rotate_log removes renames keep f).0 ≡ true
    → (rotate_log removes renames keep f).1 0 ≡ none
unfolding rotate_log
rotate_log_gone removes renames keep f h ok =
    by (leb keep 1) refl removes refl (shift renames (keep - 2) (remove removes (keep - 1) f)).0
      (shift renames (keep - 2) (remove removes (keep - 1) f)).1 ok
  where
    finished : Bool → Bool → Bool → Files → Bool × Files
    finished t r s g =
        if t
        then (true, remove r 0 f)
        else (if s
            then (if is_some (g 0) && renames 0 then (true, move 0 1 g) else (false, g))
            else (false, g))

    by :
        (t : Bool)
        → leb keep 1 ≡ t
        → (r : Bool) → removes ≡ r
        → (s : Bool) (g : Files) → (finished t r s g).0 ≡ true
        → (finished t r s g).1 0 ≡ none
    by true e true q s g k = refl
    by true e false q s g k = ground (arith, h)
    by false e r q s g k = ground (arith, nat_eq.equal_iff 1 0)

shift_works :
    (renames : ℕ → Bool) (n : ℕ) (f : Files)
    → ((i : ℕ) → renames i ≡ true)
    → (shift renames n f).0 ≡ true
unfolding shift
shift_works renames zero f h = refl
shift_works renames (suc n) f h = ground (
  arith,
  h (suc n),
  shift_works renames n f h,
  shift_works renames n (move (suc n) (suc (suc n)) f) h,
)

shift_first : (renames : ℕ → Bool) (n : ℕ) (f : Files) → (shift renames n f).1 0 ≡ f 0
unfolding shift
shift_first renames zero f = refl
shift_first renames (suc n) f = ground (
  arith,
  shift_first renames n f,
  shift_first renames n (move (suc n) (suc (suc n)) f),
  nat_eq.equal_iff (suc (suc n)) 0,
  nat_eq.equal_iff (suc n) 0,
)

-- A rotation of a log whose active file is there works, if renaming does.
pub rotate_log_works :
    (removes : Bool) (renames : ℕ → Bool) (keep : ℕ) (f : Files)
    → ((i : ℕ) → renames i ≡ true)
    → is_some (f 0) ≡ true
    → (rotate_log removes renames keep f).0 ≡ true
unfolding rotate_log
rotate_log_works true renames keep f h there = ground (
  arith,
  h 0,
  shift_works renames (keep - 2) (put (keep - 1) none f) h,
  shift_first renames (keep - 2) (put (keep - 1) none f),
  nat_eq.equal_iff (keep - 1) 0,
)
rotate_log_works false renames keep f h there =
    ground (arith, h 0, shift_works renames (keep - 2) f h, shift_first renames (keep - 2) f)
