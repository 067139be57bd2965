-- ===== src/Reconcile/Run/Sorted.antt =====
-- crates/artzain-core/src/reconcile.rs: the sort of `teardown` by rank.
use artzain.Prelude.{
  ℕ, ◌≡◌, refl, Bool, true, false, Option, none, some, String, List, [], ◌∷◌, if◌then◌else◌,
  string_eq, All, All-map, count, arith,
}
use artzain.Manifest.{string_key}
use artzain.Reconcile.Instance.{Instance}
use artzain.Reconcile.Run.{later_rank, insert_rank, sort_rank}

-- `j` may stand behind `i`: its rank is not the larger one.
abbrev pub IsBehind : (String → Option ℕ) → Instance → Instance → Type 0
IsBehind rank i j = later_rank (rank j.app) (rank i.app) ≡ false

abbrev pub IsSorted : (String → Option ℕ) → List Instance → Type 0
IsSorted rank [] = Unit
IsSorted rank (i ∷ l) = All (IsBehind rank i) l × IsSorted rank l

later_rank_asym : (a b : Option ℕ) → later_rank a b ≡ true → later_rank b a ≡ false
later_rank_asym none none h = cc
later_rank_asym none (some b) h = refl
later_rank_asym (some a) none h = cc
later_rank_asym (some a) (some b) h = ground arith

later_rank_trans :
    (a b c : Option ℕ) → later_rank b a ≡ false → later_rank c b ≡ false → later_rank c a ≡ false
later_rank_trans none b none h k = refl
later_rank_trans none none (some c) h k = refl
later_rank_trans none (some b) (some c) h k = refl
later_rank_trans (some a) none c h k = cc
later_rank_trans (some a) (some b) none h k = cc
later_rank_trans (some a) (some b) (some c) h k = ground arith

module _ (rank : String → Option ℕ) where
  All-insert_rank :
      (P : Instance → Type 0) (x : Instance) (l : List Instance)
      → P x
      → All P l
      → All P (insert_rank rank x l)
  unfolding insert_rank
  All-insert_rank P x [] h k = (h, tt)
  All-insert_rank P x (y ∷ l) h k =
      by_rank (later_rank (rank y.app) (rank x.app)) (All-insert_rank P x l h k.1)
    where
      by_rank :
          (b : Bool)
          → All P (insert_rank rank x l)
          → All P (if b then y ∷ insert_rank rank x l else x ∷ y ∷ l)
      by_rank true ih = (k.0, ih)
      by_rank false ih = (h, k)

  insert_rank-IsSorted :
      (x : Instance) (l : List Instance) → IsSorted rank l → IsSorted rank (insert_rank rank x l)
  unfolding insert_rank
  insert_rank-IsSorted x [] s = (tt, tt)
  insert_rank-IsSorted x (y ∷ l) s =
      by_rank (later_rank (rank y.app) (rank x.app)) refl (insert_rank-IsSorted x l s.1)
    where
      by_rank :
          (b : Bool)
          → later_rank (rank y.app) (rank x.app) ≡ b
          → IsSorted rank (insert_rank rank x l)
          → IsSorted rank (if b then y ∷ insert_rank rank x l else x ∷ y ∷ l)
      by_rank true later ih = (
        All-insert_rank (IsBehind rank y) x l (later_rank_asym (rank y.app) (rank x.app) later) s.0,
        ih,
      )
      by_rank false later ih = (
        (
          later,
          All-map (IsBehind rank y) (IsBehind rank x) l
              (λ j h. later_rank_trans (rank x.app) (rank y.app) (rank j.app) later h) s.0,
        ),
        s,
      )

  pub sort_rank-IsSorted : (l : List Instance) → IsSorted rank (sort_rank rank l)
  unfolding sort_rank
  sort_rank-IsSorted [] = tt
  sort_rank-IsSorted (x ∷ l) = insert_rank-IsSorted x (sort_rank rank l) (sort_rank-IsSorted l)

  count-insert_rank :
      (p : Instance → Bool) (x : Instance) (l : List Instance)
      → count p (insert_rank rank x l) ≡ count p (x ∷ l)
  unfolding insert_rank
  count-insert_rank p x [] = refl
  count-insert_rank p x (y ∷ l) =
      by_rank (later_rank (rank y.app) (rank x.app)) (count-insert_rank p x l)
    where
      by_rank :
          (b : Bool)
          → count p (insert_rank rank x l) ≡ count p (x ∷ l)
          → count p (if b then y ∷ insert_rank rank x l else x ∷ y ∷ l) ≡ count p (x ∷ y ∷ l)
      by_rank true ih = omega (arith, ih)
      by_rank false ih = refl

  pub count-sort_rank :
      (p : Instance → Bool) (l : List Instance) → count p (sort_rank rank l) ≡ count p l
  unfolding sort_rank
  count-sort_rank p [] = refl
  count-sort_rank p (x ∷ l) =
      omega (arith, count-insert_rank p x (sort_rank rank l), count-sort_rank p l)
