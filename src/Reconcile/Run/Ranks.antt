-- ===== src/Reconcile/Run/Ranks.antt =====
-- crates/artzain-core/src/reconcile.rs: the ranks that `teardown` sorts by, against the dependencies of the
-- manifest.
use artzain.Prelude.{
  ℕ, suc, ◌≡◌, ◌≤◌, ◌<◌, refl, sym, Bool, true, false, ◌||◌, Option, some, String, List, [], ◌∷◌,
  ◌⊎◌, inl, inr, if◌then◌else◌, is_some, ◌==◌, ==_sound, string_eq, contains, lookup, All,
  All-of_contains, Bool-cases, subst, ap, ◌∙◌, arith,
}
use artzain.Manifest.{App, Manifest, string_key}
use artzain.Manifest.AppOrder.{Names, by_name, app_names}
use artzain.Manifest.AppOrder.NameTable.{by_name-Listed}
use artzain.Manifest.AppOrder.Placed.{IsPlaced, IsOrdered, IsStartOrder}
use artzain.Manifest.AppOrder.Cycles.{Needs, Chain, one, more}
use artzain.Reconcile.Run.{rank_from}

rank_from_ge : (at : ℕ) (l : List String) (n : String) (k : ℕ) → rank_from at l n ≡ some k → at ≤ k
rank_from_ge at [] n k h = cc
rank_from_ge at (m ∷ l) n k h = ground (arith, rank_from_ge (suc at) l n k)

-- A dependency stands before the app that needs it.
Needs-before :
    (names : Names) (seen : List String) (at : ℕ) (l : List App) (n d : String) (k : ℕ)
    → IsOrdered names seen l
    → All (λ a. lookup a.name names ≡ some a) l
    → Needs names n d
    → is_some (lookup d names) ≡ true
    → rank_from at (app_names l) n ≡ some k
    → (contains seen d ≡ true) ⊎ ((j : ℕ) × ((rank_from at (app_names l) d ≡ some j) × (j < k)))
Needs-before names seen at [] n d k ordered listed need known h = cc
Needs-before names seen at (a ∷ l) n d k ordered listed need known h =
    elim (Bool-cases (a.name == n)) [
      | inl same ↦
          let named : a.name ≡ n = ==_sound a.name n same in
          let entry : need.app ≡ a = ground (arith, need.entry, listed.0, named) in
          let placed =
            All-of_contains (IsPlaced names seen) a.depends_on ordered.0 d
              (subst (λ (b : App). contains b.depends_on d ≡ true) entry need.listed) in
          inl (placed known)
      | inr other ↦
          let later : rank_from (suc at) (app_names l) n ≡ some k =
            ap (λ b. if b then some at else rank_from (suc at) (app_names l) n) (sym other) ∙ h in
          found
            (Needs-before names (a.name ∷ seen) (suc at) l n d k ordered.1 listed.1 need known
              later)
            (rank_from_ge (suc at) (app_names l) n k later)
    ]
  where
    rest : Option ℕ
    rest = rank_from (suc at) (app_names l) d

    here :
        (b : Bool)
        → suc at ≤ k
        → (o : Option ℕ) → (b || contains seen d) ≡ true ⊎ ((j : ℕ) × ((o ≡ some j) × (j < k)))
        → (contains seen d ≡ true) ⊎ ((j : ℕ) × (((if b then some at else o) ≡ some j) × (j < k)))
    here true le o x = inr (at, (refl, omega arith))
    here false le o x = x

    found :
        (contains (a.name ∷ seen) d ≡ true) ⊎ ((j : ℕ) × ((rest ≡ some j) × (j < k)))
        → suc at ≤ k
        → (contains seen d ≡ true)
          ⊎ ((j : ℕ) × ((rank_from at (app_names (a ∷ l)) d ≡ some j) × (j < k)))
    found x le = here (a.name == d) le rest x

rank_from-contains :
    (at : ℕ) (l : List String) (n : String)
    → contains l n ≡ true
    → (k : ℕ) × (rank_from at l n ≡ some k)
rank_from-contains at [] n h = cc
rank_from-contains at (m ∷ l) n h = by_name (m == n) (rank_from-contains (suc at) l n) h
  where
    by_name :
        (b : Bool)
        → (contains l n ≡ true → (k : ℕ) × (rank_from (suc at) l n ≡ some k))
        → (b || contains l n) ≡ true
        → (k : ℕ) × ((if b then some at else rank_from (suc at) l n) ≡ some k)
    by_name true ih e = (at, refl)
    by_name false ih e = ih e

-- An app has a larger rank than each app of the manifest that it needs, through a chain or at once.
pub Chain-rank :
    (m : Manifest) (l : List App) (n d : String)
    → IsStartOrder m l
    → Chain (by_name m) n d
    → is_some (lookup d (by_name m)) ≡ true
    → (j k : ℕ) × ((rank_from 0 (app_names l) d ≡ some j)
        × ((rank_from 0 (app_names l) n ≡ some k) × (j < k)))
Chain-rank m l n d order (one need) known =
    let (_, there) = by_name-Listed m n need.app need.entry in
    let placed =
      All-of_contains (λ n. contains (app_names l) n ≡ true) (app_names m.apps) order.complete n
        there in
    let (k, at_k) = rank_from-contains 0 (app_names l) n placed in
    elim (Needs-before (by_name m) [] 0 l n d k order.sound order.listed need known at_k) [
      | inl seen ↦ cc
      | inr (j, (at_j, lt)) ↦ (j, k, (at_j, (at_k, lt)))
    ]
Chain-rank m l n d order (more {d = c} chain need) known =
    let (j, k, (at_c, (at_k, lt))) = Chain-rank m l n c order chain (ap is_some need.entry) in
    elim (Needs-before (by_name m) [] 0 l c d j order.sound order.listed need known at_c) [
      | inl seen ↦ cc
      | inr (i, (at_d, less)) ↦ (i, k, (at_d, (at_k, omega arith)))
    ]
