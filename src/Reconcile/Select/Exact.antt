-- ===== src/Reconcile/Select/Exact.antt =====
-- crates/artzain-core/src/reconcile.rs: the set of names that `select_apps` selects.
use artzain.Prelude.{
  ℕ, zero, suc, ◌≡◌, ◌↔◌, inl, inr, refl, true, ◌||◌, ◌&&◌, String, Option, none, some, List, [],
  ◌∷◌, lookup, contains, string_eq, arith, ◌==◌, Bool-cases, ap,
}
use artzain.Manifest.{Manifest, App, string_key}
use artzain.Manifest.AppOrder.{Names, by_name}
use artzain.Manifest.AppOrder.Cycles.{Needs}
use artzain.Reconcile.Select.{
  Result, ok, unknown_app, out_of_fuel, ◌>>=◌, known, load_queue, push_deps, deps_of, select_loop,
  enough, select_apps,
}

contains-push_deps :
    (names : Names) (l queue : List String) (x : String)
    → contains (push_deps names l queue) x ≡ (contains queue x || (contains l x && known names x))
unfolding push_deps
contains-push_deps names [] queue x = ground arith
contains-push_deps names (d ∷ l) queue x = elim (Bool-cases (d == x)) [
  | inl hit ↦
      let same = ap (known names) ((string_eq.equal_iff d x).0 hit) in
      ground
        (arith, contains-push_deps names l queue x, contains-push_deps names l (d ∷ queue) x, same)
  | inr miss ↦
      ground (arith, contains-push_deps names l queue x, contains-push_deps names l (d ∷ queue) x)
]

-- The specification: the named apps and, from there, every app that a selected app depends on.
pub data Selected (names : Names) (only : List String) : String → Type 0 where
  chosen : {n : String} → contains only n ≡ true → Selected names only n
  pulled_in :
      {n d : String}
      → Selected names only n
      → Needs names n d
      → known names d ≡ true
      → Selected names only d

record Inv (names : Names) (only queue selected : List String) : Type 0 where
  covers : (n : String) → contains only n ≡ true → (contains selected n || contains queue n) ≡ true
  closed :
      (n d : String)
      → contains selected n ≡ true
      → Needs names n d
      → known names d ≡ true
      → (contains selected d || contains queue d) ≡ true
  reached : (n : String) → (contains selected n || contains queue n) ≡ true → Selected names only n

Inv-skip :
    (names : Names) (only queue selected : List String) (n : String)
    → contains selected n ≡ true
    → Inv names only (n ∷ queue) selected
    → Inv names only queue selected
Inv-skip names only queue selected n old v = record {
  covers = λ k h. let before = v.covers k h in still k before;
  closed = λ k d h needs app. still d (v.closed k d h needs app);
  reached = λ k h. v.reached k (ground arith);
}
  where
    still :
        (k : String)
        → (contains selected k || contains (n ∷ queue) k) ≡ true
        → (contains selected k || contains queue k) ≡ true
    still k h = elim (Bool-cases (n == k)) [
      | inl hit ↦
          let same = ap (contains selected) ((string_eq.equal_iff n k).0 hit) in ground arith
      | inr miss ↦ ground arith
    ]

Needs-deps_of :
    (names : Names) (n d : String) → Needs names n d → contains (deps_of names n) d ≡ true
Needs-deps_of names n d k = ground (arith, k.entry, k.listed)

deps_of-Needs :
    (names : Names) (n d : String) → contains (deps_of names n) d ≡ true → Needs names n d
deps_of-Needs names n d h = at (lookup n names) refl
  where
    at : (o : Option App) → lookup n names ≡ o → Needs names n d
    at none e = absurd (ground arith)
    at (some a) e = record { app = a; entry = e; listed = ground arith }

Inv-take :
    (names : Names) (only queue selected : List String) (n : String)
    → Inv names only (n ∷ queue) selected
    → Inv names only (push_deps names (deps_of names n) queue) (n ∷ selected)
Inv-take names only queue selected n v = record {
  covers = λ k h. grown k (v.covers k h);
  closed = λ k d h needs app. elim (Bool-cases (n == k)) [
    | inl hit ↦
        let same : n ≡ k = (string_eq.equal_iff n k).0 hit in
        let mine : contains (deps_of names n) d ≡ true = rw same (Needs-deps_of names k d needs) in
        ground (arith, pushed d)
    | inr miss ↦ grown d (v.closed k d (ground arith) needs app)
  ];
  reached = λ k h. elim (Bool-cases (contains selected k || contains (n ∷ queue) k)) [
    | inl before ↦ v.reached k before
    | inr after ↦
        let dep : contains (deps_of names n) k ≡ true = ground (arith, pushed k) in
        let app : known names k ≡ true = ground (arith, pushed k) in
        pulled_in (v.reached n (ground (arith, string_eq.equal_iff n n)))
          (deps_of-Needs names n k dep) app
  ];
}
  where
    pushed :
        (k : String)
        → contains (push_deps names (deps_of names n) queue) k
          ≡ (contains queue k || (contains (deps_of names n) k && known names k))
    pushed = contains-push_deps names (deps_of names n) queue

    grown :
        (k : String)
        → (contains selected k || contains (n ∷ queue) k) ≡ true
        → (contains (n ∷ selected) k || contains (push_deps names (deps_of names n) queue) k) ≡ true
    grown k h = ground (arith, pushed k)

select_loop-Inv :
    (names : Names) (only : List String) (fuel : ℕ) (queue selected result : List String)
    → Inv names only queue selected
    → select_loop names fuel queue selected ≡ ok result
    → Inv names only [] result
unfolding select_loop
select_loop-Inv names only zero queue selected result v e = cc
select_loop-Inv names only (suc fuel) [] selected result v e =
    let same : selected ≡ result = ground arith in rw (← same) v
select_loop-Inv names only (suc fuel) (n ∷ queue) selected result v e =
    elim (Bool-cases (contains selected n)) [
      | inl old ↦
          select_loop-Inv names only fuel queue selected result
            (Inv-skip names only queue selected n old v) (ground arith)
      | inr new ↦
          select_loop-Inv names only fuel (push_deps names (deps_of names n) queue) (n ∷ selected)
            result (Inv-take names only queue selected n v) (ground arith)
    ]

contains-load_queue :
    (names : Names) (l queue result : List String) (x : String)
    → load_queue names l queue ≡ ok result
    → contains result x ≡ (contains l x || contains queue x)
unfolding load_queue
contains-load_queue names [] queue result x e = ground arith
contains-load_queue names (n ∷ l) queue result x e =
    let loaded : load_queue names l (n ∷ queue) ≡ ok result = ground arith in
    ground (arith, contains-load_queue names l (n ∷ queue) result x loaded)

>>=-eq-ok {ℓ κ} :
    {A : Type ℓ} {B : Type κ} (r : Result A) (f : A → Result B) {b : B}
    → (r >>= f) ≡ ok b
    → (a : A) × (r ≡ ok a) × (f a ≡ ok b)
>>=-eq-ok (ok a) f h = (a, refl, h)
>>=-eq-ok (unknown_app n) f h = cc
>>=-eq-ok out_of_fuel f h = cc

start-Inv :
    (names : Names) (only queue : List String)
    → load_queue names only [] ≡ ok queue
    → Inv names only queue []
start-Inv names only queue e = record {
  covers = λ n h. ground (arith, contains-load_queue names only [] queue n e);
  closed = λ n d h. cc;
  reached = λ n h. chosen (ground (arith, contains-load_queue names only [] queue n e));
}

Selected-Inv :
    (names : Names) (only result : List String)
    → Inv names only [] result
    → {n : String} → Selected names only n
    → contains result n ≡ true
Selected-Inv names only result v (chosen {n} h) = ground (arith, v.covers n h)
Selected-Inv names only result v (pulled_in {n} {d} s needs app) =
    let before = Selected-Inv names only result v s in ground (arith, v.closed n d before needs app)

-- With `--only`, a successful selection holds a name exactly when it is named, or is an app that a
-- selected app depends on, at any distance.
pub select_apps-Selected :
    (m : Manifest) (only result : List String)
    → select_apps m (some only) ≡ ok result
    → (n : String) → (contains result n ≡ true) ↔ Selected (by_name m) only n
unfolding select_apps
select_apps-Selected m only result e n =
    let names = by_name m in
    let (queue, loaded, looped) = >>=-eq-ok (load_queue names only []) _ e in
    let v =
      select_loop-Inv names only (enough names queue) queue [] result
        (start-Inv names only queue loaded) looped in
    (λ h. v.reached n (ground arith), Selected-Inv names only result v)
