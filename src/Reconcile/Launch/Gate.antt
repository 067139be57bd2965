-- ===== src/Reconcile/Launch/Gate.antt =====
-- crates/artzain-core/src/reconcile.rs: when `spawn_missing` starts a program.
use artzain.Prelude.{
  ℕ, zero, suc, ◌≡◌, ◌≢◌, ◌≤◌, ◌⊎◌, inl, inr, refl, Bool, true, false, String, Option, none, some,
  List, [], ◌∷◌, all, map_or, arith, get_elem?, ◌==◌, ◌&&◌, leb, lookup, unwrap_or, if◌then◌else◌,
  string_eq, find-holds, find-none-any, In, any-In, none-In, all-In, find-In,
}
use artzain.Manifest.{Manifest, App, app, is_app, string_key}
use artzain.State.{Phase, phase_eq}
use artzain.Reconcile.Instance.{Instance, is_running}
use artzain.Reconcile.Spec.{Hasher}
use artzain.Reconcile.Reconciler.{Reconciler, World, Desired}
use artzain.Reconcile.Launch.{
  Paths, add_missing, spawn_one, spawn_all, spawn_missing, backoff_ok, dep_ok, deps_ok,
  is_ready_app,
}

-- The instance at a place was idle before and runs now.
abbrev pub Started : List Instance → List Instance → ℕ → Instance → Type 0
Started before after k i =
    (get_elem? before k ≡ some i)
    × ((is_running i ≡ false) × (map_or (get_elem? after k) false is_running ≡ true))

-- An app of the manifest with the name.
abbrev pub IsApp : Manifest → String → Type 0
IsApp m n = (a : App) × (In a m.apps × (a.name ≡ n))

-- An instance of the list belongs to the app and is ready.
abbrev pub HasReady : List Instance → String → Type 0
HasReady l n = (j : Instance) × (In j l × ((j.app ≡ n) × (j.phase ≡ Phase.ready)))

-- An app has a ready instance; what is no app has not failed as a check.
abbrev pub DepMet : Reconciler → List Instance → String → Type 0
DepMet r l d =
    (IsApp r.manifest d × HasReady l d)
    ⊎ ((¬ IsApp r.manifest d) × (lookup d r.checks_ok ≢ some false))

abbrev pub BackoffPassed : ℕ → Instance → Type 0
BackoffPassed now i =
    (i.backoff_until ≡ none) ⊎ ((t : ℕ) × ((i.backoff_until ≡ some t) × (t ≤ now)))

-- What a start waits for: `l` is the list that the ready apps are read off.
abbrev pub MayStart : World → Reconciler → List Instance → Instance → Type 0
MayStart w r l i =
    (i.phase ≢ Phase.terminating)
    × (BackoffPassed w.spawn_at i
        × ((a : App) × (In a r.manifest.apps
              × ((a.name ≡ i.app) × ((d : String) → In d a.depends_on → DepMet r l d)))))

backoff_ok-Passed : (now : ℕ) (i : Instance) → backoff_ok now i ≡ true → BackoffPassed now i
backoff_ok-Passed now i h = by i.backoff_until refl h
  where
    by :
        (o : Option ℕ)
        → i.backoff_until ≡ o
        → map_or o true (λ t. leb t now) ≡ true
        → BackoffPassed now i
    by none e g = inl e
    by (some t) e g = inr (t, (e, ground arith))

is_app-IsApp : (m : Manifest) (n : String) → is_app m n ≡ true → IsApp m n
is_app-IsApp m n h = by (app m n) refl h
  where
    by :
        (o : Option App)
        → app m n ≡ o
        → elim o as (λ _. Bool) [ none ↦ false | some a ↦ true ] ≡ true
        → IsApp m n
    by none e g = cc
    by (some a) e g =
        let hit = find-holds (λ b. b.name == n) m.apps a e in
        (a, (find-In (λ b. b.name == n) m.apps a e, (string_eq.equal_iff a.name n).0 hit))

missing-IsApp : (m : Manifest) (n : String) → is_app m n ≡ false → ¬ IsApp m n
missing-IsApp m n h (a, (at, e)) = by (app m n) refl h
  where
    by :
        (o : Option App)
        → app m n ≡ o
        → elim o as (λ _. Bool) [ none ↦ false | some b ↦ true ] ≡ false
        → ⊥
    by none q g =
        let miss =
          none-In (λ b. b.name == n) m.apps a (find-none-any (λ b. b.name == n) m.apps q) at in
        let hit = (string_eq.equal_iff a.name n).1 e in cc
    by (some b) q g = cc

dep_ok-DepMet :
    (r : Reconciler) (l : List Instance) (d : String) → dep_ok r l d ≡ true → DepMet r l d
dep_ok-DepMet r l d h = by (is_app r.manifest d) refl h
  where
    by :
        (b : Bool)
        → is_app r.manifest d ≡ b
        → (if b then is_ready_app l d else unwrap_or (lookup d r.checks_ok) true) ≡ true
        → DepMet r l d
    by true e g =
        let (j, (at, q)) = any-In (λ i. (i.app == d) && (i.phase == Phase.ready)) l g in
        inl (
          is_app-IsApp r.manifest d e,
          (
            j,
            (
              at,
              (
                (string_eq.equal_iff j.app d).0 (ground arith),
                (phase_eq.equal_iff j.phase Phase.ready).0 (ground arith),
              ),
            ),
          ),
        )
    by false e g = inr (missing-IsApp r.manifest d e, λ failed. ground (arith, failed))

module _ (hasher : Hasher) (paths : Paths) (w : World) where
  deps_ok-app :
      (r : Reconciler) (l : List Instance) (i : Instance) (o : Option App)
      → app r.manifest i.app ≡ o
      → map_or o false (λ a. all (dep_ok r l) a.depends_on) ≡ true
      → (a : App) × (In a r.manifest.apps
          × ((a.name ≡ i.app) × ((d : String) → In d a.depends_on → DepMet r l d)))
  deps_ok-app r l i none e h = cc
  deps_ok-app r l i (some a) e h =
      let hit = find-holds (λ b. b.name == i.app) r.manifest.apps a e in
      (
        a,
        (
          find-In (λ b. b.name == i.app) r.manifest.apps a e,
          (
            (string_eq.equal_iff a.name i.app).0 hit,
            λ d at. dep_ok-DepMet r l d (all-In (dep_ok r l) a.depends_on d h at),
          ),
        ),
      )

  spawn_one-MayStart :
      (r : Reconciler) (l : List Instance) (at : ℕ) (i : Instance)
      → is_running i ≡ false
      → is_running (spawn_one hasher paths w r l at i) ≡ true
      → MayStart w r l i
  unfolding spawn_one
  spawn_one-MayStart r l at i idle runs =
      let live : (i.phase == Phase.terminating) ≡ false = ground arith in
      let waited : backoff_ok w.spawn_at i ≡ true = ground arith in
      let met : deps_ok r l i ≡ true = ground arith in
      (
        (λ e. let t = (phase_eq.equal_iff i.phase Phase.terminating).1 e in cc),
        (backoff_ok-Passed w.spawn_at i waited, deps_ok-app r l i (app r.manifest i.app) refl met),
      )

  spawn_all-MayStart :
      (r : Reconciler) (l : List Instance) (at : ℕ) (rest : List Instance) (k : ℕ) (i : Instance)
      → Started rest (spawn_all hasher paths w r l at rest) k i
      → MayStart w r l i
  unfolding spawn_all
  spawn_all-MayStart r l at [] k i s = cc
  spawn_all-MayStart r l at (j ∷ rest) zero i s =
      spawn_one-MayStart r l at i s.1.0 (ground (arith, s.0, s.1.1))
  spawn_all-MayStart r l at (j ∷ rest) (suc k) i s = spawn_all-MayStart r l (suc at) rest k i s

  -- `spawn_missing` starts a program only in an instance that is not being terminated, whose backoff,
  -- if it has one, ends at the clock of the loop or before, and whose app is in the manifest with every
  -- dependency met: one that names an app of the manifest has an instance that was ready when the loop
  -- began, and any other is not recorded as a check that failed.
  pub spawn_missing-MayStart :
      (desired : Desired) (r : Reconciler) (k : ℕ) (i : Instance)
      → Started
          (add_missing w.spawn_at desired r.instances)
          (spawn_missing hasher paths w desired r).instances
          k
          i
      → MayStart w r (add_missing w.spawn_at desired r.instances) i
  unfolding spawn_missing
  spawn_missing-MayStart desired r k i =
      let l = add_missing w.spawn_at desired r.instances in spawn_all-MayStart r l 0 l k i
