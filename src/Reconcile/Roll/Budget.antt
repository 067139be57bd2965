-- ===== src/Reconcile/Roll/Budget.antt =====
-- crates/artzain-core/src/reconcile.rs: how many ready instances `roll_stale` takes away when no
-- surge is configured.
use artzain.Prelude.{
  ℕ, ◌+◌, ◌-◌, ◌≤◌, ◌≡◌, ◌⊎◌, inl, inr, refl, Bool, true, false, ◌&&◌, String, Option, none, some,
  List, [], ◌∷◌, if◌then◌else◌, map_or, ltb, leb, ◌==◌, arith, string_eq, contains, Bool-cases,
  All-false-contains, ◌∙◌, Distinct, subst, sym,
}
use artzain.Manifest.{Manifest, app}
use artzain.State.{phase_eq}
use artzain.Process.{Effect}
use artzain.Reconcile.Instance.{Instance, begin_stop}
use artzain.Reconcile.Reconciler.{Reconciler, World, Desired}
use artzain.Reconcile.Roll.{
  stop_first, of_app, is_ready, ready_of, non_ready_stale, ready_stale, roll_app, roll_apps,
  roll_stale, roll_surge, desired_count, max_unavailable, with_instances,
}

-- Stopping the first instance that `p` holds of takes it out of the ready ones, if it was one.
stop_first-ready_of :
    (p : Instance → Bool) (now : ℕ) (n : String) (b : Bool) (l : List Instance)
    (x : List Instance × List Effect)
    → ((i : Instance) → p i ≡ true → (of_app n i && is_ready i) ≡ b)
    → stop_first p now l ≡ some x
    → ready_of n x.0 + (if b then 1 else 0) ≡ ready_of n l
unfolding stop_first begin_stop
stop_first-ready_of p now n b [] x h e = cc
stop_first-ready_of p now n b (i ∷ l) x h e =
    at (p i) refl (stop_first p now l) refl (λ y k. stop_first-ready_of p now n b l y h k) e
  where
    at :
        (t : Bool)
        → p i ≡ t
        → (o : Option (List Instance × List Effect)) → stop_first p now l ≡ o
        → ((y : List Instance × List Effect)
            → stop_first p now l ≡ some y
            → ready_of n y.0 + (if b then 1 else 0) ≡ ready_of n l)
        → (if t
            then some ((begin_stop now false i).0 ∷ l, (begin_stop now false i).1)
            else map_or o none (λ y. some (i ∷ y.0, y.1)))
          ≡ some x
        → ready_of n x.0 + (if b then 1 else 0) ≡ ready_of n (i ∷ l)
    at true q o r ih k = ground (arith, h i q)
    at false q none r ih k = cc
    at false q (some y) r ih k = ground (arith, ih y r)

-- The stops of one app, for the app itself and for another.
non_ready_stale-ready_of :
    (desired : Desired) (n m : String) (i : Instance)
    → non_ready_stale desired n i ≡ true
    → (of_app m i && is_ready i) ≡ false
non_ready_stale-ready_of desired n m i h = ground arith

ready_stale-ready_of :
    (desired : Desired) (n m : String) (i : Instance)
    → ready_stale desired n i ≡ true
    → (of_app m i && is_ready i) ≡ (n == m)
ready_stale-ready_of desired n m i h =
    ground
      (arith, string_eq.equal_iff i.app n, string_eq.equal_iff i.app m, string_eq.equal_iff n m)

-- What a round may do to the ready instances of an app.
abbrev pub WithinBudget : (wanted before after : ℕ) → Type 0
WithinBudget wanted before after = (after ≡ before) ⊎ ((after + 1 ≡ before) × (wanted ≤ before))

abbrev SurgeOff : Reconciler → Type 0
SurgeOff r = r.manifest.defaults.max_surge ≡ 0

-- One round changes only the ready instances of its own app.
abbrev Round : String → String → Reconciler → Reconciler → Type 0
Round n m r s =
    (s.manifest ≡ r.manifest)
    × (((n == m) ≡ false → ready_of m s.instances ≡ ready_of m r.instances)
        × WithinBudget (desired_count r m) (ready_of m r.instances) (ready_of m s.instances))

stop_none :
    (w : World) (desired : Desired) (n m : String) (r : Reconciler)
    (o : Option (List Instance × List Effect))
    → stop_first (non_ready_stale desired n) w.roll_at r.instances ≡ o
    → Round n m r (with_instances r o).0
stop_none w desired n m r none e = (refl, (λ h. refl, inl refl))
stop_none w desired n m r (some x) e =
    let same =
      stop_first-ready_of (non_ready_stale desired n) w.roll_at m false r.instances x
        (non_ready_stale-ready_of desired n m) e in
    (refl, (λ h. ground arith, inl (ground arith)))

stop_ready :
    (w : World) (desired : Desired) (n m : String) (r : Reconciler)
    (o : Option (List Instance × List Effect))
    → leb max_unavailable (desired_count r n - ready_of n r.instances) ≡ false
    → stop_first (ready_stale desired n) w.roll_at r.instances ≡ o
    → Round n m r (with_instances r o).0
stop_ready w desired n m r none low e = (refl, (λ h. refl, inl refl))
stop_ready w desired n m r (some x) low e =
    let fall =
      stop_first-ready_of (ready_stale desired n) w.roll_at m (n == m) r.instances x
        (ready_stale-ready_of desired n m) e in
    (
      refl,
      (
        λ h. ground arith,
        elim (Bool-cases (n == m)) [
          | inl same ↦ inr (
            ground arith,
            subst (λ k. desired_count r k ≤ ready_of k r.instances)
                ((string_eq.equal_iff n m).0 same) (ground arith),
          )
          | inr other ↦ inl (ground arith)
        ],
      ),
    )

roll_app-Round :
    (w : World) (desired : Desired) (n m : String) (r : Reconciler)
    → SurgeOff r
    → Round n m r (roll_app w desired n r).0
unfolding roll_app
roll_app-Round w desired n m r off =
    at (stop_first (non_ready_stale desired n) w.roll_at r.instances) refl
      (ltb 0 r.manifest.defaults.max_surge) (ground arith)
      (leb max_unavailable (desired_count r n - ready_of n r.instances)) refl
  where
    at :
        (o : Option (List Instance × List Effect))
        → stop_first (non_ready_stale desired n) w.roll_at r.instances ≡ o
        → (s : Bool) → s ≡ false
        → (u : Bool) → leb max_unavailable (desired_count r n - ready_of n r.instances) ≡ u
        → Round n m r
            (elim o as (λ _. Reconciler × List Effect) [
              | some x ↦ with_instances r (some x)
              | none ↦
                  if s
                  then (roll_surge desired n r, [])
                  else (if u
                      then (r, [])
                      else with_instances r
                          (stop_first (ready_stale desired n) w.roll_at r.instances))
            ]).0
    at (some x) e s off u low = stop_none w desired n m r (some x) e
    at none e true off u low = cc
    at none e false off true low = (refl, (λ h. refl, inl refl))
    at none e false off false low =
        stop_ready w desired n m r (stop_first (ready_stale desired n) w.roll_at r.instances) low
          refl

-- A round keeps the budget of every app, and leaves an app alone that it does not name.
abbrev Rounds : List String → String → Reconciler → Reconciler → Type 0
Rounds names m r s =
    (s.manifest ≡ r.manifest)
    × ((contains names m ≡ false → ready_of m s.instances ≡ ready_of m r.instances)
        × WithinBudget (desired_count r m) (ready_of m r.instances) (ready_of m s.instances))

abbrev desired_of_manifest : Manifest → String → ℕ
desired_of_manifest k name = map_or (app k name) 0 (λ a. a.replicas)

roll_apps-Rounds :
    (w : World) (desired : Desired) (names : List String) (m : String) (r : Reconciler)
    → SurgeOff r
    → Distinct names
    → Rounds names m r (roll_apps w desired names r).0
unfolding roll_apps
roll_apps-Rounds w desired [] m r off d = (refl, (λ h. refl, inl refl))
roll_apps-Rounds w desired (n ∷ names) m r off d =
    let one = (roll_app w desired n r).0 in
    let (kept, (other, within)) = roll_app-Round w desired n m r off in
    let (kepts, (others, withins)) = roll_apps-Rounds w desired names m one (ground arith) d.1 in
    let new = All-false-contains n names d.0 in
    (
      kepts ∙ kept,
      (
        λ h. ground arith,
        elim (Bool-cases (n == m)) [
          | inl same ↦
              let absent =
                subst (λ k. contains names k ≡ false) ((string_eq.equal_iff n m).0 same) new in
              subst (WithinBudget (desired_count r m) (ready_of m r.instances))
                (sym (others absent)) within
          | inr apart ↦
              subst
                (λ k.
                  WithinBudget (desired_of_manifest k m) (ready_of m r.instances)
                    (ready_of m (roll_apps w desired names one).0.instances))
                kept
                (subst
                  (λ k.
                    WithinBudget (desired_count one m) k
                      (ready_of m (roll_apps w desired names one).0.instances))
                  (other apart) withins)
        ],
      ),
    )

-- Without surge, a rolling update over distinct selected names leaves the number of ready instances
-- of each app as it is, or lowers it by one, and the latter only where at least as many were ready
-- as the manifest wants: never more than one replica of an app is unavailable because of the update.
pub roll_stale-WithinBudget :
    (w : World) (desired : Desired) (m : String) (r : Reconciler)
    → r.manifest.defaults.max_surge ≡ 0
    → Distinct r.selected
    → WithinBudget
        (desired_count r m)
        (ready_of m r.instances)
        (ready_of m (roll_stale w desired r).0.instances)
unfolding roll_stale
roll_stale-WithinBudget w desired m r off d = (roll_apps-Rounds w desired r.selected m r off d).1.1
