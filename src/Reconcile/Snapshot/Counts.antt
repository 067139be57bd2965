-- ===== src/Reconcile/Snapshot/Counts.antt =====
-- crates/artzain-core/src/reconcile.rs: the numbers in a snapshot.
use artzain.Prelude.{
  ℕ, ◌≡◌, refl, Bool, true, false, not, String, List, [], ◌∷◌, count, retain, contains, length, All,
  All-zip, Distinct, if◌then◌else◌, ◌==◌, string_eq, arith, ◌∙◌,
}
use artzain.Manifest.{App}
use artzain.Manifest.AppOrder.{app_names}
use artzain.State.{phase_eq, InstanceStatus, AppStatus}
use artzain.Reconcile.Instance.{Instance}
use artzain.Reconcile.Reconciler.{Reconciler}
use artzain.Reconcile.Roll.{of_app, ready_of}
use artzain.Reconcile.Snapshot.{
  status_of, entry, insert_asc, sort_asc, is_ready_status, app_status, app_statuses, snapshot,
}

module _ (p : InstanceStatus → Bool) where
  count-insert_asc :
      (x : InstanceStatus) (l : List InstanceStatus) → count p (insert_asc x l) ≡ count p (x ∷ l)
  unfolding insert_asc
  count-insert_asc x [] = refl
  count-insert_asc x (y ∷ l) = ground (arith, count-insert_asc x l)

  count-sort_asc : (l : List InstanceStatus) → count p (sort_asc l) ≡ count p l
  unfolding sort_asc
  count-sort_asc [] = refl
  count-sort_asc (x ∷ l) = ground (arith, count-insert_asc x (sort_asc l), count-sort_asc l)

abbrev any_status : InstanceStatus → Bool
any_status x = true

count-entry_ready :
    (now : ℕ) (n : String) (l : List Instance)
    → count is_ready_status (entry now n l) ≡ ready_of n l
unfolding status_of
count-entry_ready now n [] = refl
count-entry_ready now n (i ∷ l) = ground (arith, count-entry_ready now n l)

count-entry_all :
    (now : ℕ) (n : String) (l : List Instance)
    → count any_status (entry now n l) ≡ count (of_app n) l
count-entry_all now n [] = refl
count-entry_all now n (i ∷ l) = ground (arith, count-entry_all now n l)

count_any-length : (l : List InstanceStatus) → count any_status l ≡ length l
count_any-length [] = refl
count_any-length (x ∷ l) = omega (arith, count_any-length l)

-- The entry of an app, against the instances of the loop.
abbrev pub IsCounted : List Instance → AppStatus → Type 0
IsCounted l s = (s.ready ≡ ready_of s.name l) × (length s.instances ≡ count (of_app s.name) l)

app_status-IsCounted : (now : ℕ) (a : App) (l : List Instance) → IsCounted l (app_status now a l)
unfolding app_status
app_status-IsCounted now a l = (
  count-sort_asc is_ready_status (entry now a.name l) ∙ count-entry_ready now a.name l,
  ground (
    arith,
    count_any-length (sort_asc (entry now a.name l)),
    count-sort_asc any_status (entry now a.name l),
    count-entry_all now a.name l,
  ),
)

-- Taking one app's instances out does not change another's numbers.
retain-counts :
    (n m : String) (l : List Instance)
    → (n == m) ≡ false
    → (ready_of m (retain (λ i. not (of_app n i)) l) ≡ ready_of m l)
      × (count (of_app m) (retain (λ i. not (of_app n i)) l) ≡ count (of_app m) l)
retain-counts n m [] h = (refl, refl)
retain-counts n m (i ∷ l) h =
    let rest = retain-counts n m l h in
    ground (
      arith,
      rest,
      string_eq.equal_iff i.app n,
      string_eq.equal_iff i.app m,
      string_eq.equal_iff n m,
    )

-- Two lists with the same numbers for an app of a name.
abbrev Agree : List Instance → List Instance → String → Type 0
Agree l m n = (ready_of n l ≡ ready_of n m) × (count (of_app n) l ≡ count (of_app n) m)

app_status-Agree :
    (now : ℕ) (a : App) (l m : List Instance) → Agree l m a.name → IsCounted m (app_status now a l)
unfolding app_status
app_status-Agree now a l m h = let c = app_status-IsCounted now a l in (c.0 ∙ h.0, c.1 ∙ h.1)

app_statuses-IsCounted :
    (now : ℕ) (selected : List String) (apps : List App) (l m : List Instance)
    → Distinct (app_names apps)
    → All (Agree l m) (app_names apps)
    → All (IsCounted m) (app_statuses now selected apps l)
unfolding app_statuses
app_statuses-IsCounted now selected [] l m d h = tt
app_statuses-IsCounted now selected (a ∷ apps) l m d h =
    by (contains selected a.name) (app_statuses-IsCounted now selected apps l m d.1 h.1) (
      app_statuses-IsCounted now selected apps less m d.1 (
        All-zip (λ n. (a.name == n) ≡ false) (Agree l m) (Agree less m) (app_names apps)
          (λ n p q. let c = retain-counts a.name n l p in (c.0 ∙ q.0, c.1 ∙ q.1)) d.0 h.1))
  where
    less : List Instance
    less = retain (λ i. not (of_app a.name i)) l

    by :
        (b : Bool)
        → All (IsCounted m) (app_statuses now selected apps l)
        → All (IsCounted m) (app_statuses now selected apps less)
        → All (IsCounted m) (
            if b
            then app_status now a l ∷ app_statuses now selected apps less
            else app_statuses now selected apps l)
    by true same rest = (app_status-Agree now a l m h.0, rest)
    by false same rest = same

Agree-refl : (l : List Instance) (names : List String) → All (Agree l l) names
Agree-refl l [] = tt
Agree-refl l (n ∷ names) = ((refl, refl), Agree-refl l names)

-- When the apps have different names, each entry of a snapshot lists as many instances as the loop
-- has of its app, and counts those of them as ready that are.
pub snapshot-IsCounted :
    (now updated_at pid : ℕ) (r : Reconciler)
    → Distinct (app_names r.manifest.apps)
    → All (IsCounted r.instances) (snapshot now updated_at pid r).apps
unfolding snapshot
snapshot-IsCounted now updated_at pid r d =
    app_statuses-IsCounted now r.selected r.manifest.apps r.instances r.instances d
      (Agree-refl r.instances (app_names r.manifest.apps))
