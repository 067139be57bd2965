-- ===== src/Manifest/Validate/Valid.antt =====
-- When `Manifest::validate` accepts: an independent description of a valid manifest.
use artzain.Prelude.{
  ◌≤◌, ◌≡◌, ◌↔◌, refl, sym, ap, Bool, true, not, String, Option, none, some, List, [], ◌∷◌, ◌++◌,
  map, ◌==◌, contains, string_eq, nat_eq, is_some, arith, All, All-zip, Distinct, FreshBy,
  FreshBy-nil_iff, FreshBy-append, append_nil_iff, any-append, map_or, mark_all_iff, subst,
}
use mathlib.Core.Path.{fun_ext}
use artzain.Words.{u16_max}
use artzain.Manifest.{Manifest, App}
use artzain.Manifest.Validate.{
  Error, Accounts, Result, ok, invalid, when, scan_apps, scan_checks, claim_apps, dependency_errors,
  scan_dependencies, scan_accounts, account_errors, resolve_account, errors_of, validate,
}
use artzain.Manifest.Validate.Scans.{
  when_iff, HasReplicas, FitsPorts, FitsWrapped, HasTarget, app_names, check_names, scan_apps_names,
  scan_apps_iff, scan_checks_names, scan_checks_iff,
}
use artzain.Manifest.Validate.Ports.{
  wrapped_all, windows, InRange, claim_apps_iff, wrapped_all-windows,
}
use artzain.Manifest.Validate.Wrapping.{Distinct-few_replicas, fits_exactly, fits_wrapped}

abbrev pub all_names : Manifest → List String
all_names m = app_names m.apps ++ check_names m.checks

abbrev pub KnownBy : (String → Bool) → App → Type 0
KnownBy s a = All (λ d. s d ≡ true) a.depends_on

abbrev pub Known : List String → App → Type 0
Known names = KnownBy (contains names)

abbrev pub HasAccounts : Accounts → App → Type 0
HasAccounts db a =
    (map_or a.user true (λ u. is_some (db.lookup_user u)) ≡ true)
    × (map_or a.group true (λ g. is_some (db.lookup_group g)) ≡ true)

-- Ports are `u16` values.
abbrev pub U16Ports : Manifest → Type 0
U16Ports m = All (λ a. a.port ≤ u16_max) m.apps

pub record IsValid (db : Accounts) (m : Manifest) : Type 0 where
  pub names_distinct : Distinct (all_names m)
  pub replicas_pos : All HasReplicas m.apps
  pub ports_fit : All FitsPorts m.apps
  pub checks_aimed : All HasTarget m.checks
  pub ports_distinct : Distinct (windows m.apps)
  pub deps_known : All (Known (all_names m)) m.apps
  pub accounts_known : All (HasAccounts db) m.apps

known_one :
    (names : List String) (by : String) (l : List String)
    → (dependency_errors names by l ≡ []) ↔ All (λ d. contains names d ≡ true) l
unfolding dependency_errors
known_one names by [] = (λ h. tt, λ h. refl)
known_one names by (d ∷ l) =
    let both = append_nil_iff (when (not (contains names d)) (Error.unknown_dependency by d)) _ in
    let ih = known_one names by l in
    (
      λ h.
          let (first, rest) = both.0 h in
          let hit = (when_iff _ _).0 first in (ground arith, ih.0 rest),
      λ h. both.1 ((when_iff _ _).1 (ground arith), ih.1 h.1),
    )

Known-iff :
    (names : List String) (l : List App) → (scan_dependencies names l ≡ []) ↔ All (Known names) l
unfolding scan_dependencies
Known-iff names [] = (λ h. tt, λ h. refl)
Known-iff names (a ∷ l) =
    let both = append_nil_iff (dependency_errors names a.name a.depends_on) _ in
    let one = known_one names a.name a.depends_on in
    let ih = Known-iff names l in
    (
      λ h. let (first, rest) = both.0 h in (one.0 first, ih.0 rest),
      λ h. both.1 (one.1 h.0, ih.1 h.1),
    )

-- The names that the first two loops have seen are the manifest's names.
known_names :
    (m : Manifest)
    → contains (scan_checks (scan_apps [] m.apps).0 m.checks).0 ≡ contains (all_names m)
known_names m = fun_ext λ y.
    let apps_seen = scan_apps_names [] m.apps in
    let both_seen = scan_checks_names (scan_apps [] m.apps).0 m.checks in
    let at_y = ap (λ (f : String → Bool). f y) both_seen in
    let apps_y = ap (λ (f : String → Bool). f y) apps_seen in
    let checks_in = mark_all_iff (check_names m.checks) (contains (scan_apps [] m.apps).0) y in
    let apps_in = mark_all_iff (app_names m.apps) (contains []) y in
    let joined = any-append (λ (x : String). x == y) (app_names m.apps) (check_names m.checks) in
    ground (arith, at_y, apps_y, checks_in, apps_in, joined)

user_known :
    (db : Accounts) (n : String) (o : Option String)
    → map_or o [] (λ u. when (not (is_some (db.lookup_user u))) (Error.unknown_user n u)) ≡ []
    → map_or o true (λ u. is_some (db.lookup_user u)) ≡ true
user_known db n none h = refl
user_known db n (some u) h = ground arith

group_known :
    (db : Accounts) (n : String) (o : Option String)
    → map_or o [] (λ g. when (not (is_some (db.lookup_group g))) (Error.unknown_group n g)) ≡ []
    → map_or o true (λ g. is_some (db.lookup_group g)) ≡ true
group_known db n none h = refl
group_known db n (some g) h = ground arith

account_one : (db : Accounts) (a : App) → (account_errors db a ≡ []) ↔ HasAccounts db a
account_one db a =
    let both =
      append_nil_iff
        (map_or a.user []
          (λ u. when (not (is_some (db.lookup_user u))) (Error.unknown_user a.name u)))
        _ in
    (
      λ h.
          let (p, q) = both.0 h in (user_known db a.name a.user p, group_known db a.name a.group q),
      λ h. ground arith,
    )

accounts_iff :
    (db : Accounts) (l : List App) → ((scan_accounts db l).1 ≡ []) ↔ All (HasAccounts db) l
unfolding scan_accounts
accounts_iff db [] = (λ h. tt, λ h. refl)
accounts_iff db (a ∷ l) =
    let both = append_nil_iff (account_errors db a) (scan_accounts db l).1 in
    let one = account_one db a in
    let ih = accounts_iff db l in
    (
      λ h. let (first, rest) = both.0 h in (one.0 first, ih.0 rest),
      λ h. both.1 (one.1 h.0, ih.1 h.1),
    )

accounts_resolved :
    (db : Accounts) (l : List App) → (scan_accounts db l).0 ≡ map (resolve_account db) l
unfolding scan_accounts
accounts_resolved db [] = refl
accounts_resolved db (a ∷ l) = rw (accounts_resolved db l)

-- The manifest with the ids of its accounts filled in.
abbrev pub resolved : Accounts → Manifest → Manifest
resolved db m = record m { apps = map (resolve_account db) m.apps }

in_range :
    (m : Manifest) → U16Ports m → All HasReplicas m.apps → All FitsPorts m.apps → All InRange m.apps
in_range m u r f =
    All-zip (λ a. a.port ≤ u16_max) FitsPorts InRange m.apps (λ a p q. ground arith) u f

names_iff :
    (m : Manifest)
    → (FreshBy (contains []) (app_names m.apps)
        × FreshBy (contains (scan_apps [] m.apps).0) (check_names m.checks))
      ↔ Distinct (all_names m)
names_iff m =
    let both = FreshBy-append (contains []) (app_names m.apps) (check_names m.checks) in
    let distinct = FreshBy-nil_iff (all_names m) in
    let seen = scan_apps_names [] m.apps in
    (
      λ h. distinct.0 (both.1 (h.0, rw seen at h.1)),
      λ h. let (f, g) = both.0 (distinct.1 h) in (f, rw seen g),
    )

all_fit :
    (l : List App)
    → All (λ a. a.port ≤ u16_max) l
    → All (λ a. a.replicas ≤ 65536) l
    → All FitsWrapped l
    → All FitsPorts l
all_fit [] u r f = tt
all_fit (a ∷ l) u r f = (fits_exactly a u.0 r.0 f.0, all_fit l u.1 r.1 f.1)

all_wrapped : (l : List App) → All (λ a. a.port ≤ u16_max) l → All FitsPorts l → All FitsWrapped l
all_wrapped [] u f = tt
all_wrapped (a ∷ l) u f = (fits_wrapped a u.0 f.0, all_wrapped l u.1 f.1)

pub errors_of-IsValid :
    (db : Accounts) (m : Manifest) → U16Ports m → errors_of db m ≡ [] → IsValid db m
unfolding errors_of
errors_of-IsValid db m u h =
    let (e1, h1) = (append_nil_iff (scan_apps [] m.apps).1 _).0 h in
    let (e2, h2) = (append_nil_iff (scan_checks (scan_apps [] m.apps).0 m.checks).1 _).0 h1 in
    let (e3, h3) = (append_nil_iff (claim_apps [] m.apps).1 _).0 h2 in
    let (e4, e5) =
      (append_nil_iff (scan_dependencies (scan_checks (scan_apps [] m.apps).0 m.checks).0 m.apps)
          _).0
        h3 in
    let (new_apps, pos, fits) = (scan_apps_iff [] m.apps).0 e1 in
    let (new_checks, aims) = (scan_checks_iff (scan_apps [] m.apps).0 m.checks).0 e2 in
    let claims = (claim_apps_iff [] m.apps).0 e3 in
    let apart = (FreshBy-nil_iff (wrapped_all m.apps)).0 claims in
    let fit = all_fit m.apps u (Distinct-few_replicas m.apps apart) fits in
    let exact = wrapped_all-windows m.apps (in_range m u pos fit) in
    record {
      names_distinct = (names_iff m).0 (new_apps, new_checks);
      replicas_pos = pos;
      ports_fit = fit;
      checks_aimed = aims;
      ports_distinct = rw exact at apart;
      deps_known = subst (λ s. All (KnownBy s) m.apps) (known_names m) ((Known-iff _ m.apps).0 e4);
      accounts_known = (accounts_iff db m.apps).0 e5;
    }

IsValid-errors_of : (db : Accounts) (m : Manifest) → U16Ports m → IsValid db m → errors_of db m ≡ []
unfolding errors_of
IsValid-errors_of db m u v =
    let (new_apps, new_checks) = (names_iff m).1 v.names_distinct in
    let exact = wrapped_all-windows m.apps (in_range m u v.replicas_pos v.ports_fit) in
    let e1 =
      (scan_apps_iff [] m.apps).1 (new_apps, v.replicas_pos, all_wrapped m.apps u v.ports_fit) in
    let e2 = (scan_checks_iff (scan_apps [] m.apps).0 m.checks).1 (new_checks, v.checks_aimed) in
    let fresh = (FreshBy-nil_iff (wrapped_all m.apps)).1 (rw exact v.ports_distinct) in
    let e3 = (claim_apps_iff [] m.apps).1 fresh in
    let e4 =
      (Known-iff (scan_checks (scan_apps [] m.apps).0 m.checks).0 m.apps).1
        (subst (λ s. All (KnownBy s) m.apps) (sym (known_names m)) v.deps_known) in
    let e5 = (accounts_iff db m.apps).1 v.accounts_known in rw (e1, e2, e3, e4, e5) refl

-- `validate` accepts exactly the valid manifests, when the ports are 16-bit values, and then gives
-- back the manifest with the user and group ids of its apps filled in.
pub validate-IsValid :
    (db : Accounts) (m : Manifest)
    → U16Ports m
    → (validate db m ≡ ok (resolved db m)) ↔ IsValid db m
unfolding validate
validate-IsValid db m u = (
  λ h. errors_of-IsValid db m u (ground arith),
  λ v. rw (IsValid-errors_of db m u v, validate, accounts_resolved db m.apps) refl,
)

-- An accepted manifest had no errors, and comes back resolved.
pub validate-accepted :
    (db : Accounts) (m v : Manifest)
    → validate db m ≡ ok v
    → (errors_of db m ≡ []) × (v ≡ resolved db m)
unfolding validate
validate-accepted db m v h = by (errors_of db m) refl h
  where
    by :
        (l : List Error)
        → errors_of db m ≡ l
        → elim l as (λ _. Result Manifest) [
          | [] ↦ ok (record m { apps = (scan_accounts db m.apps).0 })
          | e ∷ es ↦ invalid (e ∷ es)
        ]
          ≡ ok v
        → (errors_of db m ≡ []) × (v ≡ resolved db m)
    by [] e k = let same = accounts_resolved db m.apps in (e, rw (← same) cc)
    by (x ∷ es) e k = cc
