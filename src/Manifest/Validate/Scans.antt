-- ===== src/Manifest/Validate/Scans.antt =====
-- What each loop of `Manifest::validate` finds, one loop at a time.
use artzain.Prelude.{
  ℕ, suc, ◌+◌, ◌<◌, ◌≤◌, ◌≡◌, ◌≢◌, ◌↔◌, refl, ap, ◌∙◌, Bool, true, false, ◌&&◌, ◌||◌, not, String,
  List, [], ◌∷◌, map, ◌==◌, ltb, contains, string_eq, nat_eq, is_some, arith, All, FreshBy, inl,
  inr, mark, mark_all, append_nil_iff, Bool-cases,
}
use mathlib.Core.Path.{fun_ext}
use artzain.Words.{u16_max, add_u32, sub_u32}
use artzain.Manifest.{App, Check, nat_key, string_key}
use artzain.Manifest.Validate.{Error, when, note, app_errors, scan_apps, check_errors, scan_checks}

pub when_iff : (b : Bool) (e : Error) → (when b e ≡ []) ↔ (b ≡ false)
when_iff true e = (λ h. cc, λ h. cc)
when_iff false e = (λ h. refl, λ h. refl)

-- `contains` after `names.insert`, as a test.
pub contains-note :
    (n : String) (names : List String) → contains (note n names) ≡ mark n (contains names)
contains-note n names = fun_ext λ y. elim (Bool-cases (contains names n)) [
  | inl old ↦ rw old (ground (arith, same y old))
  | inr new ↦ rw new refl
]
  where
    use_eq : (y : String) → (n == y) ≡ true → n ≡ y
    use_eq y = (string_eq.equal_iff n y).0

    go :
        (y : String)
        → contains names n ≡ true
        → (b : Bool) → (n == y) ≡ b
        → contains names y ≡ (b || contains names y)
    go y old true h = rw (← use_eq y h) old
    go y old false h = refl

    same : (y : String) → contains names n ≡ true → contains names y ≡ mark n (contains names) y
    same y old = go y old (n == y) refl

abbrev pub HasReplicas : App → Type 0
HasReplicas a = a.replicas ≢ 0

abbrev pub FitsPorts : App → Type 0
FitsPorts a = 1 < a.replicas → a.port + a.replicas ≤ suc u16_max

-- The same in the words of the source, whose sum wraps.
abbrev pub FitsWrapped : App → Type 0
FitsWrapped a = 1 < a.replicas → sub_u32 (add_u32 a.port a.replicas) 1 ≤ u16_max

abbrev pub app_names : List App → List String
app_names = map (λ a. a.name)

abbrev pub check_names : List Check → List String
check_names = map (λ c. c.name)

pub scan_apps_names :
    (names : List String) (l : List App)
    → contains (scan_apps names l).0 ≡ mark_all (app_names l) (contains names)
unfolding scan_apps
scan_apps_names names [] = refl
scan_apps_names names (a ∷ l) =
    scan_apps_names (note a.name names) l ∙ ap (mark_all (app_names l)) (contains-note a.name names)

replicas_iff : (a : App) → ((a.replicas == 0) ≡ false) ↔ HasReplicas a
replicas_iff a = ground arith

ports_iff :
    (a : App)
    → ((ltb 1 a.replicas && ltb u16_max (sub_u32 (add_u32 a.port a.replicas) 1)) ≡ false)
      ↔ FitsWrapped a
ports_iff a = by (sub_u32 (add_u32 a.port a.replicas) 1)
  where
    by :
        (last : ℕ)
        → ((ltb 1 a.replicas && ltb u16_max last) ≡ false) ↔ (1 < a.replicas → last ≤ u16_max)
    by last = ground arith

app_errors_iff :
    (names : List String) (a : App)
    → (app_errors names a ≡ []) ↔ ((contains names a.name ≡ false) × HasReplicas a × FitsWrapped a)
app_errors_iff names a =
    let both = append_nil_iff (when (contains names a.name) (Error.duplicate_app a.name)) _ in
    let rest = append_nil_iff (when (a.replicas == 0) (Error.zero_replicas a.name)) _ in
    (
      λ h.
          let (dup, more) = both.0 h in
          let (none_left, over) = rest.0 more in
          (
            (when_iff _ _).0 dup,
            (replicas_iff a).0 ((when_iff _ _).0 none_left),
            (ports_iff a).0 ((when_iff _ _).0 over),
          ),
      λ h. both.1 (
        (when_iff _ _).1 h.0,
        rest.1 ((when_iff _ _).1 ((replicas_iff a).1 h.1), (when_iff _ _).1 ((ports_iff a).1 h.2)),
      ),
    )

-- The first loop passes when the names are new and every app fits.
pub scan_apps_iff :
    (names : List String) (l : List App)
    → ((scan_apps names l).1 ≡ [])
      ↔ (FreshBy (contains names) (app_names l) × All HasReplicas l × All FitsWrapped l)
unfolding scan_apps
scan_apps_iff names [] = (λ h. (tt, tt, tt), λ h. refl)
scan_apps_iff names (a ∷ l) =
    let both = append_nil_iff (app_errors names a) (scan_apps (note a.name names) l).1 in
    let ih = scan_apps_iff (note a.name names) l in
    let one = app_errors_iff names a in
    (
      λ h.
          let (first, rest) = both.0 h in
          let (new, pos, fits) = one.0 first in
          let (f, ps, fs) = ih.0 rest in
          ((new, rw (contains-note a.name names) at f), (pos, ps), (fits, fs)),
      λ h.
          both.1 (
            one.1 (h.0.0, h.1.0, h.2.0),
            ih.1 (rw (contains-note a.name names) h.0.1, h.1.1, h.2.1),
          ),
    )

abbrev pub HasTarget : Check → Type 0
HasTarget c = (is_some c.tcp || is_some c.http) ≡ true

target_iff : (c : Check) → ((not (is_some c.tcp) && not (is_some c.http)) ≡ false) ↔ HasTarget c
target_iff c = ground arith

pub scan_checks_names :
    (names : List String) (l : List Check)
    → contains (scan_checks names l).0 ≡ mark_all (check_names l) (contains names)
unfolding scan_checks
scan_checks_names names [] = refl
scan_checks_names names (c ∷ l) =
    scan_checks_names (note c.name names) l
    ∙ ap (mark_all (check_names l)) (contains-note c.name names)

pub scan_checks_iff :
    (names : List String) (l : List Check)
    → ((scan_checks names l).1 ≡ []) ↔ (FreshBy (contains names) (check_names l) × All HasTarget l)
unfolding scan_checks
scan_checks_iff names [] = (λ h. (tt, tt), λ h. refl)
scan_checks_iff names (c ∷ l) =
    let both = append_nil_iff (check_errors names c) (scan_checks (note c.name names) l).1 in
    let one = append_nil_iff (when (contains names c.name) (Error.check_collides c.name)) _ in
    let ih = scan_checks_iff (note c.name names) l in
    (
      λ h.
          let (first, rest) = both.0 h in
          let (new, aims) = one.0 first in
          let (f, ts) = ih.0 rest in
          (
            ((when_iff _ _).0 new, rw (contains-note c.name names) at f),
            ((target_iff c).0 ((when_iff _ _).0 aims), ts),
          ),
      λ h. both.1 (
        one.1 ((when_iff _ _).1 h.0.0, (when_iff _ _).1 ((target_iff c).1 h.1.0)),
        ih.1 (rw (contains-note c.name names) h.0.1, h.1.1),
      ),
    )
