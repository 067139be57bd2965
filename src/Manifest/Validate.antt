-- ===== src/Manifest/Validate.antt =====
-- crates/artzain-core/src/manifest.rs: `Manifest::validate`. Every check runs whatever the others
-- found, and the errors are collected in the source's order. The account database of the system
-- (`getpwnam_r` and `getgrnam_r` behind `lookup_user` and `lookup_group`) is a parameter.
pub mod Scans
pub mod Ports
pub mod Wrapping
pub mod Valid
pub mod Slots
use artzain.Prelude.{
  ℕ, zero, suc, ◌+◌, ◌-◌, ◌≡◌, refl, Bool, true, false, ◌&&◌, ◌||◌, not, String, Option, none, some,
  List, [], ◌∷◌, ◌++◌, map, ◌==◌, if◌then◌else◌, ltb, contains, insert, lookup, string_eq, nat_eq,
  is_some, unwrap_or, map_or,
}
use artzain.Words.{u16_max, as_u16, add_u16, add_u32, sub_u32}
use artzain.Manifest.{Manifest, App, Check, nat_key}

pub data Error : Type 0 where
  duplicate_app zero_replicas port_overflow : String → Error
  check_collides check_needs_target : String → Error
  port_claimed : ℕ → (owner by : String) → Error
  unknown_dependency : (app dep : String) → Error
  unknown_user unknown_group : (app account : String) → Error

pub data Result {ℓ} (A : Type ℓ) : Type ℓ where
  ok : A → Result A
  invalid : List Error → Result A

-- The system's user and group database.
pub record Accounts : Type 0 where
  pub lookup_user : String → Option (ℕ × ℕ)
  pub lookup_group : String → Option ℕ

abbrev pub when : Bool → Error → List Error
when b e = if b then e ∷ [] else []

-- `names.insert`: the set behind, and whether the name was new.
abbrev pub note : String → List String → List String
note n names = if contains names n then names else n ∷ names

abbrev pub app_errors : List String → App → List Error
app_errors names a =
    when (contains names a.name) (duplicate_app a.name)
    ++ (when (a.replicas == 0) (zero_replicas a.name)
        ++ when (ltb 1 a.replicas && ltb u16_max (sub_u32 (add_u32 a.port a.replicas) 1))
            (port_overflow a.name))

-- The first loop: the names seen, and the errors.
unfoldable pub scan_apps : List String → List App → List String × List Error
scan_apps names [] = (names, [])
scan_apps names (a ∷ rest_apps) =
    let (seen, errors) = scan_apps (note a.name names) rest_apps in
    (seen, app_errors names a ++ errors)

abbrev pub check_errors : List String → Check → List Error
check_errors names c =
    when (contains names c.name) (check_collides c.name)
    ++ when (not (is_some c.tcp) && not (is_some c.http)) (check_needs_target c.name)

unfoldable pub scan_checks : List String → List Check → List String × List Error
scan_checks names [] = (names, [])
scan_checks names (c ∷ cs) =
    let (seen, errors) = scan_checks (note c.name names) cs in
    (seen, check_errors names c ++ errors)

-- The ports that are claimed, each with the app that claimed it last.
abbrev pub Claimed : Type 0
Claimed = List (ℕ × String)

abbrev pub clash : ℕ → String → Option String → List Error
clash p by none = []
clash p by (some owner) = port_claimed p owner by ∷ []

-- `for i in 0..a.replicas`, from `i` with `left` rounds to go.
unfoldable pub claim_replicas : App → (i left : ℕ) → Claimed → Claimed × List Error
claim_replicas a i zero claimed = (claimed, [])
claim_replicas a i (suc left) claimed =
    let p = add_u16 a.port (as_u16 i) in
    let (after, errors) = claim_replicas a (suc i) left (insert p a.name claimed) in
    (after, clash p a.name (lookup p claimed) ++ errors)

unfoldable pub claim_apps : Claimed → List App → Claimed × List Error
unfolding claim_replicas
claim_apps claimed [] = (claimed, [])
claim_apps claimed (a ∷ rest_apps) =
    let (after, errors) = claim_replicas a 0 a.replicas claimed in
    let (final, rest) = claim_apps after rest_apps in (final, errors ++ rest)

unfoldable pub dependency_errors : List String → String → List String → List Error
dependency_errors names by [] = []
dependency_errors names by (dep ∷ deps) =
    when (not (contains names dep)) (unknown_dependency by dep) ++ dependency_errors names by deps

unfoldable pub scan_dependencies : List String → List App → List Error
unfolding dependency_errors
scan_dependencies names [] = []
scan_dependencies names (a ∷ rest_apps) =
    dependency_errors names a.name a.depends_on ++ scan_dependencies names rest_apps

module _ (db : Accounts) where
  -- The user's ids: `(uid, primary_gid)`.
  abbrev pub user_ids : Option String → Option (ℕ × ℕ)
  user_ids none = none
  user_ids (some u) = db.lookup_user u

  abbrev pub group_id : Option String → Option ℕ
  group_id none = none
  group_id (some g) = db.lookup_group g

  abbrev pub or_else : Option ℕ → Option ℕ → Option ℕ
  or_else none d = d
  or_else (some x) d = some x

  abbrev pub resolve_account : App → App
  resolve_account a = record a {
    uid = map_or (user_ids a.user) none (λ ids. some ids.0);
    gid = or_else (group_id a.group) (map_or (user_ids a.user) none (λ ids. some ids.1));
  }

  abbrev pub account_errors : App → List Error
  account_errors a =
      map_or a.user [] (λ u. when (not (is_some (db.lookup_user u))) (unknown_user a.name u))
      ++ map_or a.group [] (λ g. when (not (is_some (db.lookup_group g))) (unknown_group a.name g))

  unfoldable pub scan_accounts : List App → List App × List Error
  scan_accounts [] = ([], [])
  scan_accounts (a ∷ rest_apps) =
      let (resolved, errors) = scan_accounts rest_apps in
      (resolve_account a ∷ resolved, account_errors a ++ errors)

  -- All errors of a manifest, in the order in which they are pushed.
  unfoldable pub errors_of : Manifest → List Error
  unfolding scan_apps scan_checks claim_apps scan_dependencies scan_accounts
  errors_of m =
      let (app_names, e1) = scan_apps [] m.apps in
      let (names, e2) = scan_checks app_names m.checks in
      let e3 = (claim_apps [] m.apps).1 in
      let e4 = scan_dependencies names m.apps in
      e1 ++ (e2 ++ (e3 ++ (e4 ++ (scan_accounts m.apps).1)))

  unfoldable pub validate : Manifest → Result Manifest
  unfolding errors_of scan_accounts
  validate m = elim (errors_of m) [
    | [] ↦ ok (record m { apps = (scan_accounts m.apps).0 })
    | e ∷ es ↦ invalid (e ∷ es)
  ]
