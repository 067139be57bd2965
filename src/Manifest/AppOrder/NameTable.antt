-- ===== src/Manifest/AppOrder/NameTable.antt =====
-- The table of apps by name that `apps_ordered` and `select_apps` build.
use artzain.Prelude.{
  ◌≡◌, ◌⊎◌, inl, inr, refl, Bool, true, false, String, some, List, [], ◌∷◌, lookup, insert,
  lookup-insert, string_eq, arith, contains, is_some, ◌==◌,
}
use artzain.Manifest.{Manifest, App, string_key}
use artzain.Manifest.AppOrder.{Names, by_name_from, by_name, app_names}

-- Every entry of the table is one of the apps, under its own name.
abbrev pub Listed : List App → Names → Type 0
Listed apps names =
    (n : String) (a : App)
    → lookup n names ≡ some a
    → (a.name ≡ n) × (contains (app_names apps) n ≡ true)

by_name_from-origin :
    (names : Names) (l : List App) (n : String) (a : App)
    → lookup n (by_name_from names l) ≡ some a
    → ((a.name ≡ n) × (contains (app_names l) n ≡ true)) ⊎ (lookup n names ≡ some a)
unfolding by_name_from
by_name_from-origin names [] n a h = inr h
by_name_from-origin names (b ∷ l) n a h =
    elim (by_name_from-origin (insert b.name b names) l n a h) [
      | inl (named, found) ↦ inl (named, ground arith)
      | inr e ↦ placed (b.name == n) refl e
    ]
  where
    placed :
        (t : Bool)
        → (b.name == n) ≡ t
        → lookup n (insert b.name b names) ≡ some a
        → ((a.name ≡ n) × (contains (app_names (b ∷ l)) n ≡ true)) ⊎ (lookup n names ≡ some a)
    placed true t e =
        let look = lookup-insert b.name n b names in
        let same : b ≡ a = ground arith in
        inl (ground (arith, string_eq.equal_iff b.name n), ground arith)
    placed false t e = let look = lookup-insert b.name n b names in inr (ground arith)

pub by_name-Listed : (m : Manifest) → Listed m.apps (by_name m)
by_name-Listed m n a h = elim (by_name_from-origin [] m.apps n a h) [ inl p ↦ p | inr e ↦ cc ]

by_name_from-has :
    (names : Names) (l : List App) (n : String)
    → is_some (lookup n names) ≡ true
    → is_some (lookup n (by_name_from names l)) ≡ true
unfolding by_name_from
by_name_from-has names [] n h = h
by_name_from-has names (b ∷ l) n h =
    by_name_from-has (insert b.name b names) l n (ground (arith, lookup-insert b.name n b names))

-- Every app is in the table.
pub by_name_from-contains :
    (names : Names) (l : List App) (n : String)
    → contains (app_names l) n ≡ true
    → is_some (lookup n (by_name_from names l)) ≡ true
unfolding by_name_from
by_name_from-contains names [] n h = cc
by_name_from-contains names (b ∷ l) n h =
    placed (b.name == n) refl (by_name_from-contains (insert b.name b names) l n)
  where
    placed :
        (t : Bool)
        → (b.name == n) ≡ t
        → (contains (app_names l) n ≡ true
            → is_some (lookup n (by_name_from (insert b.name b names) l)) ≡ true)
        → is_some (lookup n (by_name_from (insert b.name b names) l)) ≡ true
    placed true t ih =
        by_name_from-has (insert b.name b names) l n
          (ground (arith, lookup-insert b.name n b names))
    placed false t ih = ih (ground arith)
