-- ===== src/Manifest/AppOrder/Placed.antt =====
-- What `apps_ordered` returns: every app once, each behind the apps that it depends on.
use artzain.Prelude.{
  ℕ, zero, suc, ◌≡◌, inl, inr, refl, ap, ◌∙◌, true, false, ◌||◌, String, none, some, List, [], ◌∷◌,
  ◌++◌, lookup, lookup-insert, string_eq, arith, contains, is_some, ◌==◌, All, All-map, All-append,
  All-zip, All-contains, Distinct, Distinct-snoc, length, Bool-cases,
}
use artzain.Manifest.{Manifest, App, string_key}
use artzain.Manifest.AppOrder.{
  visiting, done, Walk, Result, ok, Names, set_mark, finish, visit_all, visit, by_name, app_names,
  start, apps_ordered,
}
use artzain.Manifest.AppOrder.NameTable.{Listed, by_name-Listed, by_name_from-contains}
use artzain.Manifest.AppOrder.Marks.{
  Visit, was_done, was_visiting, no_app, expands, visit-Visit, Keeps, visit-Keeps, visit_all-Keeps,
  >>=-eq-ok,
}

-- A dependency that is an app stands in `seen`.
abbrev pub IsPlaced : Names → List String → String → Type 0
IsPlaced names seen d = is_some (lookup d names) ≡ true → contains seen d ≡ true

-- Each app's app dependencies stand before it.
abbrev pub IsOrdered : Names → List String → List App → Type 0
IsOrdered names seen [] = Unit
IsOrdered names seen (a ∷ l) =
    All (IsPlaced names seen) a.depends_on × IsOrdered names (a.name ∷ seen) l

IsOrdered-snoc :
    (names : Names) (seen : List String) (xs : List App) (a : App)
    → IsOrdered names seen xs
    → All
        (λ d.
          is_some (lookup d names) ≡ true → (contains (app_names xs) d || contains seen d) ≡ true)
        a.depends_on
    → IsOrdered names seen (xs ++ a ∷ [])
IsOrdered-snoc names seen [] a h k = (k, tt)
IsOrdered-snoc names seen (x ∷ xs) a h k = (
  h.0,
  IsOrdered-snoc names (x.name ∷ seen) xs a h.1 (
      All-map
        (λ d.
          is_some (lookup d names) ≡ true
          → (contains (app_names (x ∷ xs)) d || contains seen d) ≡ true)
        (λ d.
          is_some (lookup d names) ≡ true
          → (contains (app_names xs) d || contains (x.name ∷ seen) d) ≡ true)
        a.depends_on (λ d f g. let both = f g in ground arith) k),
)

app_names-snoc : (xs : List App) (a : App) → app_names (xs ++ a ∷ []) ≡ app_names xs ++ a.name ∷ []
app_names-snoc [] a = refl
app_names-snoc (x ∷ xs) a = ap (◌∷◌ x.name) (app_names-snoc xs a)

contains-snoc :
    (xs : List App) (a : App) (k : String)
    → contains (app_names (xs ++ a ∷ [])) k ≡ (contains (app_names xs) k || (a.name == k))
contains-snoc [] a k = ground arith
contains-snoc (x ∷ xs) a k = ground (arith, contains-snoc xs a k)

pub record Inv (names : Names) (w : Walk) : Type 0 where
  pub sound : IsOrdered names [] w.ordered
  pub done_placed :
      (k : String) → lookup k w.marks ≡ some done → contains (app_names w.ordered) k ≡ true
  pub placed_done :
      (k : String) → contains (app_names w.ordered) k ≡ true → lookup k w.marks ≡ some done
  pub distinct : Distinct (app_names w.ordered)
  pub listed : All (λ a. lookup a.name names ≡ some a) w.ordered

abbrev IsDone : Names → Walk → String → Type 0
IsDone names w d = is_some (lookup d names) ≡ true → lookup d w.marks ≡ some done

Inv-set_mark :
    (names : Names) (n : String) (w : Walk)
    → lookup n w.marks ≡ none
    → Inv names w
    → Inv names (set_mark n visiting w)
Inv-set_mark names n w new v = record {
  sound = v.sound;
  done_placed = λ k h. ground (arith, lookup-insert n k visiting w.marks, v.done_placed k);
  placed_done = λ k h.
      ground (arith, lookup-insert n k visiting w.marks, v.placed_done k, string_eq.equal_iff n k);
  distinct = v.distinct;
  listed = v.listed;
}

module _ (names : Names) (n : String) (a : App) (w : Walk) (named : a.name ≡ n)
    (entry : lookup n names ≡ some a) (v : Inv names w) (busy : lookup n w.marks ≡ some visiting)
    (deps : All (IsDone names w) a.depends_on) where
  not_placed : contains (app_names w.ordered) n ≡ false
  not_placed = elim (Bool-cases (contains (app_names w.ordered) n)) [
    | inl there ↦ let settled = v.placed_done n there in ground arith
    | inr absent ↦ absent
  ]

  finish_sound : IsOrdered names [] (w.ordered ++ a ∷ [])
  finish_sound = IsOrdered-snoc names [] w.ordered a v.sound (
      All-map (IsDone names w)
        (λ d.
          is_some (lookup d names) ≡ true
          → (contains (app_names w.ordered) d || contains [] d) ≡ true)
        a.depends_on (λ d f g. let here = v.done_placed d (f g) in ground arith) deps)

  Inv-finish : Inv names (finish n a w)
  Inv-finish = record {
    sound = finish_sound;
    done_placed = λ k h. ground (
      arith,
      lookup-insert n k done w.marks,
      contains-snoc w.ordered a k,
      v.done_placed k,
      string_eq.equal_iff n k,
      string_eq.equal_iff a.name k,
    );
    placed_done = λ k h. ground (
      arith,
      lookup-insert n k done w.marks,
      contains-snoc w.ordered a k,
      v.placed_done k,
      string_eq.equal_iff n k,
      string_eq.equal_iff a.name k,
    );
    distinct =
        rw (app_names-snoc w.ordered a, named)
          (Distinct-snoc n (app_names w.ordered) v.distinct not_placed);
    listed =
        All-append (λ b. lookup b.name names ≡ some b) w.ordered (a ∷ []) v.listed
          (ap (λ (k : String). lookup k names) named ∙ entry, tt);
  }

-- What a successful call gives: the invariant, and the name is done if it is an app.
abbrev Post : Names → Walk → List String → Type 0
Post names v l = Inv names v × All (IsDone names v) l

IsDone-later :
    (names : Names) (v w : Walk) (d : String) → Keeps v w → IsDone names v d → IsDone names w d
IsDone-later names v w d k h app = k.stays d done (h app)

visit_all-Post :
    (names : Names) (fuel : ℕ) (l : List String) (w v : Walk)
    → ((d : String) (x y : Walk)
        → Inv names x
        → visit names fuel d x ≡ ok y
        → Inv names y × IsDone names y d)
    → Inv names w
    → visit_all (visit names fuel) l w ≡ ok v
    → Post names v l
unfolding visit_all
visit_all-Post names fuel [] w v h i e = let same : w ≡ v = ground arith in (rw (← same) i, tt)
visit_all-Post names fuel (d ∷ l) w v h i e =
    let (y, p, q) = >>=-eq-ok (visit names fuel d w) (visit_all (visit names fuel) l) e in
    let (inv, first) = h d w y i p in
    let (final, rest) = visit_all-Post names fuel l y v h inv q in
    let keeps = visit_all-Keeps (visit names fuel) l y v (visit-Keeps names fuel) q in
    (final, (IsDone-later names y v d keeps first, rest))

visit_case-Post :
    (names : Names) (apps : List App) (fuel : ℕ) (n : String) (w v : Walk) {r : Result Walk}
    → Listed apps names
    → ((d : String) (x y : Walk)
        → Inv names x
        → visit names fuel d x ≡ ok y
        → Inv names y × IsDone names y d)
    → Inv names w
    → Visit names fuel n w r
    → r ≡ ok v
    → Inv names v × IsDone names v n
visit_case-Post names apps fuel n w v t h i (was_done m) e =
    let same : w ≡ v = ground arith in (rw (← same) i, λ app. rw (← same) m)
visit_case-Post names apps fuel n w v t h i (was_visiting m) e = cc
visit_case-Post names apps fuel n w v t h i (no_app m k) e =
    let same : w ≡ v = ground arith in (rw (← same) i, λ app. ground arith)
visit_case-Post names apps fuel n w v t h i (expands a m k) e =
    let inner = visit_all (visit names fuel) a.depends_on (set_mark n visiting w) in
    let (y, p, q) = >>=-eq-ok inner _ e in
    let (inv, deps) =
      visit_all-Post names fuel a.depends_on (set_mark n visiting w) y h
        (Inv-set_mark names n w m i) p in
    let keeps = visit_all-Keeps (visit names fuel) a.depends_on _ y (visit-Keeps names fuel) p in
    let busy =
      keeps.stays n visiting
        (ground (arith, lookup-insert n n visiting w.marks, string_eq.equal_iff n n)) in
    let same : finish n a y ≡ v = ground arith in
    let kept = Inv-finish names n a y (t n a k).0 k inv busy deps in
    (
      rw (← same) kept,
      λ app. rw (← same) (ground (arith, lookup-insert n n done y.marks, string_eq.equal_iff n n)),
    )

visit-Post :
    (names : Names) (apps : List App) (fuel : ℕ) (n : String) (w v : Walk)
    → Listed apps names
    → Inv names w
    → visit names fuel n w ≡ ok v
    → Inv names v × IsDone names v n
unfolding visit
visit-Post names apps zero n w v t i e = cc
visit-Post names apps (suc fuel) n w v t i e =
    visit_case-Post names apps fuel n w v t (λ d x y. visit-Post names apps fuel d x y t) i
      (visit-Visit names fuel n w) e

start-Inv : (names : Names) → Inv names start
start-Inv names = record {
  sound = tt;
  done_placed = λ k h. cc;
  placed_done = λ k h. cc;
  distinct = tt;
  listed = tt;
}

-- The abstract contract of a start order.
pub record IsStartOrder (m : Manifest) (l : List App) : Type 0 where
  -- Each entry is the app that the manifest has under its name.
  pub listed : All (λ a. lookup a.name (by_name m) ≡ some a) l
  -- No app stands twice.
  pub distinct : Distinct (app_names l)
  -- Every app of the manifest stands in the order.
  pub complete : All (λ n. contains (app_names l) n ≡ true) (app_names m.apps)
  -- Each app stands behind the apps that it depends on.
  pub sound : IsOrdered (by_name m) [] l

-- When `apps_ordered` succeeds, its result is a start order: every app of the manifest once, and
-- each behind the apps that it depends on.
pub apps_ordered-IsStartOrder :
    (m : Manifest) (l : List App) → apps_ordered m ≡ ok l → IsStartOrder m l
unfolding apps_ordered
apps_ordered-IsStartOrder m l e =
    let names = by_name m in
    let fuel = suc (length m.apps) in
    let (w, p, q) = >>=-eq-ok (visit_all (visit names fuel) (app_names m.apps) start) _ e in
    let (inv, all_done) =
      visit_all-Post names fuel (app_names m.apps) start w
        (λ d x y. visit-Post names m.apps fuel d x y (by_name-Listed m)) (start-Inv names) p in
    let same : w.ordered ≡ l = ground arith in
    rw (← same) (record {
      listed = inv.listed;
      distinct = inv.distinct;
      complete =
          All-zip (IsDone names w) (λ n. contains (app_names m.apps) n ≡ true)
            (λ n. contains (app_names w.ordered) n ≡ true) (app_names m.apps)
            (λ n settled there.
              inv.done_placed n (settled (by_name_from-contains [] m.apps n there)))
            all_done (All-contains (app_names m.apps));
      sound = inv.sound;
    })
