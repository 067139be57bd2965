-- ===== src/Manifest/AppOrder/Cycles.antt =====
-- `apps_ordered` reports a cycle exactly when the app dependencies have one.
use artzain.Prelude.{
  ℕ, zero, suc, ◌≡◌, ◌≢◌, ◌⊎◌, inl, inr, refl, Bool, true, false, String, some, List, [], ◌∷◌,
  lookup, lookup-insert, string_eq, arith, contains, is_some, sym, ap, ◌∙◌, All-of_contains, ◌<◌,
  ◌↔◌, if◌then◌else◌, ◌==◌, All, length,
}
use artzain.Manifest.{Manifest, App, string_key}
use artzain.Manifest.AppOrder.{
  visiting, Walk, Result, ok, cycle, out_of_fuel, ◌>>=◌, Names, set_mark, finish, visit_all, visit,
  by_name, app_names, start, apps_ordered,
}
use artzain.Manifest.AppOrder.NameTable.{by_name-Listed}
use artzain.Manifest.AppOrder.Placed.{IsPlaced, IsOrdered, IsStartOrder, apps_ordered-IsStartOrder}
use artzain.Manifest.AppOrder.Total.{apps_ordered_total}
use artzain.Manifest.AppOrder.Marks.{
  Visit, was_done, was_visiting, no_app, expands, visit-Visit, Keeps, visit-Keeps,
}

-- The app `n` names the dependency `d`.
pub record Needs (names : Names) (n d : String) : Type 0 where
  pub app : App
  pub entry : lookup n names ≡ some app
  pub listed : contains app.depends_on d ≡ true

-- A chain of at least one dependency.
pub data Chain (names : Names) : String → String → Type 0 where
  one : {n d : String} → Needs names n d → Chain names n d
  more : {n d e : String} → Chain names n d → Needs names d e → Chain names n e

-- The names in progress lead to `n`.
abbrev Pending : Names → Walk → String → Type 0
Pending names w n = (k : String) → lookup k w.marks ≡ some visiting → Chain names k n

Pending-later :
    (names : Names) (w v : Walk) (n : String) → Keeps w v → Pending names w n → Pending names v n
Pending-later names w v n keeps p k h = p k (keeps.settles k h)

Pending-step :
    (names : Names) (w : Walk) (n d : String)
    → Pending names w n
    → Needs names n d
    → Pending names (set_mark n visiting w) d
Pending-step names w n d p step k h = at (n == k) refl
  where
    at : (t : Bool) → (n == k) ≡ t → Chain names k d
    at true t = let same : n ≡ k = (string_eq.equal_iff n k).0 t in rw (← same) (one step)
    at false t = more (p k (ground (arith, lookup-insert n k visiting w.marks))) step

visit_all_cycle :
    (names : Names) (fuel : ℕ) (c : String) (w : Walk) (l : List String)
    → ((d : String) (x : Walk)
        → Pending names x d
        → visit names fuel d x ≡ cycle c
        → Chain names c c)
    → ((d : String) → contains l d ≡ true → Pending names w d)
    → visit_all (visit names fuel) l w ≡ cycle c
    → Chain names c c
unfolding visit_all
visit_all_cycle names fuel c w [] h p e = cc
visit_all_cycle names fuel c w (d ∷ l) h p e = by_result (visit names fuel d w) refl e λ v kept.
    visit_all_cycle names fuel c v l h
      (λ k m. Pending-later names w v k (visit-Keeps names fuel d w v kept) (p k (ground arith)))
  where
    by_result :
        (r : Result Walk)
        → visit names fuel d w ≡ r
        → (r >>= visit_all (visit names fuel) l) ≡ cycle c
        → ((v : Walk)
            → visit names fuel d w ≡ ok v
            → visit_all (visit names fuel) l v ≡ cycle c
            → Chain names c c)
        → Chain names c c
    by_result (ok v) r q ih = ih v r q
    by_result (cycle k) r q ih =
        h d w (p d (ground (arith, string_eq.equal_iff d d))) (ground arith)
    by_result out_of_fuel r q ih = cc

bind_cycle :
    (r : Result Walk) (f : Walk → Walk) (c : String) → (r >>= λ v. ok (f v)) ≡ cycle c → r ≡ cycle c
bind_cycle (ok v) f c e = cc
bind_cycle (cycle k) f c e = ground arith
bind_cycle out_of_fuel f c e = cc

visit_case_cycle :
    (names : Names) (fuel : ℕ) (n c : String) (w : Walk) {r : Result Walk}
    → ((d : String) (x : Walk)
        → Pending names x d
        → visit names fuel d x ≡ cycle c
        → Chain names c c)
    → Pending names w n
    → Visit names fuel n w r
    → r ≡ cycle c
    → Chain names c c
visit_case_cycle names fuel n c w h p (was_done m) e = cc
visit_case_cycle names fuel n c w h p (was_visiting m) e =
    let same : n ≡ c = ground arith in rw (← same) (p n m)
visit_case_cycle names fuel n c w h p (no_app m k) e = cc
visit_case_cycle names fuel n c w h p (expands a m k) e =
    visit_all_cycle names fuel c (set_mark n visiting w) a.depends_on h
      (λ d there. Pending-step names w n d p (record { app = a; entry = k; listed = there }))
      (bind_cycle (visit_all (visit names fuel) a.depends_on (set_mark n visiting w)) (finish n a) c
        e)

visit_cycle :
    (names : Names) (fuel : ℕ) (n c : String) (w : Walk)
    → Pending names w n
    → visit names fuel n w ≡ cycle c
    → Chain names c c
unfolding visit
visit_cycle names zero n c w p e = cc
visit_cycle names (suc fuel) n c w p e =
    visit_case_cycle names fuel n c w (λ d x. visit_cycle names fuel d c x) p
      (visit-Visit names fuel n w) e

bind_order_cycle :
    (r : Result Walk) (c : String) → (r >>= λ w. ok w.ordered) ≡ cycle c → r ≡ cycle c
bind_order_cycle (ok v) c e = cc
bind_order_cycle (cycle k) c e = ground arith
bind_order_cycle out_of_fuel c e = cc

-- The name in the error lies on a cycle: a chain of dependencies leads from it to itself.
pub apps_ordered-cycle :
    (m : Manifest) (c : String) → apps_ordered m ≡ cycle c → Chain (by_name m) c c
unfolding apps_ordered
apps_ordered-cycle m c e =
    let names = by_name m in
    let fuel = suc (length m.apps) in
    top names fuel c start (app_names m.apps) (λ k h. cc)
      (bind_order_cycle (visit_all (visit names fuel) (app_names m.apps) start) c e)
  where
    top :
        (names : Names) (fuel : ℕ) (c : String) (w : Walk) (l : List String)
        → ((k : String) → lookup k w.marks ≢ some visiting)
        → visit_all (visit names fuel) l w ≡ cycle c
        → Chain names c c
    top names fuel c w l idle p =
        visit_all_cycle names fuel c w l (λ d x. visit_cycle names fuel d c x)
          (λ d there k h. absurd (idle k h)) p

-- Where a name stands in the order; past the end if it does not.
abbrev pub position : String → List App → ℕ
position n [] = 0
position n (a ∷ l) = if a.name == n then 0 else suc (position n l)

Needs-position :
    (names : Names) (seen : List String) (l : List App) (n d : String)
    → IsOrdered names seen l
    → All (λ a. lookup a.name names ≡ some a) l
    → Needs names n d
    → is_some (lookup d names) ≡ true
    → contains (app_names l) n ≡ true
    → (contains seen d ≡ true) ⊎ (position d l < position n l)
Needs-position names seen [] n d o t k app here = cc
Needs-position names seen (x ∷ l) n d o t k app here =
    at (x.name == n) refl (Needs-position names (x.name ∷ seen) l n d o.1 t.1 k app)
  where
    at :
        (b : Bool)
        → (x.name == n) ≡ b
        → (contains (app_names l) n ≡ true
            → (contains (x.name ∷ seen) d ≡ true) ⊎ (position d l < position n l))
        → (contains seen d ≡ true) ⊎ (position d (x ∷ l) < position n (x ∷ l))
    at true b ih =
        let named : x.name ≡ n = (string_eq.equal_iff x.name n).0 b in
        let entry : some x ≡ some k.app =
          sym t.0 ∙ (ap (λ (j : String). lookup j names) named ∙ k.entry) in
        let same : x ≡ k.app = ground arith in
        inl (
          All-of_contains (IsPlaced names seen) x.depends_on o.0 d
            (rw (ap (λ (a : App). a.depends_on) same) k.listed) app)
    at false b ih = let rest = ih (ground arith) in ground arith

placed :
    (m : Manifest) (l : List App)
    → IsStartOrder m l
    → (n : String) {d : String} → Needs (by_name m) n d
    → contains (app_names l) n ≡ true
placed m l v n k =
    All-of_contains (λ j. contains (app_names l) j ≡ true) (app_names m.apps) v.complete n
      (by_name-Listed m n k.app k.entry).1

Chain-position :
    (m : Manifest) (l : List App) {n d : String}
    → IsStartOrder m l
    → Chain (by_name m) n d
    → is_some (lookup d (by_name m)) ≡ true
    → position d l < position n l
Chain-position m l v (one {n} {d} k) app =
    elim (Needs-position (by_name m) [] l n d v.sound v.listed k app (placed m l v n k)) [
      | inl e ↦ cc
      | inr h ↦ h
    ]
Chain-position m l v (more {n} {d} {e} c k) app =
    let first = Chain-position m l v c (ground (arith, k.entry)) in
    elim (Needs-position (by_name m) [] l d e v.sound v.listed k app (placed m l v d k)) [
      | inl h ↦ cc
      | inr h ↦ omega arith
    ]

-- `apps_ordered` finds an order exactly when no app depends on itself through a chain of apps.
pub apps_ordered-acyclic :
    (m : Manifest)
    → ((l : List App) × (apps_ordered m ≡ ok l)) ↔ ((n : String) → ¬ Chain (by_name m) n n)
apps_ordered-acyclic m = (
  λ (l, e) n c.
      let v = apps_ordered-IsStartOrder m l e in
      let less = Chain-position m l v c (is_entry c) in omega arith,
  λ acyclic. found (apps_ordered m) refl acyclic,
)
  where
    is_entry : {n d : String} → Chain (by_name m) n d → is_some (lookup n (by_name m)) ≡ true
    is_entry (one k) = ground (arith, k.entry)
    is_entry (more c k) = is_entry c

    found :
        (r : Result (List App))
        → apps_ordered m ≡ r
        → ((n : String) → ¬ Chain (by_name m) n n)
        → (l : List App) × (apps_ordered m ≡ ok l)
    found (ok l) e acyclic = (l, e)
    found (cycle c) e acyclic = absurd (acyclic c (apps_ordered-cycle m c e))
    found out_of_fuel e acyclic = absurd (apps_ordered_total m e)
