-- ===== src/Manifest/AppOrder/Marks.antt =====
-- The marks of the walk: which names a call leaves as they were, and how it is read off by cases.
use artzain.Prelude.{
  ℕ, zero, suc, ◌≡◌, refl, String, Option, none, some, List, [], ◌∷◌, lookup, lookup-insert,
  string_eq, arith,
}
use artzain.Manifest.{App, string_key}
use artzain.Manifest.AppOrder.{
  Mark, visiting, done, Walk, Result, ok, cycle, out_of_fuel, ◌>>=◌, Names, set_mark, finish,
  visit_all, visit,
}

-- The four ways in which a call of `visit` goes.
pub data Visit (names : Names) (fuel : ℕ) (n : String) (w : Walk) : Result Walk → Type 0 where
  was_done : lookup n w.marks ≡ some done → Visit names fuel n w (ok w)
  was_visiting : lookup n w.marks ≡ some visiting → Visit names fuel n w (cycle n)
  no_app : lookup n w.marks ≡ none → lookup n names ≡ none → Visit names fuel n w (ok w)
  expands :
      (a : App)
      → lookup n w.marks ≡ none
      → lookup n names ≡ some a
      → Visit names fuel n w (
          visit_all (visit names fuel) a.depends_on (set_mark n visiting w) >>= λ v.
          ok (finish n a v))

pub visit-Visit :
    (names : Names) (fuel : ℕ) (n : String) (w : Walk)
    → Visit names fuel n w (visit names (suc fuel) n w)
unfolding visit
visit-Visit names fuel n w = by_mark (lookup n w.marks) refl
  where
    by_app :
        (o : Option App)
        → lookup n names ≡ o
        → lookup n w.marks ≡ none
        → Visit names fuel n w (visit names (suc fuel) n w)
    by_app none e f = rw (f, visit, e) (no_app f e)
    by_app (some a) e f = rw (f, visit, e) (expands a f e)

    by_mark :
        (o : Option Mark) → lookup n w.marks ≡ o → Visit names fuel n w (visit names (suc fuel) n w)
    by_mark (some done) e = rw (e, visit) (was_done e)
    by_mark (some visiting) e = rw (e, visit) (was_visiting e)
    by_mark none e = by_app (lookup n names) refl e

-- What a successful call does to the marks: those that were set stay, and no name is left in
-- progress that was not before.
pub record Keeps (w v : Walk) : Type 0 where
  pub stays : (k : String) (x : Mark) → lookup k w.marks ≡ some x → lookup k v.marks ≡ some x
  pub settles : (k : String) → lookup k v.marks ≡ some visiting → lookup k w.marks ≡ some visiting

pub Keeps-refl : (w : Walk) → Keeps w w
Keeps-refl w = record { stays = λ k x h. h; settles = λ k h. h }

pub Keeps-trans : {u v w : Walk} → Keeps u v → Keeps v w → Keeps u w
Keeps-trans p q = record {
  stays = λ k x h. q.stays k x (p.stays k x h);
  settles = λ k h. p.settles k (q.settles k h);
}

pub Keeps-finish :
    (n : String) (a : App) (w v : Walk)
    → lookup n w.marks ≡ none
    → Keeps (set_mark n visiting w) v
    → Keeps w (finish n a v)
Keeps-finish n a w v new k = record {
  stays = λ j x h. ground (
    arith,
    lookup-insert n j visiting w.marks,
    lookup-insert n j done v.marks,
    k.stays j x,
    string_eq.equal_iff n j,
  );
  settles = λ j h. ground (
    arith,
    lookup-insert n j visiting w.marks,
    lookup-insert n j done v.marks,
    k.settles j,
    string_eq.equal_iff n j,
  );
}

pub >>=-eq-ok {ℓ κ} :
    {A : Type ℓ} {B : Type κ} (r : Result A) (f : A → Result B) {b : B}
    → (r >>= f) ≡ ok b
    → (a : A) × (r ≡ ok a) × (f a ≡ ok b)
>>=-eq-ok (ok a) f h = (a, refl, h)
>>=-eq-ok (cycle n) f h = cc
>>=-eq-ok out_of_fuel f h = cc

-- What a function keeps, the loop over the dependencies keeps.
pub visit_all-Keeps :
    (f : String → Walk → Result Walk) (l : List String) (w v : Walk)
    → ((d : String) (x y : Walk) → f d x ≡ ok y → Keeps x y)
    → visit_all f l w ≡ ok v
    → Keeps w v
unfolding visit_all
visit_all-Keeps f [] w v h e = let same : w ≡ v = ground arith in rw same (Keeps-refl v)
visit_all-Keeps f (d ∷ l) w v h e =
    let (y, p, q) = >>=-eq-ok (f d w) (visit_all f l) e in
    Keeps-trans (h d w y p) (visit_all-Keeps f l y v h q)

visit_case-Keeps :
    (names : Names) (fuel : ℕ) (n : String) (w v : Walk) {r : Result Walk}
    → ((d : String) (x y : Walk) → visit names fuel d x ≡ ok y → Keeps x y)
    → Visit names fuel n w r
    → r ≡ ok v
    → Keeps w v
visit_case-Keeps names fuel n w v h (was_done m) e =
    let same : w ≡ v = ground arith in rw same (Keeps-refl v)
visit_case-Keeps names fuel n w v h (was_visiting m) e = cc
visit_case-Keeps names fuel n w v h (no_app m k) e =
    let same : w ≡ v = ground arith in rw same (Keeps-refl v)
visit_case-Keeps names fuel n w v h (expands a m k) e =
    let (y, p, q) =
      >>=-eq-ok (visit_all (visit names fuel) a.depends_on (set_mark n visiting w)) _ e in
    let same : finish n a y ≡ v = ground arith in
    rw (← same) (Keeps-finish n a w y m (visit_all-Keeps (visit names fuel) a.depends_on _ y h p))

pub visit-Keeps :
    (names : Names) (fuel : ℕ) (n : String) (w v : Walk) → visit names fuel n w ≡ ok v → Keeps w v
unfolding visit
visit-Keeps names zero n w v e = cc
visit-Keeps names (suc fuel) n w v e =
    visit_case-Keeps names fuel n w v (visit-Keeps names fuel) (visit-Visit names fuel n w) e
