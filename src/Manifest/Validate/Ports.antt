-- ===== src/Manifest/Validate/Ports.antt =====
-- The loop of `Manifest::validate` that claims the port of every replica.
use mathlib.Core.Path.{fun_ext}
use artzain.Prelude.{
  ℕ, zero, suc, ◌+◌, ◌≤◌, ◌≡◌, ◌↔◌, refl, ap, ◌∙◌, Bool, false, String, Option, none, some, List,
  [], ◌∷◌, ◌++◌, insert, lookup, lookup-insert, nat_eq, is_some, arith, All, FreshBy,
  FreshBy-append, mark, mark_all, append_nil_iff,
}
use artzain.Words.{u16_max, as_u16, add_u16}
use artzain.Manifest.{App, nat_key}
use artzain.Manifest.Validate.{Claimed, clash, claim_replicas, claim_apps}

-- Which ports are taken.
abbrev pub taken : Claimed → ℕ → Bool
taken claimed p = is_some (lookup p claimed)

taken-insert :
    (p : ℕ) (n : String) (claimed : Claimed) → taken (insert p n claimed) ≡ mark p (taken claimed)
taken-insert p n claimed = fun_ext λ q. ground (arith, lookup-insert p q n claimed)

clash_iff : (p : ℕ) (by : String) (o : Option String) → (clash p by o ≡ []) ↔ (is_some o ≡ false)
clash_iff p by none = (λ h. refl, λ h. refl)
clash_iff p by (some owner) = (λ h. cc, λ h. cc)

-- The ports that the source computes, replica by replica.
abbrev pub wrapped : App → (i left : ℕ) → List ℕ
wrapped a i zero = []
wrapped a i (suc left) = add_u16 a.port (as_u16 i) ∷ wrapped a (suc i) left

abbrev pub wrapped_all : List App → List ℕ
wrapped_all [] = []
wrapped_all (a ∷ l) = wrapped a 0 a.replicas ++ wrapped_all l

mark_all-append :
    (xs ys : List ℕ) (s : ℕ → Bool) → mark_all (xs ++ ys) s ≡ mark_all ys (mark_all xs s)
mark_all-append [] ys s = refl
mark_all-append (x ∷ xs) ys s = mark_all-append xs ys (mark x s)

claim_replicas-taken :
    (a : App) (i left : ℕ) (claimed : Claimed)
    → taken (claim_replicas a i left claimed).0 ≡ mark_all (wrapped a i left) (taken claimed)
unfolding claim_replicas
claim_replicas-taken a i zero claimed = refl
claim_replicas-taken a i (suc left) claimed =
    let p = add_u16 a.port (as_u16 i) in
    claim_replicas-taken a (suc i) left (insert p a.name claimed)
    ∙ ap (mark_all (wrapped a (suc i) left)) (taken-insert p a.name claimed)

claim_replicas_iff :
    (a : App) (i left : ℕ) (claimed : Claimed)
    → ((claim_replicas a i left claimed).1 ≡ []) ↔ FreshBy (taken claimed) (wrapped a i left)
unfolding claim_replicas
claim_replicas_iff a i zero claimed = (λ h. tt, λ h. refl)
claim_replicas_iff a i (suc left) claimed =
    let p = add_u16 a.port (as_u16 i) in
    let both = append_nil_iff (clash p a.name (lookup p claimed)) _ in
    let ih = claim_replicas_iff a (suc i) left (insert p a.name claimed) in
    let step = taken-insert p a.name claimed in
    (
      λ h.
          let (first, rest) = both.0 h in
          let f = ih.0 rest in ((clash_iff p a.name (lookup p claimed)).0 first, rw step at f),
      λ h. both.1 ((clash_iff p a.name (lookup p claimed)).1 h.0, ih.1 (rw step h.1)),
    )

-- No port is claimed twice exactly when no claim is reported.
pub claim_apps_iff :
    (claimed : Claimed) (l : List App)
    → ((claim_apps claimed l).1 ≡ []) ↔ FreshBy (taken claimed) (wrapped_all l)
unfolding claim_apps
claim_apps_iff claimed [] = (λ h. tt, λ h. refl)
claim_apps_iff claimed (a ∷ l) =
    let mine = claim_replicas a 0 a.replicas claimed in
    let both = append_nil_iff mine.1 (claim_apps mine.0 l).1 in
    let one = claim_replicas_iff a 0 a.replicas claimed in
    let ih = claim_apps_iff mine.0 l in
    let split = FreshBy-append (taken claimed) (wrapped a 0 a.replicas) (wrapped_all l) in
    let after = claim_replicas-taken a 0 a.replicas claimed in
    (
      λ h.
          let (first, rest) = both.0 h in let f = ih.0 rest in split.1 (one.0 first, rw after at f),
      λ h. let (first, rest) = split.0 h in both.1 (one.1 first, ih.1 (rw after rest)),
    )

-- The ports that the manifest means: `port`, `port + 1` and so on, in plain numbers.
abbrev pub window : (port left : ℕ) → List ℕ
window port zero = []
window port (suc left) = port ∷ window (suc port) left

abbrev pub windows : List App → List ℕ
windows [] = []
windows (a ∷ l) = window a.port a.replicas ++ windows l

wrapped-window :
    (a : App) (i left : ℕ)
    → a.port + i + left ≤ suc u16_max
    → wrapped a i left ≡ window (a.port + i) left
wrapped-window a i zero h = refl
wrapped-window a i (suc left) h =
    let here : add_u16 a.port (as_u16 i) ≡ a.port + i = omega arith in
    let next : a.port + suc i ≡ suc (a.port + i) = omega arith in
    rw (here, wrapped-window a (suc i) left (omega arith), next) refl

abbrev pub InRange : App → Type 0
InRange a = a.port + a.replicas ≤ suc u16_max

pub wrapped_all-windows : (l : List App) → All InRange l → wrapped_all l ≡ windows l
wrapped_all-windows [] h = refl
wrapped_all-windows (a ∷ l) h =
    let zero_off : a.port + 0 ≡ a.port = omega arith in
    let mine = wrapped-window a 0 a.replicas (omega (arith, h.0)) in
    rw (mine, zero_off, wrapped_all-windows l h.1) refl
