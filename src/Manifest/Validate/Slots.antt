-- ===== src/Manifest/Validate/Slots.antt =====
-- What a valid manifest gives the control loop: each slot `(app, replica)` has a port of its own.
use artzain.Prelude.{
  ℕ, zero, suc, map, ◌+◌, ◌<◌, ◌≡◌, refl, true, List, [], ◌∷◌, some, get_elem?, contains, Distinct,
  Distinct-append, any-append, nat_eq, arith, ◌==◌,
}
use artzain.Manifest.{Manifest, App}
use artzain.Manifest.Validate.{Accounts, ok, validate, resolve_account}
use artzain.Manifest.Validate.Ports.{window, windows}
use artzain.Manifest.Validate.Valid.{U16Ports, errors_of-IsValid, validate-accepted}

contains-window : (port left r : ℕ) → r < left → contains (window port left) (port + r) ≡ true
contains-window port zero r h = elim h [ ]
contains-window port (suc left) zero h = ground arith
contains-window port (suc left) (suc r) h =
    let moved : suc port + r ≡ port + suc r = omega arith in
    let later = contains-window (suc port) left r (omega arith) in ground (arith, later, moved)

contains-windows :
    (l : List App) (i r : ℕ) (a : App)
    → get_elem? l i ≡ some a
    → r < a.replicas
    → contains (windows l) (a.port + r) ≡ true
contains-windows [] i r a e h = cc
contains-windows (b ∷ l) zero r a e h =
    let same : b ≡ a = ground arith in
    let split = any-append (λ (x : ℕ). x == (a.port + r)) (window b.port b.replicas) (windows l) in
    let here = contains-window a.port a.replicas r h in ground (arith, split, here)
contains-windows (b ∷ l) (suc i) r a e h =
    let split = any-append (λ (x : ℕ). x == (a.port + r)) (window b.port b.replicas) (windows l) in
    let there = contains-windows l i r a e h in ground (arith, split, there)

-- The window of the first app shares no port with the windows behind it.
apart :
    (a : App) (l : List App) (r j s : ℕ) (b : App)
    → Distinct (windows (a ∷ l))
    → r < a.replicas
    → get_elem? l j ≡ some b
    → s < b.replicas
    → a.port + r ≡ b.port + s
    → ⊥
apart a l r j s b d hr e hs same =
    let (rest, off) = Distinct-append (window a.port a.replicas) (windows l) d in
    let here = contains-window a.port a.replicas r hr in
    let there = contains-windows l j s b e hs in
    let missing = off (a.port + r) here in ground (arith, missing, there, same)

Distinct-slots :
    (l : List App) (i j r s : ℕ) (a b : App)
    → Distinct (windows l)
    → get_elem? l i ≡ some a
    → get_elem? l j ≡ some b
    → r < a.replicas
    → s < b.replicas
    → a.port + r ≡ b.port + s
    → (i ≡ j) × (r ≡ s)
Distinct-slots [] i j r s a b d ea eb hr hs same = cc
Distinct-slots (c ∷ l) zero zero r s a b d ea eb hr hs same =
    let one : c ≡ a = ground arith in let two : c ≡ b = ground arith in (refl, ground arith)
Distinct-slots (c ∷ l) zero (suc j) r s a b d ea eb hr hs same =
    let one : a ≡ c = ground arith in
    absurd (apart c l r j s b d (ground arith) eb hs (ground arith))
Distinct-slots (c ∷ l) (suc i) zero r s a b d ea eb hr hs same =
    let one : b ≡ c = ground arith in
    absurd (apart c l s i r a d (ground arith) ea hr (ground arith))
Distinct-slots (c ∷ l) (suc i) (suc j) r s a b d ea eb hr hs same =
    let (rest, off) = Distinct-append (window c.port c.replicas) (windows l) d in
    let (p, q) = Distinct-slots l i j r s a b rest ea eb hr hs same in (ground arith, q)

windows-resolved : (db : Accounts) (l : List App) → windows (map (resolve_account db) l) ≡ windows l
windows-resolved db [] = refl
windows-resolved db (a ∷ l) = rw (windows-resolved db l) refl

-- In a manifest that `validate` has accepted, its ports being 16-bit values, two slots with the same
-- port are the same replica of the same app: replica `r` of the `i`-th app and replica `s` of the `j`-th
-- share `port + r` only if `i = j` and `r = s`.
pub validate-slots_distinct :
    (db : Accounts) (m v : Manifest) (i j r s : ℕ) (a b : App)
    → U16Ports m
    → validate db m ≡ ok v
    → get_elem? v.apps i ≡ some a
    → get_elem? v.apps j ≡ some b
    → r < a.replicas
    → s < b.replicas
    → a.port + r ≡ b.port + s
    → (i ≡ j) × (r ≡ s)
validate-slots_distinct db m v i j r s a b u accepted =
    let (none_found, same) = validate-accepted db m v accepted in
    let valid = errors_of-IsValid db m u none_found in
    let apart : Distinct (windows v.apps) =
      rw (same, windows-resolved db m.apps) valid.ports_distinct in
    Distinct-slots v.apps i j r s a b apart
