-- ===== src/Reconcile/Slots.antt =====
-- crates/artzain-core/src/reconcile.rs: `desired_slots` and `surge_port_for`.
pub mod Wanted
pub mod Surge
use artzain.Prelude.{
  ℕ, zero, suc, ◌-◌, Option, none, some, List, [], ◌∷◌, ◌++◌, if◌then◌else◌, contains, lookup,
  insert, unwrap_or, nat_eq, string_eq,
}
use artzain.Words.{u16_max, as_u16, add_u16, add_u32}
use artzain.Manifest.{Manifest, App}
use artzain.Reconcile.Instance.{slot_key}
use artzain.Reconcile.Spec.{Hasher, spec_hash}
use artzain.Reconcile.Reconciler.{Reconciler, Desired}

-- The port of a slot: the one of an earlier surge, or `port + i`.
abbrev pub slot_port : Reconciler → App → ℕ → ℕ
slot_port r a i = unwrap_or (lookup (a.name, i) r.slot_ports) (add_u16 a.port (as_u16 i))

-- `for i in 0..app.replicas`, from `i` with `left` rounds to go.
unfoldable pub desired_of : Hasher → Reconciler → App → (i left : ℕ) → Desired → Desired
desired_of hasher r a i zero out = out
desired_of hasher r a i (suc left) out =
    let port = slot_port r a i in
    desired_of hasher r a (suc i) left
      (insert (a.name, i) (port, spec_hash hasher r.manifest a i port) out)

unfoldable pub desired_apps : Hasher → Reconciler → List App → Desired → Desired
unfolding desired_of
desired_apps hasher r [] out = out
desired_apps hasher r (a ∷ l) out =
    desired_apps hasher r l
      (if contains r.selected a.name then desired_of hasher r a 0 a.replicas out else out)

unfoldable pub desired_slots : Hasher → Reconciler → Desired
unfolding desired_apps
desired_slots hasher r = desired_apps hasher r r.manifest.apps []

-- The ports of every app's window, as the source computes them.
abbrev pub claimed_of : App → (i left : ℕ) → List ℕ
claimed_of a i zero = []
claimed_of a i (suc left) = add_u16 a.port (as_u16 i) ∷ claimed_of a (suc i) left

abbrev pub claimed : List App → List ℕ
claimed [] = []
claimed (a ∷ l) = claimed_of a 0 a.replicas ++ claimed l

-- The `while candidate <= u16::MAX` loop, with the rounds that are left; `none` past the end.
unfoldable pub first_free : List ℕ → (left candidate : ℕ) → Option ℕ
first_free taken zero candidate = none
first_free taken (suc left) candidate =
    let later = first_free taken left (suc candidate) in
    if contains taken candidate then later else some candidate

unfoldable pub surge_port_for : Manifest → App → ℕ
unfolding first_free
surge_port_for m a =
    let base = add_u32 a.port a.replicas in
    unwrap_or (first_free (claimed m.apps) (suc u16_max - base) base) (as_u16 base)
