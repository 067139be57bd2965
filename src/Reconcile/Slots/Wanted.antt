-- ===== src/Reconcile/Slots/Wanted.antt =====
-- crates/artzain-core/src/reconcile.rs: the slots of `desired_slots`, whatever their ports.
use artzain.Prelude.{
  ℕ, zero, suc, ◌+◌, ◌≡◌, refl, Bool, ◌&&◌, ◌||◌, String, List, [], ◌∷◌, any, contains, ltb, leb,
  ◌==◌, is_some, lookup, insert, lookup-insert, string_eq, nat_eq, arith, if◌then◌else◌,
}
use artzain.Manifest.{App}
use artzain.Reconcile.Instance.{Slot, slot_eq, slot_key}
use artzain.Reconcile.Spec.{Hasher, spec_hash}
use artzain.Reconcile.Reconciler.{Reconciler, Desired}
use artzain.Reconcile.Slots.{desired_of, desired_apps, desired_slots, slot_port}

abbrev pub is_replica_of : Slot → App → Bool
is_replica_of s a = (a.name == s.0) && ltb s.1 a.replicas

-- The slot belongs to a selected app.
abbrev pub is_wanted : List App → List String → Slot → Bool
is_wanted apps selected s = any (λ a. contains selected a.name && is_replica_of s a) apps

abbrev names : Slot → Desired → Bool
names s out = is_some (lookup s out)

desired_of_iff :
    (h : Hasher) (r : Reconciler) (a : App) (i left : ℕ) (out : Desired) (s : Slot)
    → names s (desired_of h r a i left out)
      ≡ (((a.name == s.0) && (leb i s.1 && ltb s.1 (i + left))) || names s out)
unfolding desired_of
desired_of_iff h r a i zero out s = ground arith
desired_of_iff h r a i (suc left) out s =
    let port = slot_port r a i in
    let v : ℕ × ℕ = (port, spec_hash h r.manifest a i port) in
    ground (
      arith,
      desired_of_iff h r a (suc i) left (insert (a.name, i) v out) s,
      lookup-insert (a.name, i) s v out,
      nat_eq.equal_iff i s.1,
    )

desired_apps_iff :
    (h : Hasher) (r : Reconciler) (l : List App) (out : Desired) (s : Slot)
    → names s (desired_apps h r l out) ≡ (is_wanted l r.selected s || names s out)
unfolding desired_apps
desired_apps_iff h r [] out s = refl
desired_apps_iff h r (a ∷ l) out s =
    let next = if contains r.selected a.name then desired_of h r a 0 a.replicas out else out in
    ground (arith, desired_apps_iff h r l next s, desired_of_iff h r a 0 a.replicas out s)

pub desired_slots_iff :
    (h : Hasher) (r : Reconciler) (s : Slot)
    → is_some (lookup s (desired_slots h r)) ≡ is_wanted r.manifest.apps r.selected s
unfolding desired_slots
desired_slots_iff h r s = ground (arith, desired_apps_iff h r r.manifest.apps [] s)
