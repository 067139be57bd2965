-- ===== src/Reconcile/Roll.antt =====
-- crates/artzain-core/src/reconcile.rs: the rolling update. `roll_stale` and
-- `retire_stale_surplus`.
pub mod Budget
use artzain.Prelude.{
  ℕ, suc, ◌+◌, ◌-◌, Bool, false, ◌&&◌, not, String, Option, none, some, List, [], ◌∷◌, ◌++◌,
  if◌then◌else◌, lookup, insert, map_or, any, find, count, ltb, leb, ◌==◌, length, string_eq,
  nat_eq,
}
use artzain.Manifest.{App, app}
use artzain.State.{Phase, phase_eq}
use artzain.Process.{Effect}
use artzain.Reconcile.Instance.{Instance, Slot, slot, slot_eq, slot_key, begin_stop}
use artzain.Reconcile.Reconciler.{Reconciler, World, Desired}
use artzain.Reconcile.Slots.{surge_port_for}
use artzain.Reconcile.Stops.{stop_at}

abbrev pub max_unavailable : ℕ
max_unavailable = 1

-- The slot is desired under another spec than the instance was launched with.
abbrev pub is_stale : Desired → Instance → Bool
is_stale desired i = map_or (lookup (slot i) desired) false (λ d. not (d.1 == i.spec_hash))

-- `iter_mut().find(p)` and `begin_stop(inst, false)`; `none` where nothing is found.
unfoldable pub stop_first :
    (Instance → Bool) → ℕ → List Instance → Option (List Instance × List Effect)
unfolding begin_stop
stop_first p now [] = none
stop_first p now (i ∷ l) =
    let later = map_or (stop_first p now l) none (λ x. some (i ∷ x.0, x.1)) in
    let (j, e) = begin_stop now false i in if p i then some (j ∷ l, e) else later

abbrev pub of_app : String → Instance → Bool
of_app name i = i.app == name

abbrev pub is_ready : Instance → Bool
is_ready i = i.phase == Phase.ready

abbrev pub ready_of : String → List Instance → ℕ
ready_of name = count (λ i. of_app name i && is_ready i)

abbrev pub non_ready_stale : Desired → String → Instance → Bool
non_ready_stale desired name i =
    of_app name i
    && (not (i.phase == Phase.ready) && (not (i.phase == Phase.terminating) && is_stale desired i))

abbrev pub ready_stale : Desired → String → Instance → Bool
ready_stale desired name i = of_app name i && (is_ready i && is_stale desired i)

-- The surge branch: a stale ready instance gets a new port for its slot, if no instance of the
-- current spec is there yet and the budget allows.
abbrev pub surge_for : Desired → App → ℕ → Instance → Reconciler → Reconciler
surge_for desired a budget stale r =
    let current = map_or (lookup (slot stale) desired) 0 (λ d. d.1) in
    let has_new =
      any
        (λ i.
          (i.app == stale.app)
          && (nat_eq.equal i.replica stale.replica && (i.spec_hash == current)))
        r.instances in
    if not has_new && ltb (count (of_app a.name) r.instances) budget
    then record r { slot_ports = insert (slot stale) (surge_port_for r.manifest a) r.slot_ports }
    else r

-- A stale instance is found only for an app of the manifest, so the `unwrap` on the app is safe;
-- without an app there is nothing to do.
unfoldable pub roll_surge : Desired → String → Reconciler → Reconciler
roll_surge desired name r = map_or (find (ready_stale desired name) r.instances) r (λ stale.
    map_or (app r.manifest name) r
      (λ a. surge_for desired a (a.replicas + r.manifest.defaults.max_surge) stale r))

abbrev pub desired_count : Reconciler → String → ℕ
desired_count r name = map_or (app r.manifest name) 0 (λ a. a.replicas)

abbrev pub with_instances :
    Reconciler → Option (List Instance × List Effect) → Reconciler × List Effect
with_instances r none = (r, [])
with_instances r (some (l, e)) = (record r { instances = l }, e)

-- The body of the loop over the selected apps.
unfoldable pub roll_app : World → Desired → String → Reconciler → Reconciler × List Effect
unfolding stop_first roll_surge
roll_app w desired name r = elim (stop_first (non_ready_stale desired name) w.roll_at r.instances) [
  | some x ↦ with_instances r (some x)
  | none ↦
      if ltb 0 r.manifest.defaults.max_surge
      then (roll_surge desired name r, [])
      else (if leb max_unavailable (desired_count r name - ready_of name r.instances)
          then (r, [])
          else with_instances r (stop_first (ready_stale desired name) w.roll_at r.instances))
]

-- The set of the selected names is iterated in an order that it chooses: `names` is that order.
unfoldable pub roll_apps : World → Desired → List String → Reconciler → Reconciler × List Effect
unfolding roll_app
roll_apps w desired [] r = (r, [])
roll_apps w desired (n ∷ names) r =
    let (one, e) = roll_app w desired n r in
    let (all_rolled, rest) = roll_apps w desired names one in (all_rolled, e ++ rest)

unfoldable pub roll_stale : World → Desired → Reconciler → Reconciler × List Effect
unfolding roll_apps
roll_stale w desired r = roll_apps w desired r.selected r

-- The instances of a slot, with their indices.
abbrev pub slot_members : Slot → ℕ → List Instance → List (ℕ × Instance)
slot_members s at [] = []
slot_members s at (i ∷ l) =
    if slot_eq.equal (slot i) s
    then (at, i) ∷ slot_members s (suc at) l
    else slot_members s (suc at) l

abbrev pub surplus_indices : ℕ → List (ℕ × Instance) → List ℕ
surplus_indices current [] = []
surplus_indices current ((at, i) ∷ l) =
    if not (i.spec_hash == current) && not (i.phase == Phase.terminating)
    then at ∷ surplus_indices current l
    else surplus_indices current l

-- The indices to stop for one desired slot.
abbrev pub surplus_of : Slot → ℕ → List Instance → List ℕ
surplus_of s current instances =
    let members = slot_members s 0 instances in
    if leb (length members) 1
    then []
    else (if any (λ m. (m.1.spec_hash == current) && is_ready m.1) members
        then surplus_indices current members
        else [])

unfoldable pub surplus_all : Desired → List Instance → List ℕ
surplus_all [] instances = []
surplus_all ((s, (port, current)) ∷ l) instances =
    surplus_of s current instances ++ surplus_all l instances

unfoldable pub stop_all : ℕ → List ℕ → List Instance → List Instance × List Effect
unfolding stop_at
stop_all now [] l = (l, [])
stop_all now (idx ∷ rest) l =
    let (one, e) = stop_at now false idx l in let (m, es) = stop_all now rest one in (m, e ++ es)

unfoldable pub retire_stale_surplus : World → Desired → Reconciler → Reconciler × List Effect
unfolding surplus_all stop_all
retire_stale_surplus w desired r =
    if r.manifest.defaults.max_surge == 0
    then (r, [])
    else (let (l, e) = stop_all w.retire_at (surplus_all desired r.instances) r.instances in
        (record r { instances = l }, e))
