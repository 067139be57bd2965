-- ===== src/Reconcile/Stops.antt =====
-- crates/artzain-core/src/reconcile.rs: the operations that stop instances. `terminate_undesired`
-- and `stop_check_blocked`.
pub mod Undesired
use artzain.Prelude.{
  ℕ, zero, suc, Bool, true, false, ◌&&◌, not, String, List, [], ◌∷◌, ◌++◌, if◌then◌else◌, lookup,
  map_or, is_some, any, ltb, ◌==◌, get_elem?,
}
use artzain.Manifest.{app, is_app, string_key}
use artzain.State.{Phase, phase_eq}
use artzain.Process.{Effect}
use artzain.Reconcile.Instance.{Instance, Slot, slot, slot_eq, slot_key, is_running, begin_stop}
use artzain.Reconcile.Reconciler.{Reconciler, World, Desired}
use artzain.Reconcile.Reap.{keep_slots, removed_effects}

-- `begin_stop` of the instance at an index.
unfoldable pub stop_at : ℕ → Bool → ℕ → List Instance → List Instance × List Effect
unfolding begin_stop
stop_at now respawn idx [] = ([], [])
stop_at now respawn zero (i ∷ l) = let (j, e) = begin_stop now respawn i in (j ∷ l, e)
stop_at now respawn (suc idx) (i ∷ l) = let (m, e) = stop_at now respawn idx l in (i ∷ m, e)

abbrev pub is_desired : Desired → Instance → Bool
is_desired desired i = is_some (lookup (slot i) desired)

-- The indices of the undesired instances.
abbrev pub undesired : Desired → ℕ → List Instance → List (ℕ × ℕ)
undesired desired at [] = []
undesired desired at (i ∷ l) =
    if is_desired desired i
    then undesired desired (suc at) l
    else (at, i.replica) ∷ undesired desired (suc at) l

-- `sort_by_key(Reverse(replica))`, which is stable: an entry goes in front of its equals.
unfoldable pub insert_desc : ℕ × ℕ → List (ℕ × ℕ) → List (ℕ × ℕ)
insert_desc x [] = x ∷ []
insert_desc x (y ∷ l) = if ltb x.1 y.1 then y ∷ insert_desc x l else x ∷ y ∷ l

unfoldable pub sort_desc : List (ℕ × ℕ) → List (ℕ × ℕ)
unfolding insert_desc
sort_desc [] = []
sort_desc (x ∷ l) = insert_desc x (sort_desc l)

-- One round of the loop over the sorted indices: a running instance is stopped, unless it is
-- already; the slot of another is noted for removal.
pub record Sweep : Type 0 where
  pub instances : List Instance
  pub remove : List Slot
  pub effects : List Effect

abbrev pub sweep_one : ℕ → ℕ → Instance → Sweep → Sweep
sweep_one now idx i s =
    if is_running i
    then (if i.phase == Phase.terminating
        then s
        else (let (l, e) = stop_at now false idx s.instances in
            record s { instances = l; effects = s.effects ++ e }))
    else record s { remove = s.remove ++ slot i ∷ [] }

unfoldable pub sweep : ℕ → List (ℕ × ℕ) → Sweep → Sweep
unfolding stop_at
sweep now [] s = s
sweep now ((idx, replica) ∷ l) s =
    sweep now l (map_or (get_elem? s.instances idx) s (λ i. sweep_one now idx i s))

unfoldable pub terminate_undesired : World → Desired → Reconciler → Reconciler × List Effect
unfolding sweep sort_desc
terminate_undesired w desired r =
    let swept =
      sweep w.terminate_at (sort_desc (undesired desired 0 r.instances))
        (record { instances = r.instances; remove = []; effects = [] }) in
    (
      record r { instances = keep_slots swept.remove swept.instances },
      swept.effects ++ removed_effects swept.remove swept.instances,
    )

-- Does the app of an instance depend on a check that is failing now? App dependencies do not count.
abbrev pub check_failing : Reconciler → String → Bool
check_failing r d = not (is_app r.manifest d) && map_or (lookup d r.checks_ok) false not

abbrev pub is_blocked : Reconciler → Instance → Bool
is_blocked r i = map_or (app r.manifest i.app) false (λ a. any (check_failing r) a.depends_on)

unfoldable pub block_all : ℕ → (Instance → Bool) → List Instance → List Instance × List Effect
unfolding begin_stop
block_all now blocked [] = ([], [])
block_all now blocked (i ∷ l) =
    let (rest, effects) = block_all now blocked l in
    let (stopped, e) = begin_stop now true i in
    if blocked i && (is_running i && not (i.phase == Phase.terminating))
    then (stopped ∷ rest, e ++ effects)
    else (i ∷ rest, effects)

unfoldable pub stop_check_blocked : World → Reconciler → Reconciler × List Effect
unfolding block_all
stop_check_blocked w r =
    let (l, e) = block_all w.block_at (is_blocked r) r.instances in (record r { instances = l }, e)
