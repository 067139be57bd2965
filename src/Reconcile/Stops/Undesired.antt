-- ===== src/Reconcile/Stops/Undesired.antt =====
-- crates/artzain-core/src/reconcile.rs: the sweep of `terminate_undesired`, index by index.
use artzain.Prelude.{
  ℕ, zero, suc, ◌+◌, ◌<◌, ◌≡◌, refl, Bool, true, false, ◌||◌, Option, none, some, List, [], ◌∷◌,
  ◌++◌, any, any-append, contains, ◌==◌, is_some, map_or, lookup, arith, if◌then◌else◌, get_elem?,
  All, nat_eq, not,
}
use artzain.State.{Phase, phase_eq}
use artzain.Reconcile.Instance.{Instance, Slot, slot, slot_eq, slot_key, begin_stop, is_running}
use artzain.Reconcile.Reconciler.{Reconciler, World, Desired}
use artzain.Reconcile.Reap.{keep_slots}
use artzain.Reconcile.Stops.{
  stop_at, is_desired, undesired, insert_desc, sort_desc, Sweep, sweep_one, sweep,
  terminate_undesired,
}

abbrev pub is_stopping : Instance → Bool
is_stopping i = i.phase == Phase.terminating

-- An index is in the list of those to sweep.
abbrev names : ℕ → List (ℕ × ℕ) → Bool
names k l = any (λ x. nat_eq.equal x.0 k) l

insert_desc-names :
    (k : ℕ) (x : ℕ × ℕ) (l : List (ℕ × ℕ)) → names k (insert_desc x l) ≡ names k (x ∷ l)
unfolding insert_desc
insert_desc-names k x [] = refl
insert_desc-names k x (y ∷ l) = ground (arith, insert_desc-names k x l)

sort_desc-names : (k : ℕ) (l : List (ℕ × ℕ)) → names k (sort_desc l) ≡ names k l
unfolding sort_desc
sort_desc-names k [] = refl
sort_desc-names k (x ∷ l) = ground (arith, insert_desc-names k x (sort_desc l), sort_desc-names k l)

-- The sweep may forget about an instance: it is desired, stopping, or its slot goes.
abbrev Settled : Desired → List Slot → List (ℕ × ℕ) → ℕ → List Instance → Type 0
Settled desired gone rest at [] = Unit
Settled desired gone rest at (i ∷ l) =
    ((is_desired desired i || (is_stopping i || (contains gone (slot i) || names at rest))) ≡ true)
    × Settled desired gone rest (suc at) l

Settled-undesired :
    (desired : Desired) (rest : List (ℕ × ℕ)) (at : ℕ) (l : List Instance)
    → ((k : ℕ) → names k (undesired desired at l) ≡ true → names k rest ≡ true)
    → Settled desired [] rest at l
Settled-undesired desired rest at [] h = tt
Settled-undesired desired rest at (i ∷ l) h = (
  (let here = h at in ground (arith, nat_eq.equal_iff at at)),
  Settled-undesired desired rest (suc at) l (λ k n. h k (ground arith)),
)

-- An index in front of the list plays no role.
Settled-before :
    (desired : Desired) (gone : List Slot) (x : ℕ × ℕ) (rest : List (ℕ × ℕ)) (at : ℕ)
    (l : List Instance)
    → x.0 < at
    → Settled desired gone (x ∷ rest) at l
    → Settled desired gone rest at l
Settled-before desired gone x rest at [] lt h = tt
Settled-before desired gone x rest at (i ∷ l) lt h =
    (ground (arith, h.0), Settled-before desired gone x rest (suc at) l (omega arith) h.1)

Settled-index :
    (desired : Desired) (gone : List Slot) (x : ℕ × ℕ) (rest : List (ℕ × ℕ)) (at idx : ℕ)
    (l : List Instance)
    → x.0 ≡ at + idx
    → ((i : Instance) → get_elem? l idx ≡ some i → (is_stopping i || contains gone (slot i)) ≡ true)
    → Settled desired gone (x ∷ rest) at l
    → Settled desired gone rest at l
Settled-index desired gone x rest at idx [] e c h = tt
Settled-index desired gone x rest at zero (i ∷ l) e c h =
    (ground (arith, c i refl), Settled-before desired gone x rest (suc at) l (omega arith) h.1)
Settled-index desired gone x rest at (suc idx) (i ∷ l) e c h =
    (ground (arith, h.0), Settled-index desired gone x rest (suc at) idx l (omega arith) c h.1)

Settled-more :
    (desired : Desired) (gone : List Slot) (s : Slot) (rest : List (ℕ × ℕ)) (at : ℕ)
    (l : List Instance)
    → Settled desired gone rest at l
    → Settled desired (gone ++ s ∷ []) rest at l
Settled-more desired gone s rest at [] h = tt
Settled-more desired gone s rest at (i ∷ l) h = (
  ground (arith, h.0, any-append (λ t. t == slot i) gone (s ∷ [])),
  Settled-more desired gone s rest (suc at) l h.1,
)

Settled-stop_at :
    (desired : Desired) (gone : List Slot) (rest : List (ℕ × ℕ)) (now at idx : ℕ)
    (l : List Instance)
    → Settled desired gone rest at l
    → Settled desired gone rest at (stop_at now false idx l).0
unfolding stop_at begin_stop
Settled-stop_at desired gone rest now at idx [] h = tt
Settled-stop_at desired gone rest now at zero (i ∷ l) h = (ground arith, h.1)
Settled-stop_at desired gone rest now at (suc idx) (i ∷ l) h =
    (h.0, Settled-stop_at desired gone rest now (suc at) idx l h.1)

stop_at-is_stopping :
    (now idx : ℕ) (l : List Instance) (i : Instance)
    → get_elem? (stop_at now false idx l).0 idx ≡ some i
    → is_stopping i ≡ true
unfolding stop_at begin_stop
stop_at-is_stopping now idx [] i h = cc
stop_at-is_stopping now zero (j ∷ l) i h = cc
stop_at-is_stopping now (suc idx) (j ∷ l) i h = stop_at-is_stopping now idx l i h

abbrev SettledSweep : Desired → List (ℕ × ℕ) → Sweep → Type 0
SettledSweep desired rest s = Settled desired s.remove rest 0 s.instances

sweep_one-Settled :
    (desired : Desired) (now idx replica : ℕ) (rest : List (ℕ × ℕ)) (s : Sweep)
    (o : Option Instance)
    → get_elem? s.instances idx ≡ o
    → SettledSweep desired ((idx, replica) ∷ rest) s
    → SettledSweep desired rest (map_or o s (λ i. sweep_one now idx i s))
sweep_one-Settled desired now idx replica rest s none e h =
    Settled-index desired s.remove (idx, replica) rest 0 idx s.instances (omega arith) (λ i k. cc) h
sweep_one-Settled desired now idx replica rest s (some i) e h =
    by (is_running i) refl (i.phase == Phase.terminating) refl
  where
    by :
        (b : Bool)
        → is_running i ≡ b
        → (t : Bool) → (i.phase == Phase.terminating) ≡ t
        → SettledSweep desired rest (
            if b
            then (if t
                then s
                else (let (l, e) = stop_at now false idx s.instances in
                    record s { instances = l; effects = s.effects ++ e }))
            else record s { remove = s.remove ++ slot i ∷ [] })
    by true p true q =
        Settled-index desired s.remove (idx, replica) rest 0 idx s.instances (omega arith)
          (λ j k. ground arith) h
    by true p false q =
        Settled-index desired s.remove (idx, replica) rest 0 idx
          (stop_at now false idx s.instances).0 (omega arith)
          (λ j k. ground (arith, stop_at-is_stopping now idx s.instances j k))
          (Settled-stop_at desired s.remove ((idx, replica) ∷ rest) now 0 idx s.instances h)
    by false p t q =
        Settled-index desired (s.remove ++ slot i ∷ []) (idx, replica) rest 0 idx s.instances
          (omega arith)
          (λ j k. ground (
            arith,
            any-append (λ t. t == slot j) s.remove (slot i ∷ []),
            slot_eq.equal_iff (slot i) (slot j),
          ))
          (Settled-more desired s.remove (slot i) ((idx, replica) ∷ rest) 0 s.instances h)

sweep-Settled :
    (desired : Desired) (now : ℕ) (l : List (ℕ × ℕ)) (s : Sweep)
    → SettledSweep desired l s
    → SettledSweep desired [] (sweep now l s)
unfolding sweep
sweep-Settled desired now [] s h = h
sweep-Settled desired now ((idx, replica) ∷ l) s h =
    sweep-Settled desired now l (map_or (get_elem? s.instances idx) s (λ i. sweep_one now idx i s))
      (sweep_one-Settled desired now idx replica l s (get_elem? s.instances idx) refl h)

-- An instance that may stay: its slot is wanted, or it is on its way out.
abbrev pub MayStay : (Slot → Bool) → Instance → Type 0
MayStay wanted i = (wanted (slot i) || is_stopping i) ≡ true

keep_slots-MayStay :
    (desired : Desired) (gone : List Slot) (at : ℕ) (l : List Instance)
    → Settled desired gone [] at l
    → All (MayStay (λ s. is_some (lookup s desired))) (keep_slots gone l)
keep_slots-MayStay desired gone at [] h = tt
keep_slots-MayStay desired gone at (i ∷ l) h =
    by (contains gone (slot i)) refl (keep_slots-MayStay desired gone (suc at) l h.1)
  where
    by :
        (b : Bool)
        → contains gone (slot i) ≡ b
        → All (MayStay (λ s. is_some (lookup s desired))) (keep_slots gone l)
        → All
            (MayStay (λ s. is_some (lookup s desired)))
            (if not b then i ∷ keep_slots gone l else keep_slots gone l)
    by true p k = k
    by false p k = (ground (arith, h.0), k)

pub terminate_undesired-MayStay :
    (w : World) (desired : Desired) (r : Reconciler)
    → All (MayStay (λ s. is_some (lookup s desired))) (terminate_undesired w desired r).0.instances
unfolding terminate_undesired
terminate_undesired-MayStay w desired r =
    let todo = sort_desc (undesired desired 0 r.instances) in
    let start : Sweep = record { instances = r.instances; remove = []; effects = [] } in
    let swept = sweep w.terminate_at todo start in
    keep_slots-MayStay desired swept.remove 0 swept.instances (
      sweep-Settled desired w.terminate_at todo start (
        Settled-undesired desired todo 0 r.instances
          (λ k n. ground (arith, sort_desc-names k (undesired desired 0 r.instances)))))
