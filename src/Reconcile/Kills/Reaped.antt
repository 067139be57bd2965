-- ===== src/Reconcile/Kills/Reaped.antt =====
-- crates/artzain-core/src/reconcile.rs: what `reap` kills.
use artzain.Prelude.{
  ℕ, suc, ◌+◌, ◌≡◌, ◌≤◌, refl, Bool, true, false, not, ◌||◌, Option, none, some, List, [], ◌∷◌,
  map_or, if◌then◌else◌, arith, ltb, leb, ◌==◌, ==_sound, All, All-append, get_elem?,
}
use artzain.Manifest.{Defaults}
use artzain.State.{Phase, phase_eq}
use artzain.Process.{Handle, Effect, signalled, killed_on_drop, sigterm, sigkill, kill}
use artzain.Reconcile.Instance.{Instance}
use artzain.Reconcile.Reconciler.{Reconciler, World, Wait, exited, running, failed}
use artzain.Reconcile.Reap.{
  Reaped, harvest, escalate, crash, reap_wait, reap_one, reap_all, reap, reaped_effects,
  removed_effects, drop_slots, reaped_instances,
}
use artzain.Reconcile.Kills.Gentle.{Gentle, removed_effects-Gentle}

-- An instance that may be killed, as its group: it is being stopped, its deadline is over, and its
-- process still runs.
abbrev pub Overdue : World → ℕ → Instance → (pgid : ℕ) → Type 0
Overdue w at i pgid =
    (i.phase ≡ Phase.terminating)
    × ((dl : ℕ) × ((i.kill_deadline ≡ some dl)
          × ((dl ≤ w.reap_at)
              × ((h : Handle) × ((i.handle ≡ some h)
                    × ((h.pgid ≡ pgid) × (w.try_wait at h ≡ running)))))))

-- A SIGKILL is for an overdue instance of the list, whose place counts from `from`.
abbrev pub KillIsLate : World → (from : ℕ) → List Instance → Effect → Type 0
KillIsLate w from l (signalled pgid sigterm) = Unit
KillIsLate w from l (signalled pgid sigkill) =
    (at n : ℕ) × ((n ≡ from + at)
      × ((i : Instance) × ((get_elem? l at ≡ some i) × Overdue w n i pgid)))
KillIsLate w from l (killed_on_drop child) = Unit

abbrev pub KillsAreLate : World → (from : ℕ) → List Instance → List Effect → Type 0
KillsAreLate w from l = All (KillIsLate w from l)

pub Gentle-KillsAreLate :
    (w : World) (from : ℕ) (l : List Instance) (es : List Effect)
    → Gentle es
    → KillsAreLate w from l es
Gentle-KillsAreLate w from l [] h = tt
Gentle-KillsAreLate w from l (signalled pgid sigterm ∷ es) h =
    (tt, Gentle-KillsAreLate w from l es h)
Gentle-KillsAreLate w from l (signalled pgid sigkill ∷ es) h = cc
Gentle-KillsAreLate w from l (killed_on_drop child ∷ es) h = (tt, Gentle-KillsAreLate w from l es h)

shift_late :
    (w : World) (from : ℕ) (i : Instance) (l : List Instance) (es : List Effect)
    → KillsAreLate w (suc from) l es
    → KillsAreLate w from (i ∷ l) es
shift_late w from i l [] h = tt
shift_late w from i l (signalled pgid sigterm ∷ es) h = (tt, shift_late w from i l es h.1)
shift_late w from i l (signalled pgid sigkill ∷ es) ((at, n, (e, late)), rest) =
    ((suc at, n, (omega (arith, e), late)), shift_late w from i l es rest)
shift_late w from i l (killed_on_drop child ∷ es) h = (tt, shift_late w from i l es h.1)

module _ (w : World) (at : ℕ) (i : Instance) (rest : List Instance) where
  kill_late : (h : Handle) → Overdue w at i h.pgid → KillsAreLate w at (i ∷ rest) (kill h)
  kill_late h late = by_positive (ltb 0 h.pgid)
    where
      by_positive :
          (b : Bool)
          → KillsAreLate w at (i ∷ rest) (if b then signalled h.pgid sigkill ∷ [] else [])
      by_positive false = tt
      by_positive true = ((0, at, (omega arith, (i, (refl, late)))), tt)

  escalate_late :
      (h : Handle)
      → i.handle ≡ some h
      → w.try_wait at h ≡ running
      → KillsAreLate w at (i ∷ rest) (escalate w.reap_at h i).effects
  unfolding escalate
  escalate_late h has runs = by_phase (i.phase == Phase.terminating) refl
    where
      FineReap : Reaped → Type 0
      FineReap x = KillsAreLate w at (i ∷ rest) x.effects

      stay : Reaped
      stay = record { instance = i; drops = false; effects = [] }

      over : ℕ → Reaped
      over dl =
          if leb dl w.reap_at
          then record {
            instance = record i { kill_deadline = some (w.reap_at + 2000) };
            drops = false;
            effects = kill h;
          }
          else stay

      by_time :
          (dl : ℕ) (b : Bool)
          → leb dl w.reap_at ≡ b
          → i.phase ≡ Phase.terminating
          → i.kill_deadline ≡ some dl
          → FineReap (
              if b
              then record {
                instance = record i { kill_deadline = some (w.reap_at + 2000) };
                drops = false;
                effects = kill h;
              }
              else stay)
      by_time dl false t stopping due = tt
      by_time dl true t stopping due =
          kill_late h (stopping, (dl, (due, (ground arith, (h, (has, (refl, runs)))))))

      by_deadline :
          (o : Option ℕ)
          → i.kill_deadline ≡ o
          → i.phase ≡ Phase.terminating
          → FineReap (map_or o stay over)
      by_deadline none due stopping = tt
      by_deadline (some dl) due stopping = by_time dl (leb dl w.reap_at) refl stopping due

      by_phase :
          (b : Bool)
          → (i.phase == Phase.terminating) ≡ b
          → FineReap (if b then map_or i.kill_deadline stay over else stay)
      by_phase false t = tt
      by_phase true t = by_deadline i.kill_deadline refl (==_sound i.phase Phase.terminating t)

  reap_wait_late :
      (d : Defaults) (h : Handle) (x : Wait)
      → i.handle ≡ some h
      → w.try_wait at h ≡ x
      → KillsAreLate w at (i ∷ rest) (reap_wait d w.reap_at h i x).effects
  unfolding harvest
  reap_wait_late d h exited has e =
      by_phase (not (i.phase == Phase.terminating) || i.restart_after_stop)
    where
      FineReap : Reaped → Type 0
      FineReap x = KillsAreLate w at (i ∷ rest) x.effects

      by_phase :
          (b : Bool)
          → FineReap (
              if b
              then record { instance = crash d w.reap_at i; drops = false; effects = [] }
              else record {
                instance = record i { handle = none; started_at = none; ever_ready = false };
                drops = true;
                effects = [];
              })
      by_phase true = tt
      by_phase false = tt
  reap_wait_late d h running has e = escalate_late h has e
  reap_wait_late d h failed has e = tt

  reap_one_late : (d : Defaults) → KillsAreLate w at (i ∷ rest) (reap_one d w at i).effects
  unfolding reap_one
  reap_one_late d = by_handle i.handle refl
    where
      by_handle :
          (o : Option Handle)
          → i.handle ≡ o
          → KillsAreLate w at
              (i ∷ rest)
              (map_or o
                (record { instance = i; drops = false; effects = [] })
                (λ h. reap_wait d w.reap_at h i (w.try_wait at h))).effects
      by_handle none has = tt
      by_handle (some h) has = reap_wait_late d h (w.try_wait at h) has refl

reap_all_late :
    (d : Defaults) (w : World) (at : ℕ) (l : List Instance)
    → KillsAreLate w at l (reaped_effects (reap_all d w at l))
unfolding reap_all
reap_all_late d w at [] = tt
reap_all_late d w at (i ∷ rest) =
    let more = reaped_effects (reap_all d w (suc at) rest) in
    All-append (KillIsLate w at (i ∷ rest)) (reap_one d w at i).effects more
      (reap_one_late w at i rest d) (shift_late w at i rest more (reap_all_late d w (suc at) rest))

pub reap_late : (w : World) (r : Reconciler) → KillsAreLate w 0 r.instances (reap w r).1
unfolding reap
reap_late w r =
    let reaped = reap_all r.manifest.defaults w 0 r.instances in
    let gone = drop_slots reaped in
    let dropped = removed_effects gone (reaped_instances reaped) in
    All-append (KillIsLate w 0 r.instances) (reaped_effects reaped) dropped
      (reap_all_late r.manifest.defaults w 0 r.instances)
      (Gentle-KillsAreLate w 0 r.instances dropped
        (removed_effects-Gentle gone (reaped_instances reaped)))
