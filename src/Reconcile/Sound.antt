-- ===== src/Reconcile/Sound.antt =====
-- The invariant of an instance that every operation of the control loop keeps.
pub mod Stops
pub mod Roll
pub mod Launch
pub mod Whole
use artzain.Prelude.{
  ℕ, zero, suc, Bool, true, false, ◌&&◌, ◌||◌, not, Option, none, some, List, [], ◌∷◌, ◌++◌, ◌≡◌,
  refl, if◌then◌else◌, is_some, map_or, All, All-append, All-retain, arith, ◌==◌, Bool-cases, inl,
  inr, Option-cases, get_elem?, String, contains, All-find,
}
use artzain.Manifest.{App, Defaults, app}
use artzain.State.{Phase, phase_eq}
use artzain.Process.{Handle, Effect}
use artzain.Reconcile.Instance.{Instance, Slot, slot, slot_eq, is_running, begin_stop, new_pending}
use artzain.Reconcile.Reconciler.{Reconciler, World, Desired, Wait, exited, running, failed}
use artzain.Reconcile.Reap.{
  Reaped, reap_one, reap_all, reap, reaped_instances, drop_slots, keep_slots, harvest, crash,
  escalate, reap_wait,
}

-- The phases of an instance that has a process, and of one that has none.
abbrev pub phase_fits : Bool → Phase → Bool
phase_fits true Phase.pending = false
phase_fits true Phase.crash_loop_back_off = false
phase_fits true _ = true
phase_fits false Phase.pending = true
phase_fits false Phase.crash_loop_back_off = true
phase_fits false Phase.terminating = true
phase_fits false _ = false

abbrev implies : Bool → Bool → Bool
implies a b = not a || b

pub record IsSound (i : Instance) : Type 0 where
  -- The phase tells whether a process is there; only `Terminating` leaves it open.
  pub fits : phase_fits (is_running i) i.phase ≡ true
  pub started : is_some i.started_at ≡ is_running i
  -- A backed-off instance has a time at which it may start again.
  pub backed_off : implies (i.phase == Phase.crash_loop_back_off) (is_some i.backoff_until) ≡ true
  -- A stop has a time at which it is forced.
  pub killable : implies (i.phase == Phase.terminating) (is_some i.kill_deadline) ≡ true
  -- Liveness is probed of whatever was ready once.
  pub was_ready :
      implies ((i.phase == Phase.ready) || (i.phase == Phase.unready)) i.ever_ready ≡ true

pub begin_stop-IsSound :
    (now : ℕ) (respawn : Bool) (i : Instance) → IsSound i → IsSound (begin_stop now respawn i).0
unfolding begin_stop
begin_stop-IsSound now respawn i v = ground arith

pub new_pending-IsSound :
    (now : ℕ) (s : Slot) (port hash : ℕ) → IsSound (new_pending now s.0 s.1 port hash)
unfolding new_pending
new_pending-IsSound now s port hash = ground arith

reap_wait-IsSound :
    (d : Defaults) (now : ℕ) (h : Handle) (i : Instance) (x : Wait)
    → IsSound i
    → IsSound (reap_wait d now h i x).instance
unfolding harvest escalate crash
reap_wait-IsSound d now h i exited v = ground arith
reap_wait-IsSound d now h i running v = ground arith
reap_wait-IsSound d now h i failed v = v

pub reap_one-IsSound :
    (d : Defaults) (w : World) (at : ℕ) (i : Instance)
    → IsSound i
    → IsSound (reap_one d w at i).instance
unfolding reap_one
reap_one-IsSound d w at i v = by_handle i.handle refl
  where
    by_handle :
        (o : Option Handle)
        → i.handle ≡ o
        → IsSound
            (map_or o
              (record { instance = i; drops = false; effects = [] })
              (λ h. reap_wait d w.reap_at h i (w.try_wait at h))).instance
    by_handle none e = v
    by_handle (some h) e = reap_wait-IsSound d w.reap_at h i (w.try_wait at h) v

reap_all-IsSound :
    (d : Defaults) (w : World) (at : ℕ) (l : List Instance)
    → All IsSound l
    → All IsSound (reaped_instances (reap_all d w at l))
unfolding reap_all
reap_all-IsSound d w at [] v = tt
reap_all-IsSound d w at (i ∷ l) v =
    (reap_one-IsSound d w at i v.0, reap_all-IsSound d w (suc at) l v.1)

abbrev pub AllSound : Reconciler → Type 0
AllSound r = All IsSound r.instances

pub reap-AllSound : (w : World) (r : Reconciler) → AllSound r → AllSound (reap w r).0
unfolding reap
reap-AllSound w r v =
    let reaped = reap_all r.manifest.defaults w 0 r.instances in
    All-retain IsSound (λ i. not (contains (drop_slots reaped) (slot i))) (reaped_instances reaped)
      (reap_all-IsSound r.manifest.defaults w 0 r.instances v)
