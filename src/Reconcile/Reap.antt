-- ===== src/Reconcile/Reap.antt =====
-- crates/artzain-core/src/reconcile.rs: `Reconciler::reap`.
use artzain.Prelude.{
  ℕ, suc, ◌+◌, ◌-◌, ◌*◌, Bool, true, false, ◌||◌, not, none, some, List, [], ◌∷◌, ◌++◌, map_or,
  if◌then◌else◌, leb, ◌==◌, contains, retain,
}
use artzain.Words.{add_u32}
use artzain.Manifest.{Defaults}
use artzain.State.{Phase, phase_eq}
use artzain.Process.{Handle, Effect, kill}
use artzain.Reconcile.Instance.{Instance, Slot, slot, slot_eq, backoff_delay}
use artzain.Reconcile.Reconciler.{Reconciler, World, Wait, exited, running, failed, drop_effects}

-- What becomes of an instance: it, whether its slot is dropped, and the signals.
pub record Reaped : Type 0 where
  pub instance : Instance
  pub drops : Bool
  pub effects : List Effect

abbrev pub uptime : ℕ → Instance → ℕ
uptime now i = map_or i.started_at 0 (λ t. now - t)

-- `Ok(Some(status))`, with `respawn`.
unfoldable pub crash : Defaults → ℕ → Instance → Instance
crash d now i =
    let before = if leb (d.stable_after_secs * 1000) (uptime now i) then 0 else i.restarts in
    let restarts = add_u32 before 1 in
    record i {
      handle = none;
      started_at = none;
      ever_ready = false;
      restarts = restarts;
      backoff_until =
          some (now + backoff_delay d.restart_backoff_ms d.restart_backoff_max_ms restarts);
      phase = Phase.crash_loop_back_off;
      restart_after_stop = false;
    }

unfoldable pub harvest : Defaults → ℕ → Instance → Reaped
unfolding crash
harvest d now i =
    if not (i.phase == Phase.terminating) || i.restart_after_stop
    then record { instance = crash d now i; drops = false; effects = [] }
    else record {
      instance = record i { handle = none; started_at = none; ever_ready = false };
      drops = true;
      effects = [];
    }

-- `Ok(None)`: SIGKILL for a stop that was ignored for too long, and again every two seconds.
unfoldable pub escalate : ℕ → Handle → Instance → Reaped
escalate now h i =
    if i.phase == Phase.terminating
    then map_or i.kill_deadline (record { instance = i; drops = false; effects = [] })
        (λ dl.
          if leb dl now
          then record {
            instance = record i { kill_deadline = some (now + 2000) };
            drops = false;
            effects = kill h;
          }
          else record { instance = i; drops = false; effects = [] })
    else record { instance = i; drops = false; effects = [] }

abbrev pub reap_wait : Defaults → ℕ → Handle → Instance → Wait → Reaped
reap_wait d now h i exited = harvest d now i
reap_wait d now h i running = escalate now h i
reap_wait d now h i failed = record { instance = i; drops = false; effects = [] }

unfoldable pub reap_one : Defaults → World → ℕ → Instance → Reaped
unfolding harvest escalate
reap_one d w at i =
    map_or i.handle (record { instance = i; drops = false; effects = [] })
      (λ h. reap_wait d w.reap_at h i (w.try_wait at h))

unfoldable pub reap_all : Defaults → World → ℕ → List Instance → List Reaped
unfolding reap_one
reap_all d w at [] = []
reap_all d w at (i ∷ l) = reap_one d w at i ∷ reap_all d w (suc at) l

abbrev pub reaped_instances : List Reaped → List Instance
reaped_instances [] = []
reaped_instances (x ∷ l) = x.instance ∷ reaped_instances l

abbrev pub drop_slots : List Reaped → List Slot
drop_slots [] = []
drop_slots (x ∷ l) = if x.drops then slot x.instance ∷ drop_slots l else drop_slots l

abbrev pub reaped_effects : List Reaped → List Effect
reaped_effects [] = []
reaped_effects (x ∷ l) = x.effects ++ reaped_effects l

-- `retain(|i| !slots.contains(&(i.app, i.replica)))`, and what the removed instances drop.
abbrev pub keep_slots : List Slot → List Instance → List Instance
keep_slots slots = retain (λ i. not (contains slots (slot i)))

abbrev pub removed_effects : List Slot → List Instance → List Effect
removed_effects slots [] = []
removed_effects slots (i ∷ l) =
    (if contains slots (slot i) then drop_effects i else []) ++ removed_effects slots l

unfoldable pub reap : World → Reconciler → Reconciler × List Effect
unfolding reap_all
reap w r =
    let reaped = reap_all r.manifest.defaults w 0 r.instances in
    let gone = drop_slots reaped in
    (
      record r { instances = keep_slots gone (reaped_instances reaped) },
      reaped_effects reaped ++ removed_effects gone (reaped_instances reaped),
    )
