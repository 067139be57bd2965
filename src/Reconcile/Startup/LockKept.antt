-- ===== src/Reconcile/Startup/LockKept.antt =====
-- crates/artzain-core/src/reconcile.rs: what `up` has made of the lock when its loop begins.
use artzain.Prelude.{
  ℕ, ◌≡◌, ◌⊎◌, inl, inr, refl, Bool, true, false, ◌&&◌, String, List, [], ◌∷◌, if◌then◌else◌, arith,
  ◌++◌, ◌+◌, nat_eq, ◌≤◌, subst,
}
use artzain.Manifest.{Manifest}
use artzain.Manifest.Load.{Loaded}
use artzain.Manifest.Load
use artzain.State.{ClusterState}
use artzain.Process.{Effect, sigterm}
use artzain.Lock.{Lock, LockFile, Kill, Acquired, acquire, read, write_lock, drop_lock}
use artzain.Lock
use artzain.Reconcile.Select.{select_apps}
use artzain.Reconcile.Select
use artzain.Reconcile.Reconciler.{Reconciler}
use artzain.Reconcile.Startup.{
  StateFile, absent, unreadable, unparsed, holds, is_alive, Reclaimed, reclaim_orphans, Outset,
  begun, Verified, ok, failed, panicked, after_verify, after_reclaim, after_acquire, after_select,
  after_load, verify_checks, start, give_up, signal_all, groups, await_groups, orphan_reclaim_grace,
}

-- No process can have the id, or there is none with it.
abbrev pub IsDead : (ℕ → Kill) → ℕ → Type 0
IsDead kill_zero pid = (pid ≡ 0) ⊎ ((2147483648 ≤ pid) ⊎ (kill_zero pid ≡ Lock.no_process))

-- The state file names an owner that is dead.
abbrev pub HasOrphans : Outset → Type 0
HasOrphans o = (s : ClusterState) × ((o.state_file ≡ holds s) × IsDead o.kill_zero s.owner_pid)

-- The lock file, when the loop begins: gone, or this process's.
abbrev pub LockLeft : Outset → LockFile → Type 0
LockLeft o file =
    ((HasOrphans o × (o.removals.lock_removed ≡ true)) × (file ≡ Lock.absent))
    ⊎ (((¬ HasOrphans o) ⊎ (o.removals.lock_removed ≡ false)) × (file ≡ Lock.holds o.own))

missing-IsDead :
    (kill_zero : ℕ → Kill) (pid : ℕ)
    → (Lock.is_positive_i32 pid && is_alive (kill_zero pid)) ≡ false
    → IsDead kill_zero pid
missing-IsDead kill_zero pid h = by (kill_zero pid) refl h
  where
    range : (Lock.is_positive_i32 pid && true) ≡ false → IsDead kill_zero pid
    range g = ground (arith, nat_eq.equal_iff pid 0, g)

    by :
        (k : Kill)
        → kill_zero pid ≡ k
        → (Lock.is_positive_i32 pid && is_alive k) ≡ false
        → IsDead kill_zero pid
    by Lock.no_process e g = inr (inr e)
    by Lock.delivered e g = range g
    by Lock.no_permission e g = range g

alive-IsDead :
    (kill_zero : ℕ → Kill) (pid : ℕ)
    → (Lock.is_positive_i32 pid && is_alive (kill_zero pid)) ≡ true
    → ¬ IsDead kill_zero pid
alive-IsDead kill_zero pid h (inl z) = ground (arith, nat_eq.equal_iff pid 0)
alive-IsDead kill_zero pid h (inr (inl big)) = ground arith
alive-IsDead kill_zero pid h (inr (inr none_there)) = ground arith

reclaim-LockLeft :
    (o : Outset) (f : StateFile)
    → o.state_file ≡ f
    → LockLeft o
        (reclaim_orphans o.kill_zero o.now o.looks o.removals f (Lock.holds o.own)).lock_file
unfolding reclaim_orphans
reclaim-LockLeft o absent e = inr (inl (λ orphans. let h = orphans.1.0 in cc), refl)
reclaim-LockLeft o unreadable e = inr (inl (λ orphans. let h = orphans.1.0 in cc), refl)
reclaim-LockLeft o unparsed e = inr (inl (λ orphans. let h = orphans.1.0 in cc), refl)
reclaim-LockLeft o (holds s) e =
    by (Lock.is_positive_i32 s.owner_pid && is_alive (o.kill_zero s.owner_pid)) refl
  where
    FileLeft : Reclaimed → Type 0
    FileLeft x = LockLeft o x.lock_file

    no_orphans :
        (Lock.is_positive_i32 s.owner_pid && is_alive (o.kill_zero s.owner_pid)) ≡ true
        → ¬ HasOrphans o
    no_orphans p (t, (h, dead)) =
        let same : t.owner_pid ≡ s.owner_pid = cc in
        alive-IsDead o.kill_zero s.owner_pid p (subst (IsDead o.kill_zero) same dead)

    removed :
        (b : Bool)
        → o.removals.lock_removed ≡ b
        → HasOrphans o
        → LockLeft o (if b then Lock.absent else Lock.holds o.own)
    removed true r orphans = inl ((orphans, r), refl)
    removed false r orphans = inr (inr r, refl)

    by :
        (b : Bool)
        → (Lock.is_positive_i32 s.owner_pid && is_alive (o.kill_zero s.owner_pid)) ≡ b
        → FileLeft (
            if b
            then record {
              is_ok = true;
              state_file = holds s;
              lock_file = Lock.holds o.own;
              effects = [];
            }
            else record {
              is_ok = true;
              state_file = if o.removals.state_removed then absent else holds s;
              lock_file = if o.removals.lock_removed then Lock.absent else Lock.holds o.own;
              effects =
                  signal_all sigterm (groups s.apps)
                  ++ await_groups (o.now + orphan_reclaim_grace) o.looks (groups s.apps);
            })
    by true p = inr (inl (no_orphans p), refl)
    by false p =
        removed o.removals.lock_removed refl (s, (e, missing-IsDead o.kill_zero s.owner_pid p))

acquire-own :
    (kill_zero : ℕ → Kill) (own got : Lock) (written : Bool) (file left : LockFile)
    → acquire kill_zero own written file ≡ (Lock.ok got, left)
    → left ≡ Lock.holds own
unfolding acquire read write_lock drop_lock
acquire-own kill_zero own got written file left e = ground arith

verified-file :
    (o : Outset) (m : Manifest) (selected : List String) (x : Reclaimed) (v : Verified)
    (r : Reconciler) (lf : LockFile) (sf : StateFile) (e : List Effect)
    → after_verify o m selected x v ≡ begun r lf sf e
    → lf ≡ x.lock_file
verified-file o m selected x (ok checks) r lf sf e h = cc
verified-file o m selected x (failed l) r lf sf e h = cc
verified-file o m selected x panicked r lf sf e h = cc

reclaimed-file :
    (o : Outset) (m : Manifest) (selected : List String) (x : Reclaimed) (r : Reconciler)
    (lf : LockFile) (sf : StateFile) (e : List Effect)
    → after_reclaim o m selected x ≡ begun r lf sf e
    → lf ≡ x.lock_file
reclaimed-file o m selected x r lf sf e h = by x.is_ok h
  where
    by :
        (b : Bool)
        → (if b
            then after_verify o m selected x (verify_checks o.world m)
            else give_up o.own x.lock_file)
          ≡ begun r lf sf e
        → lf ≡ x.lock_file
    by true k = verified-file o m selected x (verify_checks o.world m) r lf sf e k
    by false k = cc

acquired-LockLeft :
    (o : Outset) (m : Manifest) (selected : List String) (a : Acquired) (file : LockFile)
    (r : Reconciler) (lf : LockFile) (sf : StateFile) (e : List Effect)
    → acquire o.kill_zero o.own o.written o.lock_file ≡ (a, file)
    → after_acquire o m selected (a, file) ≡ begun r lf sf e
    → LockLeft o lf
acquired-LockLeft o m selected (Lock.ok own) file r lf sf e q h =
    let mine = acquire-own o.kill_zero o.own own o.written o.lock_file file q in
    let same =
      reclaimed-file o m selected
        (reclaim_orphans o.kill_zero o.now o.looks o.removals o.state_file file) r lf sf e h in
    rw (same, mine) (reclaim-LockLeft o o.state_file refl)
acquired-LockLeft o m selected (Lock.already_running p) file r lf sf e q h = cc
acquired-LockLeft o m selected Lock.not_read file r lf sf e q h = cc
acquired-LockLeft o m selected Lock.not_parsed file r lf sf e q h = cc
acquired-LockLeft o m selected Lock.not_written file r lf sf e q h = cc

selected-LockLeft :
    (o : Outset) (m : Manifest) (s : Select.Result (List String)) (r : Reconciler) (lf : LockFile)
    (sf : StateFile) (e : List Effect)
    → after_select o m s ≡ begun r lf sf e
    → LockLeft o lf
selected-LockLeft o m (Select.ok []) r lf sf e h = cc
selected-LockLeft o m (Select.ok (n ∷ l)) r lf sf e h =
    acquired-LockLeft o m (n ∷ l) (acquire o.kill_zero o.own o.written o.lock_file).0
      (acquire o.kill_zero o.own o.written o.lock_file).1 r lf sf e refl h
selected-LockLeft o m (Select.unknown_app n) r lf sf e h = cc
selected-LockLeft o m Select.out_of_fuel r lf sf e h = cc

loaded-LockLeft :
    (o : Outset) (x : Loaded) (r : Reconciler) (lf : LockFile) (sf : StateFile) (e : List Effect)
    → after_load o x ≡ begun r lf sf e
    → LockLeft o lf
loaded-LockLeft o (Load.ok m) r lf sf e h = selected-LockLeft o m (select_apps m o.only) r lf sf e h
loaded-LockLeft o Load.unreadable r lf sf e h = cc
loaded-LockLeft o Load.unparsed r lf sf e h = cc
loaded-LockLeft o (Load.not_interpolated i) r lf sf e h = cc
loaded-LockLeft o (Load.invalid es) r lf sf e h = cc

-- When the loop of `up` begins, the lock file names this process, unless the state file names an owner
-- whose id no process can have or has (0, from 2 ^ 31 on, or `ESRCH`) and the removal of the lock file,
-- which follows then, works: then it is gone.
pub start-LockLeft :
    (o : Outset) (r : Reconciler) (lf : LockFile) (sf : StateFile) (e : List Effect)
    → start o ≡ begun r lf sf e
    → LockLeft o lf
unfolding start
start-LockLeft o r lf sf e h = loaded-LockLeft o o.loaded r lf sf e h
