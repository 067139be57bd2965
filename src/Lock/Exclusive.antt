-- ===== src/Lock/Exclusive.antt =====
-- crates/artzain-core/src/lock.rs: processes that take and drop the lock one after the other.
use artzain.Prelude.{
  ℕ, ◌≡◌, refl, Bool, true, false, not, ◌&&◌, List, [], ◌∷◌, if◌then◌else◌, ◌==◌, nat_eq, arith,
  contains, retain,
}
use artzain.Lock.{
  Lock, LockFile, absent, holds, Kill, delivered, no_permission, no_process, is_delivered,
  is_pid_alive, Acquired, ok, acquire, drop_lock,
}

pub data Op : Type 0 where
  take : Lock → (written : Bool) → Op
  release : Lock → Op

-- The file, and the processes that hold the lock.
pub record Locking : Type 0 where
  pub file : LockFile
  pub holders : List ℕ

abbrev pub note : ℕ → Acquired → List ℕ → List ℕ
note pid (ok l) holders = pid ∷ holders
note pid _ holders = holders

abbrev pub is_granted : Acquired → Bool
is_granted (ok l) = true
is_granted _ = false

module _ (kill_zero : ℕ → Kill) where
  unfoldable pub apply : Op → Locking → Locking
  unfolding acquire drop_lock
  apply (take own written) s =
      let (a, file) = acquire kill_zero own written s.file in
      record { file = file; holders = note own.pid a s.holders }
  apply (release own) s =
      if contains s.holders own.pid
      then record {
        file = drop_lock own s.file;
        holders = retain (λ p. not (p == own.pid)) s.holders;
      }
      else s

  unfoldable pub apply_all : List Op → Locking → Locking
  unfolding apply
  apply_all [] s = s
  apply_all (o ∷ l) s = apply_all l (apply o s)

-- The file names each process that holds the lock.
abbrev pub IsHeld : Locking → Type 0
IsHeld s = (p : ℕ) → contains s.holders p ≡ true → (l : Lock) × ((s.file ≡ holds l) × (l.pid ≡ p))

module _ (kill_zero : ℕ → Kill) where
  abbrev alive : ℕ → Bool
  alive = is_pid_alive kill_zero

  -- The processes that take part are alive.
  abbrev pub op_pid : Op → ℕ
  op_pid (take own written) = own.pid
  op_pid (release own) = own.pid

  abbrev pub all_alive : List Op → Bool
  all_alive [] = true
  all_alive (o ∷ l) = is_pid_alive kill_zero (op_pid o) && all_alive l

  abbrev HoldersAlive : Locking → Type 0
  HoldersAlive s = (p : ℕ) → contains s.holders p ≡ true → alive p ≡ true

  abbrev Locked : Locking → Type 0
  Locked s = IsHeld s × HoldersAlive s

  -- Every call of `acquire` gets the lock.
  unfoldable pub all_granted : List Op → Locking → Bool
  unfolding apply
  all_granted [] s = true
  all_granted (take own written ∷ l) s =
      is_granted (acquire kill_zero own written s.file).0
      && all_granted l (apply kill_zero (take own written) s)
  all_granted (release own ∷ l) s = all_granted l (apply kill_zero (release own) s)

  abbrev at : LockFile → List ℕ → Locking
  at file holders = record { file = file; holders = holders }

pub drop_lock_self : (l : Lock) → drop_lock l (holds l) ≡ absent
unfolding drop_lock
drop_lock_self l = ground (arith, nat_eq.equal_iff l.pid l.pid)

pub is_delivered_sound : (k : Kill) → is_delivered k ≡ true → k ≡ delivered
is_delivered_sound delivered h = refl
is_delivered_sound no_permission h = cc
is_delivered_sound no_process h = cc
