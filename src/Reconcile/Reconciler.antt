-- ===== src/Reconcile/Reconciler.antt =====
-- crates/artzain-core/src/reconcile.rs: the state of the control loop and what it sees of the
-- world. Each operation reads the clock where the source does; a reading is a field of `World`.
use artzain.Prelude.{ℕ, Bool, String, Option, List, [], ◌∷◌, map_or}
use artzain.Manifest.{Manifest, string_key}
use artzain.Process.{Handle, Spawn, Effect, killed_on_drop}
use artzain.Reconcile.Instance.{Instance, Slot, slot_eq}

pub record Reconciler : Type 0 where
  pub manifest : Manifest
  pub manifest_mtime : Option ℕ
  pub pending_mtime : Option ℕ
  pub selected : List String
  pub instances : List Instance
  pub slot_ports : List (Slot × ℕ)
  pub checks_ok : List (String × Bool)
  pub next_check_verify : ℕ

-- `Child::try_wait`: exited, still running, or an error.
pub data Wait : Type 0 where
  exited running failed : Wait

-- The answers of one tick. `at` numbers instances by their place in the list at the time of the
-- call; a clock reading that follows an answer about an instance has its number too.
pub record World : Type 0 where
  pub verify_at : ℕ
  pub reap_at : ℕ
  pub terminate_at : ℕ
  pub block_at : ℕ
  pub roll_at : ℕ
  pub retire_at : ℕ
  pub spawn_at : ℕ
  pub probe_at : ℕ
  pub try_wait : (at : ℕ) → Handle → Wait
  pub exec : (at : ℕ) → Spawn → Option Handle
  pub spawned_at : (at : ℕ) → ℕ
  pub ready_answer : (at : ℕ) → (addr path : String) → Bool
  pub ready_answered_at : (at : ℕ) → ℕ
  pub live_answer : (at : ℕ) → (addr path : String) → Bool
  pub live_answered_at : (at : ℕ) → ℕ
  pub tcp_once : String → Bool
  pub http_once : (addr path : String) → Bool
  pub getenv : String → Option String

-- Desired slots: `(app, replica) -> (port, spec_hash)`, in the order of the keys.
abbrev pub Desired : Type 0
Desired = List (Slot × (ℕ × ℕ))

-- An instance that leaves the list takes its handle along.
abbrev pub drop_effects : Instance → List Effect
drop_effects i = map_or i.handle [] (λ h. killed_on_drop h.child ∷ [])
