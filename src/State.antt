-- ===== src/State.antt =====
-- crates/artzain-core/src/state.rs: the phases of an instance and the observable state. The JSON
-- text of the state file is serde's.
use artzain.Prelude.{ℕ, Bool, true, false, String, Option, List, Eq, ◌≡◌, ◌↔◌, arith}

pub data Phase : Type 0 where
  pending starting ready unready crash_loop_back_off terminating : Phase

abbrev pub phase_beq : Phase → Phase → Bool
phase_beq Phase.pending Phase.pending = true
phase_beq Phase.starting Phase.starting = true
phase_beq Phase.ready Phase.ready = true
phase_beq Phase.unready Phase.unready = true
phase_beq Phase.crash_loop_back_off Phase.crash_loop_back_off = true
phase_beq Phase.terminating Phase.terminating = true
phase_beq _ _ = false

pub phase_beq_iff : (a b : Phase) → (phase_beq a b ≡ true) ↔ (a ≡ b)
phase_beq_iff a b = ground arith

instance abbrev pub phase_eq : Eq Phase
phase_eq = record { equal = phase_beq; equal_iff = phase_beq_iff }

-- `Phase::as_str`.
unfoldable pub as_str : Phase → String
as_str Phase.pending = "Pending"
as_str Phase.starting = "Starting"
as_str Phase.ready = "Ready"
as_str Phase.unready = "Unready"
as_str Phase.crash_loop_back_off = "CrashLoopBackOff"
as_str Phase.terminating = "Terminating"

pub record InstanceStatus : Type 0 where
  pub replica : ℕ
  pub port : ℕ
  pub phase : Phase
  pub pid : Option ℕ
  pub pgid : Option ℕ
  pub restarts : ℕ
  pub uptime_secs : ℕ

pub record AppStatus : Type 0 where
  pub name : String
  pub desired : ℕ
  pub ready : ℕ
  pub instances : List InstanceStatus

pub record ClusterState : Type 0 where
  pub state_version : ℕ
  pub project : String
  pub owner_pid : ℕ
  pub updated_at : ℕ
  pub apps : List AppStatus
