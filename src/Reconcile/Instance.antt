-- ===== src/Reconcile/Instance.antt =====
-- crates/artzain-core/src/reconcile.rs: one managed process slot, `begin_stop` and
-- `backoff_delay`. An `Instant` and a `Duration` are a number of milliseconds.
pub mod Backoff
use artzain.Prelude.{
  ℕ, zero, suc, ◌+◌, ◌-◌, ◌*◌, ◌^◌, min, Bool, true, false, String, Option, none, some, List, [],
  ◌∷◌, is_some, map_or, Key, Eq, pair_eq, string_eq, nat_eq, ltb, if◌then◌else◌, ◌==◌,
}
use text.Mathlib.Text.{is_lt}
use Prim.Native.String.{compare}
use artzain.Words.{saturating_mul_u64}
use artzain.State.{Phase}
use artzain.Process.{Handle, Effect, terminate}

abbrev pub stop_grace : ℕ
stop_grace = 10000

pub record Instance : Type 0 where
  pub app : String
  pub replica : ℕ
  pub port : ℕ
  pub spec_hash : ℕ
  pub handle : Option Handle
  pub phase : Phase
  pub restarts : ℕ
  pub started_at : Option ℕ
  pub backoff_until : Option ℕ
  pub ready_deadline : Option ℕ
  pub kill_deadline : Option ℕ
  pub restart_after_stop : Bool
  pub consecutive_live_fail : ℕ
  pub next_ready_probe : ℕ
  pub next_live_probe : ℕ
  pub ever_ready : Bool

-- A slot `(app, replica)`, ordered as a pair.
abbrev pub Slot : Type 0
Slot = String × ℕ

instance abbrev pub slot_eq : Eq Slot
slot_eq = pair_eq string_eq nat_eq

instance abbrev pub slot_key : Key Slot
slot_key = record {
  eq = slot_eq;
  before =
      λ s t. if is_lt (compare s.0 t.0) then true else (if s.0 == t.0 then ltb s.1 t.1 else false);
}

abbrev pub slot : Instance → Slot
slot i = (i.app, i.replica)

unfoldable pub new_pending : ℕ → String → ℕ → ℕ → ℕ → Instance
new_pending now app replica port spec_hash = record {
  app = app;
  replica = replica;
  port = port;
  spec_hash = spec_hash;
  handle = none;
  phase = Phase.pending;
  restarts = 0;
  started_at = none;
  backoff_until = none;
  ready_deadline = none;
  kill_deadline = none;
  restart_after_stop = false;
  consecutive_live_fail = 0;
  next_ready_probe = now;
  next_live_probe = now;
  ever_ready = false;
}

abbrev pub is_running : Instance → Bool
is_running i = is_some i.handle

unfoldable pub begin_stop : ℕ → Bool → Instance → Instance × List Effect
begin_stop now respawn i = (
  record i {
    phase = Phase.terminating;
    restart_after_stop = respawn;
    kill_deadline = some (now + stop_grace);
  },
  map_or i.handle [] terminate,
)

-- In milliseconds; `1u64 << shift` is exact, since `shift` is at most 20.
unfoldable pub backoff_delay : ℕ → ℕ → ℕ → ℕ
backoff_delay base_ms cap_ms restarts =
    let shift = min (restarts - 1) 20 in min (saturating_mul_u64 base_ms (2 ^ shift)) cap_ms
