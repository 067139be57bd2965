-- ===== src/Manifest.antt =====
-- crates/artzain-core/src/manifest.rs: the desired state. Texts that are compared whole are
-- `String`; a path is its text. A `BTreeMap` is a dictionary of the shared module.
pub mod Interpolate
pub mod Load
pub mod Validate
pub mod AppOrder
pub mod Accounts
use artzain.Prelude.{
  ℕ, ◌*◌, Bool, String, Option, none, some, List, [], ◌==◌, find, Key, string_eq, nat_eq, ltb,
  unwrap_or,
}
use text.Mathlib.Text.{is_lt}
use Prim.Native.String.{compare}

instance abbrev pub string_key : Key String
string_key = record { eq = string_eq; before = λ a b. is_lt (compare a b) }

instance abbrev pub nat_key : Key ℕ
nat_key = record { eq = nat_eq; before = ltb }

pub record Limits : Type 0 where
  pub open_files : Option ℕ
  pub memory_mb : Option ℕ

pub record Check : Type 0 where
  pub name : String
  pub tcp : Option String
  pub http : Option String
  pub hint : Option String

pub record Defaults : Type 0 where
  pub env : List (String × String)
  pub inherit_env : List String
  pub restart_backoff_ms : ℕ
  pub restart_backoff_max_ms : ℕ
  pub stable_after_secs : ℕ
  pub max_surge : ℕ
  pub log_max_bytes : ℕ
  pub log_keep : ℕ

pub record App : Type 0 where
  pub name : String
  pub bin : String
  pub args : List String
  pub dir : Option String
  pub replicas : ℕ
  pub port : ℕ
  pub env : List (String × String)
  pub depends_on : List String
  pub ready_path : String
  pub live_path : String
  pub ready_timeout : ℕ
  pub live_period : ℕ
  pub live_failures : ℕ
  pub user : Option String
  pub group : Option String
  pub limits : Option Limits
  pub uid : Option ℕ
  pub gid : Option ℕ

pub record Manifest : Type 0 where
  pub project : Option String
  pub vars : List (String × String)
  pub defaults : Defaults
  pub checks : List Check
  pub apps : List App
  pub base_dir : String

abbrev pub default_defaults : Defaults
default_defaults = record {
  env = [];
  inherit_env = [];
  restart_backoff_ms = 500;
  restart_backoff_max_ms = 30000;
  stable_after_secs = 10;
  max_surge = 0;
  log_max_bytes = 10 * 1024 * 1024;
  log_keep = 3;
}

-- What serde fills in for an `[[app]]` that gives only its name, binary and port.
abbrev pub default_app : String → String → ℕ → App
default_app name bin port = record {
  name = name;
  bin = bin;
  args = [];
  dir = none;
  replicas = 1;
  port = port;
  env = [];
  depends_on = [];
  ready_path = "/__ready";
  live_path = "/__health";
  ready_timeout = 60;
  live_period = 5;
  live_failures = 3;
  user = none;
  group = none;
  limits = none;
  uid = none;
  gid = none;
}

unfoldable pub project : Manifest → String
project m = unwrap_or m.project "local"

-- `Manifest::app`.
abbrev pub app : Manifest → String → Option App
app m name = find (λ a. a.name == name) m.apps

abbrev pub is_app : Manifest → String → Bool
is_app m name = elim (app m name) [ none ↦ Bool.false | some a ↦ Bool.true ]
