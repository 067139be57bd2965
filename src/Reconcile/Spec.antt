-- ===== src/Reconcile/Spec.antt =====
-- crates/artzain-core/src/reconcile.rs: the environment of an instance and the hash of its spec.
-- The standard library's `DefaultHasher` is a parameter: a function of the items fed to it. The
-- variables of the parent process are a function too.
pub mod Env
use artzain.Prelude.{
  ℕ, Bool, true, false, String, Option, none, some, List, [], ◌∷◌, ◌++◌, map, insert, if◌then◌else◌,
  ◌==◌, string_eq, to_string, map_or, unwrap_or,
}
use artzain.Manifest.{Manifest, App, string_key}

abbrev pub Env : Type 0
Env = List (String × String)

abbrev pub base_env_keys : List String
base_env_keys = "PATH" ∷ "HOME" ∷ "TMPDIR" ∷ "USER" ∷ "LOGNAME" ∷ "SHELL" ∷ "LANG" ∷ "LC_ALL" ∷ []

abbrev pub default_path : String
default_path = "/usr/local/bin:/usr/bin:/bin"

-- `for (k, v) in ... { env.insert(k, v); }`
unfoldable pub extend : Env → Env → Env
extend env [] = env
extend env ((k, v) ∷ l) = extend (insert k v env) l

abbrev pub insert_some : String → Option String → Env → Env
insert_some k none env = env
insert_some k (some v) env = insert k v env

unfoldable pub inherit_base : (String → Option String) → List String → Env → Env
inherit_base getenv [] env = env
inherit_base getenv (k ∷ l) env = inherit_base getenv l (
    if k == "PATH"
    then insert k (unwrap_or (getenv "PATH") default_path) env
    else insert_some k (getenv k) env)

unfoldable pub inherit_extra : (String → Option String) → List String → Env → Env
inherit_extra getenv [] env = env
inherit_extra getenv (k ∷ l) env = inherit_extra getenv l (insert_some k (getenv k) env)

-- The three variables that are set for each instance.
abbrev pub pointers : App → ℕ → ℕ → Env → Env
pointers a replica port env =
    insert "ARTZAIN_REPLICA" (to_string replica)
      (insert "ARTZAIN_APP" a.name (insert "PORT" (to_string port) env))

unfoldable pub instance_env : (String → Option String) → Manifest → App → ℕ → ℕ → Env
unfolding extend inherit_base inherit_extra to_string
instance_env getenv m a replica port =
    let base = inherit_base getenv base_env_keys [] in
    let inherited = inherit_extra getenv m.defaults.inherit_env base in
    pointers a replica port (extend (extend inherited m.defaults.env) a.env)

unfoldable pub configured_env : Manifest → App → ℕ → ℕ → Env
unfolding extend to_string
configured_env m a replica port = pointers a replica port (extend (extend [] m.defaults.env) a.env)

-- What is fed to the hasher.
pub data Item : Type 0 where
  text : String → Item
  texts : List String → Item
  optional : Option String → Item
  number : ℕ → Item

abbrev pub Hasher : Type 0
Hasher = List Item → ℕ

unfoldable pub env_items : Env → List Item
env_items [] = []
env_items ((k, v) ∷ l) = text k ∷ text v ∷ env_items l

unfoldable pub spec_items : Manifest → App → ℕ → ℕ → List Item
unfolding env_items configured_env
spec_items m a replica port =
    text a.bin
    ∷ texts a.args
    ∷ optional a.dir
    ∷ number port
    ∷ text a.ready_path
    ∷ text a.live_path
    ∷ number a.live_period
    ∷ number a.live_failures
    ∷ number a.ready_timeout
    ∷ env_items (configured_env m a replica port)

unfoldable pub spec_hash : Hasher → Manifest → App → ℕ → ℕ → ℕ
unfolding spec_items
spec_hash hasher m a replica port = hasher (spec_items m a replica port)
