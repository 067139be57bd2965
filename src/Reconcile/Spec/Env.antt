-- ===== src/Reconcile/Spec/Env.antt =====
-- Which layer of the environment wins, and what a relaunch depends on.
use artzain.Prelude.{
  ◌≡◌, refl, ℕ, String, Option, none, some, [], ◌∷◌, lookup, insert, lookup-insert, arith,
  string_eq, if◌then◌else◌, ◌==◌, to_string,
}
use artzain.Manifest.{Manifest, App, string_key}
use artzain.Reconcile.Spec.{Env, extend, instance_env, inherit_base, inherit_extra, base_env_keys}

-- The last entry for a key wins.
abbrev pub lookup_last : String → Env → Option String
lookup_last k [] = none
lookup_last k ((j, v) ∷ l) = elim (lookup_last k l) [
  | some w ↦ some w
  | none ↦ if j == k then some v else none
]

abbrev pub or_else : Option String → Option String → Option String
or_else (some v) d = some v
or_else none d = d

lookup-extend :
    (k : String) (env l : Env) → lookup k (extend env l) ≡ or_else (lookup_last k l) (lookup k env)
unfolding extend
lookup-extend k env [] = refl
lookup-extend k env ((j, v) ∷ l) =
    ground (arith, lookup-extend k (insert j v env) l, lookup-insert j k v env)

-- The variables that the instance's own pointers set.
abbrev pub pointer : App → ℕ → ℕ → String → Option String
pointer a replica port k =
    if "ARTZAIN_REPLICA" == k
    then some (to_string replica)
    else (if "ARTZAIN_APP" == k
        then some a.name
        else (if "PORT" == k then some (to_string port) else none))

-- The precedence of the child's environment: the instance's pointers, then the app's table, then
-- the defaults' table, then what is inherited, in which an extra key replaces a base key.
pub instance_env-precedence :
    (getenv : String → Option String) (m : Manifest) (a : App) (replica port : ℕ) (k : String)
    → lookup k (instance_env getenv m a replica port)
      ≡ or_else (pointer a replica port k) (
          or_else (lookup_last k a.env) (
            or_else (lookup_last k m.defaults.env) (
              lookup k (
                inherit_extra getenv m.defaults.inherit_env
                  (inherit_base getenv base_env_keys [])))))
unfolding instance_env
instance_env-precedence getenv m a replica port k =
    let base = inherit_extra getenv m.defaults.inherit_env (inherit_base getenv base_env_keys []) in
    let one = extend base m.defaults.env in
    let two = extend one a.env in
    let three = insert "PORT" (to_string port) two in
    let four = insert "ARTZAIN_APP" a.name three in
    ground (
      arith,
      lookup-insert "ARTZAIN_REPLICA" k (to_string replica) four,
      lookup-insert "ARTZAIN_APP" k a.name three,
      lookup-insert "PORT" k (to_string port) two,
      lookup-extend k one a.env,
      lookup-extend k base m.defaults.env,
    )
