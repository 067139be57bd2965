-- ===== src/Manifest/Load.antt =====
-- crates/artzain-core/src/manifest.rs: `Manifest::load` and `Manifest::parse`. The file's text, the
-- toml crate, the process's variables and the account database are given.
use artzain.Prelude.{String, Option, none, some, List, map_or, if◌then◌else◌, ◌==◌, string_eq}
use artzain.Manifest.{Manifest}
use artzain.Manifest.Interpolate.{Code, Interpolated, interpolate_vars}
use artzain.Manifest.Interpolate
use artzain.Manifest.Validate.{Accounts, Error, validate}
use artzain.Manifest.Validate

-- `parse_vars` is the `[vars]` table, empty where the text does not parse.
pub record Toml : Type 0 where
  pub parse_vars : Code → Code → Option Code
  pub parse_manifest : Code → Option Manifest

pub data Loaded : Type 0 where
  ok : Manifest → Loaded
  unreadable unparsed : Loaded
  not_interpolated : Interpolated → Loaded
  invalid : List Error → Loaded

-- The folder of a path, from `Path::parent`.
abbrev pub base_dir_of : Option String → String
base_dir_of parent = map_or parent "." (λ p. if p == "" then "." else p)

abbrev pub after_validate : Validate.Result Manifest → Loaded
after_validate (Validate.ok m) = ok m
after_validate (Validate.invalid es) = invalid es

abbrev pub after_toml : Accounts → Option String → Option Manifest → Loaded
after_toml db parent none = unparsed
after_toml db parent (some m) =
    after_validate (validate db (record m { base_dir = base_dir_of parent }))

abbrev pub after_vars : Accounts → Toml → Option String → Interpolated → Loaded
after_vars db toml parent (Interpolate.ok raw) = after_toml db parent (toml.parse_manifest raw)
after_vars db toml parent i = not_interpolated i

unfoldable pub parse :
    Accounts → Toml → (env_var : Code → Option Code) → (parent : Option String) → Code → Loaded
unfolding interpolate_vars validate
parse db toml env_var parent raw =
    after_vars db toml parent (interpolate_vars env_var (toml.parse_vars raw) raw)

unfoldable pub load :
    Accounts
    → Toml
    → (env_var : Code → Option Code) → (parent : Option String) → (file : Option Code) → Loaded
unfolding parse
load db toml env_var parent file = map_or file unreadable (parse db toml env_var parent)
