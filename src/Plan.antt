-- ===== src/Plan.antt =====
-- crates/artzain-core/src/lib.rs: `plan` and `read_status`. What `plan` prints is a list of lines, each
-- with the parts that it is made of.
pub mod Window
use artzain.Prelude.{
  ℕ, ◌+◌, ◌-◌, Bool, true, false, String, Option, none, some, List, [], ◌∷◌, contains, string_eq,
  nat_eq, ◌==◌, ltb, unwrap_or, if◌then◌else◌, map_or, ◌>>=◌, ◌++◌,
}
use artzain.Words.{as_u16, add_u16, u16_max}
use artzain.State.{ClusterState}
use artzain.Manifest.{Manifest, Check, App, project}
use artzain.Manifest.AppOrder.{apps_ordered}
use artzain.Manifest.AppOrder
use artzain.Manifest.Load.{Loaded}
use artzain.Manifest.Load
use artzain.Reconcile.Select.{select_apps}
use artzain.Reconcile.Select

pub data Ports : Type 0 where
  one : ℕ → Ports
  window : (first last : ℕ) → Ports

-- `app.port + app.replicas as u16 - 1`, on u16: where overflow is checked, the sum panics.
unfoldable pub last_port : (checked : Bool) → (port replicas : ℕ) → Option ℕ
last_port checked port replicas =
    let sum = add_u16 port (as_u16 replicas) in
    let last = if sum == 0 then u16_max else sum - 1 in
    if checked
    then (if ltb u16_max (port + as_u16 replicas)
        then none
        else (if sum == 0 then none else some last))
    else some last

unfoldable pub ports : (checked : Bool) → App → Option Ports
unfolding last_port
ports checked a =
    if a.replicas == 1
    then some (one a.port)
    else map_or (last_port checked a.port a.replicas) none (λ last. some (window a.port last))

pub data Line : Type 0 where
  project_line : String → Line
  check_line : (name target : String) → Line
  app_line : (name : String) → (replicas : ℕ) → (bin : String) → Ports → Line

abbrev pub target : Check → String
target c = elim c.tcp [ some t ↦ t | none ↦ unwrap_or c.http "?" ]

abbrev pub check_lines : List Check → List Line
check_lines [] = []
check_lines (c ∷ l) = check_line c.name (target c) ∷ check_lines l

-- `resolve` is `Manifest::resolve`. The lines of the apps, and whether the loop ends without a panic.
unfoldable pub app_lines :
    (checked : Bool)
    → (resolve : String → String) → (selected : List String) → List App
    → List Line × Bool
unfolding ports
app_lines checked resolve selected [] = ([], true)
app_lines checked resolve selected (a ∷ l) =
    let (lines, ends) = app_lines checked resolve selected l in
    if contains selected a.name
    then map_or (ports checked a) ([], false)
        (λ p. (app_line a.name a.replicas (resolve a.bin) p ∷ lines, ends))
    else (lines, ends)

-- The printed lines come first in each ending that has any.
pub data Planned : Type 0 where
  planned panicked : List Line → Planned
  not_loaded : Loaded → Planned
  not_selected : Select.Result (List String) → Planned
  not_ordered : List Line → AppOrder.Result (List App) → Planned

abbrev pub plan_selected :
    (checked : Bool)
    → (resolve : String → String) → Manifest
    → (selected : List String) → AppOrder.Result (List App)
    → Planned
plan_selected checked resolve m selected (AppOrder.ok apps) =
    let head = project_line (project m) ∷ check_lines m.checks in
    let (lines, ends) = app_lines checked resolve selected apps in
    if ends then planned (head ++ lines) else panicked (head ++ lines)
plan_selected checked resolve m selected x =
    not_ordered (project_line (project m) ∷ check_lines m.checks) x

abbrev pub plan_manifest :
    (checked : Bool)
    → (resolve : String → String) → Manifest
    → Select.Result (List String)
    → Planned
plan_manifest checked resolve m (Select.ok selected) =
    plan_selected checked resolve m selected (apps_ordered m)
plan_manifest checked resolve m x = not_selected x

unfoldable pub plan :
    (checked : Bool)
    → (resolve : Manifest → String → String) → Loaded
    → Option (List String)
    → Planned
unfolding app_lines project
plan checked resolve (Load.ok m) only = plan_manifest checked (resolve m) m (select_apps m only)
plan checked resolve x only = not_loaded x

-- The folder of the cluster's files.
abbrev pub base_of : (parent : Option String) → String
base_of parent = map_or parent "." (λ p. if p == "" then "." else p)

pub data Status : Type 0 where
  state : ClusterState → Status
  no_cluster unparsed : Status

-- `text_of` is the state file below a folder, `from_json` the reading of its JSON text.
unfoldable pub read_status :
    {Text : Type 0}
    → (text_of : String → Option Text) → (from_json : Text → Option ClusterState)
    → (parent : Option String) → Status
read_status text_of from_json parent =
    map_or (text_of (base_of parent)) no_cluster (λ raw. map_or (from_json raw) unparsed state)
