-- ===== src/Cli/Status.antt =====
-- crates/artzain/src/main.rs: `print_status`. What it prints is a list of lines, each with the parts
-- that its columns show.
use artzain.Prelude.{ℕ, ◌-◌, Bool, String, Option, none, some, List, [], ◌∷◌, ◌++◌, if◌then◌else◌}
use artzain.State.{ClusterState, AppStatus, InstanceStatus, as_str}
use artzain.Plan.{Status, state}
use artzain.Cli.{check_fails}

pub data Line : Type 0 where
  json : ClusterState → Line
  title : (project : String) (owner_pid age : ℕ) → Line
  columns : Line
  instance_row :
      (app : String) (ready desired replica port : ℕ) (phase : String) (restarts uptime_secs : ℕ)
      → Line
  empty_row : (app : String) (ready desired : ℕ) → Line

unfoldable pub instance_rows : AppStatus → List InstanceStatus → List Line
unfolding as_str
instance_rows a [] = []
instance_rows a (i ∷ l) =
    instance_row a.name a.ready a.desired i.replica i.port (as_str i.phase) i.restarts i.uptime_secs
    ∷ instance_rows a l

unfoldable pub app_rows : AppStatus → List InstanceStatus → List Line
unfolding instance_rows
app_rows a [] = empty_row a.name a.ready a.desired ∷ []
app_rows a (i ∷ l) = instance_rows a (i ∷ l)

unfoldable pub table_rows : List AppStatus → List Line
unfolding app_rows
table_rows [] = []
table_rows (a ∷ l) = app_rows a a.instances ++ table_rows l

pub data Exit : Type 0 where
  success failure : Exit

-- The lines and the exit code, or an error when there is no cluster. The age is a difference of seconds
-- that stops at 0.
unfoldable pub print_status :
    (now : ℕ) → (as_json check : Bool) → Status → Option (List Line × Exit)
unfolding check_fails table_rows
print_status now as_json check (state s) =
    let lines : List Line =
      if as_json
      then json s ∷ []
      else title s.project s.owner_pid (now - s.updated_at) ∷ columns ∷ table_rows s.apps in
    let exit : Exit = if check then (if check_fails s then failure else success) else success in
    some (lines, exit)
print_status now as_json check _ = none
