-- ===== src/Tests/Printing.antt =====
-- What is printed: the plan, the status, the logs, the tag of an instance, and the listeners of a port.
use artzain.Prelude.{◌≡◌, refl, true, false, none, some, [], ◌∷◌, ◌++◌, Bytes, codes}
use artzain.Manifest.{Manifest}
use artzain.Manifest.Load.{Loaded}
use artzain.Manifest.Load
use artzain.Manifest.AppOrder.{apps_ordered}
use artzain.Reconcile.Select.{select_apps}
use artzain.LogReader.{Entry, printed, panicked}
use artzain.LogReader
use artzain.Plan.{
  Line, project_line, check_line, app_line, one, window, planned, panicked, plan, state,
}
use artzain.Plan
use artzain.Cli.Status.{title, columns, instance_row, print_status, failure}
use artzain.Cli.Status
use artzain.Cli.Logs.{print_logs, tails}
use artzain.Process.Streams.{color_for, tag, stream_logs, port_listeners}
use artzain.Fixture.{json_object, read_proc_limit}
use artzain.Tests.Sample.{shop, unrelated, dead_state}

plan-shop :
    plan true (λ m p. p) (Load.ok shop) (some ("gateway" ∷ []))
    ≡ planned (
        project_line "local"
        ∷ check_line "postgres" "127.0.0.1:5432"
        ∷ app_line "data" 1 "./data" (one 8080)
        ∷ app_line "gateway" 2 "./gw" (window 9000 9001)
        ∷ [])
unfolding plan select_apps apps_ordered
plan-shop = refl

-- A window that ends at the last port.
abbrev at_the_end : Manifest
at_the_end = record shop {
  checks = [];
  apps = record unrelated { port = 65534; replicas = 2 } ∷ [];
}

plan-panics :
    plan true (λ m p. p) (Load.ok at_the_end) none ≡ Plan.panicked (project_line "local" ∷ [])
unfolding plan select_apps apps_ordered
plan-panics = refl

plan-wraps :
    plan false (λ m p. p) (Load.ok at_the_end) none
    ≡ planned (project_line "local" ∷ app_line "unrelated" 2 "./u" (window 65534 65535) ∷ [])
unfolding plan select_apps apps_ordered
plan-wraps = refl

print_status-dead :
    print_status 10 false true (state dead_state)
    ≡ some (
      title "local" 13 7 ∷ columns ∷ instance_row "unrelated" 1 1 0 7000 "Ready" 0 9 ∷ [],
      Status.success,
    )
unfolding print_status
print_status-dead = refl

abbrev entry : Bytes → Entry
entry name = record { name = name ++ codes ".log"; is_file = true; stem = some name }

print_logs-web :
    print_logs true
      (some (entry (codes "web2-0") ∷ entry (codes "api-0") ∷ entry (codes "web-0") ∷ []))
      (some (codes "web"))
      1
      false
      []
      (λ f. some (some (codes "x") ∷ some f ∷ []))
      (codes "logs")
    ≡ tails
        ((codes "web-0.log", LogReader.printed (codes "web-0.log" ∷ []))
          ∷ (codes "web2-0.log", LogReader.printed (codes "web2-0.log" ∷ []))
          ∷ [])
        none
unfolding print_logs LogReader.log_files LogReader.tail
print_logs-web = refl

tag-web : tag (codes "web") 0 (codes "36") ≡ 27 ∷ (codes "[36m[web/0         ]" ++ 27 ∷ codes "[0m")
unfolding tag
tag-web = refl

-- The bytes of `web` add up to 318, the palette has ten colors.
color_for-web : color_for (codes "web") ≡ codes "95"
unfolding color_for
color_for-web = refl

port_listeners-lines :
    port_listeners (some (codes " 12 " ∷ codes "pid" ∷ codes "-3" ∷ codes "2147483648" ∷ []))
    ≡ (false, 12) ∷ (true, 3) ∷ []
unfolding port_listeners
port_listeners-lines = refl

stream_logs-out :
    (stream_logs
      (codes "t")
      (some (some (codes "a") ∷ none ∷ some (codes "b") ∷ []))
      none
      (some [])
      0
      1
      true).out.sent
    ≡ codes "a" ∷ []
unfolding stream_logs
stream_logs-out = refl

json_object-two :
    json_object ((codes "A", codes "1") ∷ (codes "B", codes "2") ∷ [])
    ≡ codes "{\"A\": \"1\", \"B\": \"2\"}"
unfolding json_object
json_object-two = refl

read_proc_limit-files :
    read_proc_limit
      (codes "Max open files")
      (codes "Limit" ∷ codes "Max open files  256  512  files" ∷ [])
    ≡ codes "256"
unfolding read_proc_limit
read_proc_limit-files = refl
