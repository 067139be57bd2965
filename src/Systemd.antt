-- ===== src/Systemd.antt =====
-- crates/artzain/src/systemd.rs: the unit file, and `generate_systemd` of crates/artzain/src/main.rs.
-- A text, and the text of a path, is a list of numbers.
pub mod Directives
use artzain.Prelude.{
  ℕ, ◌/◌, Bool, String, Option, none, some, List, [], ◌∷◌, ◌++◌, Bytes, codes, newline, to_string,
  unwrap_or, if◌then◌else◌,
}
use artzain.Reconcile.Instance.{stop_grace}

pub record UnitOptions : Type 0 where
  pub user : Bytes
  pub group : Bytes
  pub manifest : Bytes
  pub binary : Bytes
  pub memory_max : Option Bytes
  pub stop_grace_secs : ℕ

-- One `writeln!` after the other.
abbrev pub write_lines : List Bytes → Bytes
write_lines [] = []
write_lines (line ∷ rest) = line ++ newline ∷ write_lines rest

abbrev pub decimal : ℕ → Bytes
decimal n = codes (to_string n)

abbrev pub memory_line : Option Bytes → List Bytes
memory_line none = []
memory_line (some mem) = (codes "MemoryMax=" ++ mem) ∷ []

abbrev pub install_section : List Bytes
install_section = [] ∷ codes "[Install]" ∷ codes "WantedBy=multi-user.target" ∷ []

abbrev pub unit_lines : UnitOptions → List Bytes
unit_lines o =
    codes "[Unit]"
    ∷ (codes "Description=artzain fleet for " ++ o.manifest)
    ∷ codes "After=network.target"
    ∷ []
    ∷ codes "[Service]"
    ∷ codes "Type=simple"
    ∷ (codes "User=" ++ o.user)
    ∷ (codes "Group=" ++ o.group)
    ∷ (codes "ExecStart=" ++ (o.binary ++ (codes " -f " ++ (o.manifest ++ codes " up"))))
    ∷ codes "Restart=on-failure"
    ∷ codes "RestartSec=5"
    ∷ codes "KillSignal=SIGTERM"
    ∷ (codes "TimeoutStopSec=" ++ decimal o.stop_grace_secs)
    ∷ codes "NoNewPrivileges=true"
    ∷ codes "ProtectSystem=strict"
    ∷ codes "ProtectHome=true"
    ∷ codes "PrivateTmp=true"
    ∷ (memory_line o.memory_max ++ install_section)

unfoldable pub generate_unit : UnitOptions → Bytes
generate_unit o = write_lines (unit_lines o)

-- What is at the path of the unit: nothing, a file, a folder, or something `metadata` fails on.
pub data Target : Type 0 where
  absent a_file a_folder unknown : Target

pub data Installed : Type 0 where
  wrote : (contents : Bytes) → Installed
  is_a_directory no_metadata not_written : Installed

abbrev pub write_unit : (writes : Bool) → Bytes → Installed
write_unit writes content = if writes then wrote content else not_written

unfoldable pub install_unit : Target → (writes : Bool) → Bytes → Installed
install_unit absent writes content = write_unit writes content
install_unit a_file writes content = write_unit writes content
install_unit a_folder writes content = is_a_directory
install_unit unknown writes content = no_metadata

abbrev pub default_binary : Bytes
default_binary = codes "/usr/local/bin/artzain"

-- What `generate_systemd` is given on the command line, next to the file of `-f`.
pub record Flags : Type 0 where
  pub user : Option Bytes
  pub group : Option Bytes
  pub manifest : Option Bytes
  pub binary : Option Bytes
  pub memory_max : Option Bytes
  pub install : Bool

unfoldable pub unit_options : (file : Bytes) → Flags → UnitOptions
unit_options file f =
    let user = unwrap_or f.user (codes "artzain") in
    record {
      user = user;
      group = unwrap_or f.group user;
      manifest = unwrap_or f.manifest file;
      binary = unwrap_or f.binary default_binary;
      memory_max = f.memory_max;
      stop_grace_secs = stop_grace / 1000;
    }

pub data Generated : Type 0 where
  printed : Bytes → Generated
  installed : Installed → Generated

unfoldable pub generate_systemd : (file : Bytes) → Flags → Target → (writes : Bool) → Generated
unfolding generate_unit install_unit unit_options
generate_systemd file f target writes =
    let unit = generate_unit (unit_options file f) in
    if f.install then installed (install_unit target writes unit) else printed unit
