-- ===== src/Tests/Children.antt =====
-- The child's set-up, the account lookup and the unit file.
use artzain.Prelude.{
  ℕ, ◌≡◌, refl, Bool, true, none, some, String, [], ◌∷◌, Bytes, codes, ltb, leb, if◌then◌else◌,
  ◌==◌, nat_eq, arith,
}
use artzain.Process.{Spawn, Handle}
use artzain.Process.Child.{
  Creds, Call, setgroups, setgid, setuid, rlimit_nofile, rlimit_as, Kernel, Command, spawn,
}
use artzain.Process.Child.Wanted.{effect, Effective, Permissive, wanted}
use artzain.Process.Child.Privileges.{asked, spawn-wanted, spawn-privileged}
use artzain.Manifest.Accounts.{Answer, found, missing, erange, to_option, lookup_user, lookup_group}
use artzain.Manifest.Accounts.Found.{lookup_user-answered}
use artzain.Systemd.{Flags, absent, generate_unit, unit_options, generate_systemd}
use artzain.Systemd.Directives.{directive, unit_of, generate_systemd-directives}

-- A kernel that lets root change its credentials, and everyone lower a limit.
abbrev may : Creds → Call → Bool
may c setgroups = c.uid == 0
may c (setgid g) = c.uid == 0
may c (setuid u) = c.uid == 0
may c (rlimit_nofile n) = leb n c.open_files
may c (rlimit_as n) = leb n c.address_space

abbrev strict : Kernel
strict c call = if may c call then some (effect c call) else none

strict-Effective : Effective strict
strict-Effective c call d h = ground arith

strict-Permissive : Permissive strict
strict-Permissive c setgroups h = ground (arith, nat_eq.equal_iff c.uid 0)
strict-Permissive c (setgid g) h = ground (arith, nat_eq.equal_iff c.uid 0)
strict-Permissive c (setuid u) h = ground (arith, nat_eq.equal_iff c.uid 0)
strict-Permissive c (rlimit_nofile n) h = ground arith
strict-Permissive c (rlimit_as n) h = ground arith

abbrev root : Creds
root = record {
  uid = 0;
  gid = 0;
  groups = 0 ∷ 4 ∷ [];
  open_files = 1024;
  address_space = 1073741824;
}

abbrev limited_app : Spawn
limited_app = record {
  app = "web";
  replica = 0;
  bin = "/srv/web";
  args = [];
  cwd = "/srv";
  env = ("PORT", "8080") ∷ [];
  log_path = none;
  log_max_bytes = 0;
  log_keep = 1;
  uid = some 1000;
  gid = some 1000;
  limits = some (record { open_files = some 256; memory_mb = some 512 });
}

abbrev runs_all : Command → Creds → Bool
runs_all command c = true

abbrev web_handle : Handle
web_handle = record { child = 77; pgid = 77 }

abbrev web_creds : Creds
web_creds = record {
  uid = 1000;
  gid = 1000;
  groups = [];
  open_files = 256;
  address_space = 536870912;
}

spawned_web : spawn strict (some 77) runs_all 5 limited_app root ≡ some (web_handle, 77, web_creds)
unfolding spawn
spawned_web = refl

spawn-wanted_example :
    (web_creds ≡ asked limited_app root)
    × ((some 77 ≡ some web_handle.child)
        × ((◌≡◌ {A = ℕ} 77 web_handle.child) × (◌≡◌ {A = ℕ} web_handle.pgid 77)))
spawn-wanted_example =
    spawn-wanted strict strict-Effective (some 77) runs_all 5 limited_app root web_creds web_handle
      77 (λ n h. ground arith) spawned_web

spawn-privileged_example :
    spawn strict (some 77) runs_all 5 limited_app root
    ≡ some (record { child = 77; pgid = 77 }, 77, wanted limited_app root)
spawn-privileged_example =
    spawn-privileged strict strict-Permissive 77 runs_all 5 limited_app root refl
      (λ n h. ground arith) (λ n h. ground arith) refl

-- An entry of 5000 bytes: the loop asks three times.
abbrev large_user : String → ℕ → Answer (ℕ × ℕ)
large_user name len = if ltb len 5000 then erange else found (1000, 1000)

abbrev no_group : String → ℕ → Answer ℕ
no_group name len = if ltb len 5000 then erange else missing

lookup_user-answered_example :
    (lookup_user 5001 large_user "web" ≡ some (to_option (found (1000, 1000))))
    × (lookup_group 5001 no_group "web" ≡ some (to_option missing))
lookup_user-answered_example =
    lookup_user-answered 5000 large_user no_group "web" 5000 (found (1000, 1000)) missing refl
      (λ e. cc) (λ e. cc) (λ len. refl) (λ len. refl) (omega arith)

abbrev no_flags : Flags
no_flags = record {
  user = none;
  group = none;
  manifest = none;
  binary = none;
  memory_max = some (codes "512M");
  install = true;
}

abbrev shop_unit : Bytes
shop_unit = generate_unit (unit_options (codes "shop.toml") no_flags)

shop_unit-written :
    unit_of (generate_systemd (codes "shop.toml") no_flags absent true) ≡ some shop_unit
unfolding generate_systemd
shop_unit-written = refl

generate_systemd-directives_example :
    (directive (codes "User=") shop_unit ≡ some (codes "artzain"))
    × ((directive (codes "Group=") shop_unit ≡ some (codes "artzain"))
        × ((directive (codes "ExecStart=") shop_unit
              ≡ some (codes "/usr/local/bin/artzain -f shop.toml up"))
            × ((directive (codes "TimeoutStopSec=") shop_unit ≡ some (codes "10"))
                × (directive (codes "MemoryMax=") shop_unit ≡ some (codes "512M")))))
unfolding unit_options
generate_systemd-directives_example =
    generate_systemd-directives (codes "shop.toml") no_flags absent true shop_unit
      (refl, (refl, (refl, (refl, refl)))) shop_unit-written
