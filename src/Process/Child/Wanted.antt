-- ===== src/Process/Child/Wanted.antt =====
-- crates/artzain-core/src/process.rs: the calls of the pre-exec closure, and the credentials that a spawn
-- request asks for.
use artzain.Prelude.{ℕ, ◌≡◌, ◌≤◌, Option, none, some, [], map_or, unwrap_or, is_some, if◌then◌else◌}
use artzain.Manifest.{Limits}
use artzain.Process.{Spawn}
use artzain.Process.Child.{
  Creds, Call, setgroups, setgid, setuid, rlimit_nofile, rlimit_as, Kernel, memory_bytes,
}

-- What a call does when it works.
abbrev pub effect : Creds → Call → Creds
effect c setgroups = record c { groups = [] }
effect c (setgid g) = record c { gid = g }
effect c (setuid u) = record c { uid = u }
effect c (rlimit_nofile n) = record c { open_files = n }
effect c (rlimit_as n) = record c { address_space = n }

-- Calls that work have their documented effect.
abbrev pub Effective : Kernel → Type 0
Effective kernel =
    (c : Creds) (call : Call) (d : Creds) → kernel c call ≡ some d → d ≡ effect c call

-- Whether the kernel must allow the call: credentials are root's to change, and a limit may be lowered.
abbrev pub Permitted : Creds → Call → Type 0
Permitted c setgroups = c.uid ≡ 0
Permitted c (setgid g) = c.uid ≡ 0
Permitted c (setuid u) = c.uid ≡ 0
Permitted c (rlimit_nofile n) = n ≤ c.open_files
Permitted c (rlimit_as n) = n ≤ c.address_space

abbrev pub Permissive : Kernel → Type 0
Permissive kernel =
    (c : Creds) (call : Call) → Permitted c call → kernel c call ≡ some (effect c call)

abbrev pub asked_limit : (Limits → Option ℕ) → Option Limits → Option ℕ
asked_limit f none = none
asked_limit f (some l) = f l

-- The limits that a spawn request asks for.
abbrev pub asked_files : Spawn → Option ℕ
asked_files s = asked_limit (λ l. l.open_files) s.limits

abbrev pub asked_memory : Spawn → Option ℕ
asked_memory s = asked_limit (λ l. l.memory_mb) s.limits

-- The credentials asked for: where nothing is asked, those of the supervisor.
abbrev pub wanted : Spawn → Creds → Creds
wanted s c = record {
  uid = unwrap_or s.uid c.uid;
  gid = unwrap_or s.gid c.gid;
  groups = if is_some s.gid then [] else c.groups;
  open_files = unwrap_or (asked_files s) c.open_files;
  address_space = map_or (asked_memory s) c.address_space memory_bytes;
}

abbrev pub limited : Option Limits → Creds → Creds
limited l c = record c {
  open_files = unwrap_or (asked_limit (λ l. l.open_files) l) c.open_files;
  address_space = map_or (asked_limit (λ l. l.memory_mb) l) c.address_space memory_bytes;
}
