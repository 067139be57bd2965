-- ===== src/Process/Child/Privileges.antt =====
-- crates/artzain-core/src/process.rs: the program that `spawn` starts runs with the user, the group and
-- the limits that were asked for.
use artzain.Prelude.{
  ℕ, ◌≡◌, ◌≤◌, ◌<◌, ◌*◌, ◌^◌, refl, Bool, true, Option, none, some, [], map_or, unwrap_or, is_some,
  if◌then◌else◌, ◌>>=◌, >>=-eq-some, ap, sym, ◌∙◌, arith,
}
use artzain.Manifest.{Limits}
use artzain.Process.{Spawn, Handle}
use artzain.Process.Child.{
  Creds, setgroups, setgid, setuid, rlimit_nofile, rlimit_as, replace_image, Kernel, memory_bytes,
  drop_group, drop_user, limit_files, limit_memory, apply_limits, pre_exec, Command, command, spawn,
}
use artzain.Process.Child.Wanted.{
  effect, Effective, Permissive, asked_files, asked_memory, wanted, limited,
}
use artzain.Process.Child.Permitted.{pre_exec-privileged}

module _ (kernel : Kernel) (effective : Effective kernel) where
  drop_group-eq :
      (gid : Option ℕ) (c d : Creds)
      → drop_group kernel gid c ≡ some d
      → d ≡ record c { gid = unwrap_or gid c.gid; groups = if is_some gid then [] else c.groups }
  drop_group-eq none c d h = cc
  drop_group-eq (some g) c d h =
      let (e, (first, second)) = >>=-eq-some (kernel c setgroups) (λ e. kernel e (setgid g)) d h in
      effective e (setgid g) d second
      ∙ ap (λ e. effect e (setgid g)) (effective c setgroups e first)

  drop_user-eq :
      (uid : Option ℕ) (c d : Creds)
      → drop_user kernel uid c ≡ some d
      → d ≡ record c { uid = unwrap_or uid c.uid }
  drop_user-eq none c d h = cc
  drop_user-eq (some u) c d h = effective c (setuid u) d h

  limit_files-eq :
      (nofile : Option ℕ) (c d : Creds)
      → limit_files kernel nofile c ≡ some d
      → d ≡ record c { open_files = unwrap_or nofile c.open_files }
  limit_files-eq none c d h = cc
  limit_files-eq (some n) c d h = effective c (rlimit_nofile n) d h

  limit_memory-eq :
      (memory_mb : Option ℕ) (c d : Creds)
      → limit_memory kernel memory_mb c ≡ some d
      → d ≡ record c { address_space = map_or memory_mb c.address_space memory_bytes }
  limit_memory-eq none c d h = cc
  limit_memory-eq (some n) c d h = effective c (rlimit_as (memory_bytes n)) d h

  apply_limits-eq :
      (limits : Option Limits) (c d : Creds)
      → apply_limits kernel limits c ≡ some d
      → d ≡ limited limits c
  apply_limits-eq none c d h = cc
  apply_limits-eq (some l) c d h =
      let (e, (first, second)) =
        >>=-eq-some (limit_files kernel l.open_files c) (limit_memory kernel l.memory_mb) d h in
      let at_e = limit_files-eq l.open_files c e first in
      limit_memory-eq l.memory_mb e d second
      ∙ ap
          (λ (e : Creds). record e {
            address_space = map_or l.memory_mb e.address_space memory_bytes;
          })
          at_e

  pre_exec-wanted : (s : Spawn) (c d : Creds) → pre_exec kernel s c ≡ some d → d ≡ wanted s c
  unfolding pre_exec
  pre_exec-wanted s c d h =
      let (e, (first, rest)) =
        >>=-eq-some (drop_group kernel s.gid c)
          (λ e. drop_user kernel s.uid e >>= apply_limits kernel s.limits) d h in
      let (f, (second, third)) =
        >>=-eq-some (drop_user kernel s.uid e) (apply_limits kernel s.limits) d rest in
      apply_limits-eq s.limits f d third
      ∙ (ap (limited s.limits) (drop_user-eq s.uid e f second)
          ∙ ap (λ (e : Creds). limited s.limits (record e { uid = unwrap_or s.uid e.uid }))
              (drop_group-eq s.gid c e first))

-- What the spawn request asks for, with its memory in bytes.
abbrev pub asked : Spawn → Creds → Creds
asked s c = record {
  uid = unwrap_or s.uid c.uid;
  gid = unwrap_or s.gid c.gid;
  groups = if is_some s.gid then [] else c.groups;
  open_files = unwrap_or (asked_files s) c.open_files;
  address_space = map_or (asked_memory s) c.address_space (λ n. n * 1024 * 1024);
}

wanted-asked :
    (s : Spawn) (c : Creds)
    → ((n : ℕ) → asked_memory s ≡ some n → n < 2 ^ 44)
    → wanted s c ≡ asked s c
wanted-asked s c small =
    ap
      (λ m. record {
        uid = unwrap_or s.uid c.uid;
        gid = unwrap_or s.gid c.gid;
        groups = if is_some s.gid then [] else c.groups;
        open_files = unwrap_or (asked_files s) c.open_files;
        address_space = m;
      })
      (by (asked_memory s) small)
  where
    by :
        (o : Option ℕ)
        → ((n : ℕ) → o ≡ some n → n < 2 ^ 44)
        → map_or o c.address_space memory_bytes ≡ map_or o c.address_space (λ n. n * 1024 * 1024)
    by none h = refl
    by (some n) h = let few = h n refl in omega arith

-- A child that `spawn` hands out leads its own process group, the one of its handle, and runs with the
-- user, the group, no further groups where a group was asked for, and the limits that were asked for;
-- where nothing was asked, with those of the supervisor. The memory that was asked for is less than
-- 2 ^ 44 MiB, and the calls that work have their documented effect.
pub spawn-wanted :
    (kernel : Kernel) (effective : Effective kernel) (fork : Option ℕ)
    (execs : Command → Creds → Bool) (parent_group : ℕ) (s : Spawn) (c d : Creds) (h : Handle)
    (g : ℕ)
    → ((n : ℕ) → asked_memory s ≡ some n → n < 2 ^ 44)
    → spawn kernel fork execs parent_group s c ≡ some (h, g, d)
    → (d ≡ asked s c) × ((fork ≡ some h.child) × ((g ≡ h.child) × (h.pgid ≡ g)))
unfolding spawn command
spawn-wanted kernel effective fork execs parent_group s c d h g small e =
    let (pid, (forked, rest)) =
      >>=-eq-some fork (λ pid. pre_exec kernel s c >>= replace_image execs parent_group s pid)
        (h, g, d) e in
    let (f, (set_up, replaced)) =
      >>=-eq-some (pre_exec kernel s c) (replace_image execs parent_group s pid) (h, g, d) rest in
    let (is_f, (same, led)) = image pid f replaced in
    (
      sym is_f ∙ (pre_exec-wanted kernel effective s c f set_up ∙ wanted-asked s c small),
      (
        forked ∙ ap some (sym (ap (λ h. h.child) same)),
        (led ∙ sym (ap (λ h. h.child) same), ap (λ h. h.pgid) same ∙ sym led),
      ),
    )
  where
    image :
        (pid : ℕ) (f : Creds)
        → replace_image execs parent_group s pid f ≡ some (h, g, d)
        → (f ≡ d) × ((h ≡ record { child = pid; pgid = pid }) × (g ≡ pid))
    image pid f r = ground arith

-- A privileged supervisor, whose kernel must allow its calls and whose own limits are not below those
-- asked for, gets its child, which leads its own process group, with the credentials and limits asked
-- for, when the process can be forked and the program be run.
pub spawn-privileged :
    (kernel : Kernel) (permissive : Permissive kernel) (pid : ℕ) (execs : Command → Creds → Bool)
    (parent_group : ℕ) (s : Spawn) (c : Creds)
    → c.uid ≡ 0
    → ((n : ℕ) → asked_files s ≡ some n → n ≤ c.open_files)
    → ((n : ℕ) → asked_memory s ≡ some n → memory_bytes n ≤ c.address_space)
    → execs (command s) (wanted s c) ≡ true
    → spawn kernel (some pid) execs parent_group s c
      ≡ some (record { child = pid; pgid = pid }, pid, wanted s c)
unfolding spawn command
spawn-privileged kernel permissive pid execs parent_group s c root files memory runs =
    ap (λ o. o >>= replace_image execs parent_group s pid)
      (pre_exec-privileged kernel permissive s c root files memory)
    ∙ ap (λ b. if b then some (handle, pid, wanted s c) else none) runs
  where
    handle : Handle
    handle = record { child = pid; pgid = pid }
