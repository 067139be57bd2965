-- ===== src/Process/Child/Permitted.antt =====
-- crates/artzain-core/src/process.rs: a privileged supervisor's pre-exec closure succeeds.
use artzain.Prelude.{
  ℕ, ◌≡◌, ◌≤◌, refl, Option, none, some, [], map_or, unwrap_or, is_some, if◌then◌else◌, ◌>>=◌, ap,
  ◌∙◌,
}
use artzain.Manifest.{Limits}
use artzain.Process.{Spawn}
use artzain.Process.Child.{
  Creds, setgroups, setgid, setuid, rlimit_nofile, rlimit_as, Kernel, memory_bytes, drop_group,
  drop_user, limit_files, limit_memory, apply_limits, pre_exec,
}
use artzain.Process.Child.Wanted.{
  effect, Permissive, asked_limit, asked_files, asked_memory, wanted, limited,
}

-- A result handed on to the next call.
then_eq {ℓ} :
    {A : Type ℓ} (o : Option A) (f : A → Option A) (a b : A)
    → o ≡ some a
    → f a ≡ some b
    → (o >>= f) ≡ some b
then_eq o f a b first second = ap (λ o. o >>= f) first ∙ second

module _ (kernel : Kernel) (permissive : Permissive kernel) where
  abbrev grouped : Option ℕ → Creds → Creds
  grouped gid c = record c {
    gid = unwrap_or gid c.gid;
    groups = if is_some gid then [] else c.groups;
  }

  drop_group-privileged :
      (gid : Option ℕ) (c : Creds) → c.uid ≡ 0 → drop_group kernel gid c ≡ some (grouped gid c)
  drop_group-privileged none c root = refl
  drop_group-privileged (some g) c root =
      then_eq (kernel c setgroups) (λ d. kernel d (setgid g)) (effect c setgroups)
        (grouped (some g) c) (permissive c setgroups root)
        (permissive (effect c setgroups) (setgid g) root)

  drop_user-privileged :
      (uid : Option ℕ) (c : Creds)
      → c.uid ≡ 0
      → drop_user kernel uid c ≡ some (record c { uid = unwrap_or uid c.uid })
  drop_user-privileged none c root = refl
  drop_user-privileged (some u) c root = permissive c (setuid u) root

  limit_files-privileged :
      (nofile : Option ℕ) (c : Creds)
      → ((n : ℕ) → nofile ≡ some n → n ≤ c.open_files)
      → limit_files kernel nofile c ≡ some (record c { open_files = unwrap_or nofile c.open_files })
  limit_files-privileged none c low = refl
  limit_files-privileged (some n) c low = permissive c (rlimit_nofile n) (low n refl)

  limit_memory-privileged :
      (memory_mb : Option ℕ) (c : Creds)
      → ((n : ℕ) → memory_mb ≡ some n → memory_bytes n ≤ c.address_space)
      → limit_memory kernel memory_mb c
        ≡ some (record c { address_space = map_or memory_mb c.address_space memory_bytes })
  limit_memory-privileged none c low = refl
  limit_memory-privileged (some n) c low = permissive c (rlimit_as (memory_bytes n)) (low n refl)

  apply_limits-privileged :
      (l : Option Limits) (c : Creds)
      → ((n : ℕ) → asked_limit (λ l. l.open_files) l ≡ some n → n ≤ c.open_files)
      → ((n : ℕ) → asked_limit (λ l. l.memory_mb) l ≡ some n → memory_bytes n ≤ c.address_space)
      → apply_limits kernel l c ≡ some (limited l c)
  apply_limits-privileged none c files memory = refl
  apply_limits-privileged (some l) c files memory =
      let d : Creds = record c { open_files = unwrap_or l.open_files c.open_files } in
      then_eq (limit_files kernel l.open_files c) (limit_memory kernel l.memory_mb) d
        (limited (some l) c) (limit_files-privileged l.open_files c files)
        (limit_memory-privileged l.memory_mb d memory)

  pub pre_exec-privileged :
      (s : Spawn) (c : Creds)
      → c.uid ≡ 0
      → ((n : ℕ) → asked_files s ≡ some n → n ≤ c.open_files)
      → ((n : ℕ) → asked_memory s ≡ some n → memory_bytes n ≤ c.address_space)
      → pre_exec kernel s c ≡ some (wanted s c)
  unfolding pre_exec
  pre_exec-privileged s c root files memory =
      let d = grouped s.gid c in
      let e : Creds = record d { uid = unwrap_or s.uid d.uid } in
      then_eq (drop_group kernel s.gid c)
        (λ d. drop_user kernel s.uid d >>= apply_limits kernel s.limits) d (wanted s c)
        (drop_group-privileged s.gid c root)
        (then_eq (drop_user kernel s.uid d) (apply_limits kernel s.limits) e (wanted s c)
          (drop_user-privileged s.uid d root) (apply_limits-privileged s.limits e files memory))
