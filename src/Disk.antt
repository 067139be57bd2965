-- ===== src/Disk.antt =====
-- The files that the program writes, as the standard library's `fs` calls change them. Whether a call
-- works is decided by the caller of a model function. A path is its folder and its file name.
use artzain.Prelude.{
  ℕ, Bool, Option, none, Bytes, bytes_eq, true, ◌&&◌, ◌≡◌, ◌↔◌, pair_beq_iff, if◌then◌else◌, ◌==◌,
}

abbrev pub FilePath : Type 0
FilePath = Bytes × Bytes

unfoldable pub same_path : FilePath → FilePath → Bool
same_path p q = p.0 == q.0 && p.1 == q.1

pub same_path_iff : (p q : FilePath) → (same_path p q ≡ true) ↔ (p ≡ q)
unfolding same_path
same_path_iff p q = pair_beq_iff bytes_eq bytes_eq p q

pub record FileData : Type 0 where
  pub contents : Bytes
  pub mode : ℕ

pub record Disk : Type 0 where
  pub files : FilePath → Option FileData
  pub dir_mode : Bytes → Option ℕ

abbrev pub put_file : FilePath → Option FileData → Disk → Disk
put_file p f d = record d { files = λ q. if same_path p q then f else d.files q }

abbrev pub set_dir_mode : Bytes → Option ℕ → Disk → Disk
set_dir_mode dir mode d = record d { dir_mode = λ q. if dir == q then mode else d.dir_mode q }

-- `rename`, of a file that is there.
abbrev pub rename : FilePath → FilePath → Disk → Disk
rename src dst d = put_file dst (d.files src) (put_file src none d)
