-- ===== src/Paths.antt =====
-- crates/artzain-core/src/paths.rs: private folders and files. Modes are 0o700 and 0o600. A file that
-- `open` creates gets the mode that is asked for; one that is there keeps its own. A folder that
-- `create_dir_all` makes has the process's default mode until it is changed.
pub mod Atomic
use artzain.Prelude.{
  ℕ, Bool, true, false, Option, none, some, List, [], ◌∷◌, ◌++◌, Bytes, codes, take, if◌then◌else◌,
  map_or, unwrap_or,
}
use artzain.Disk.{FilePath, FileData, Disk, put_file, set_dir_mode, rename}

abbrev pub private_dir : ℕ
private_dir = 448

abbrev pub private_file : ℕ
private_file = 384

-- Which calls work; `wrote` is the number of bytes written before `write_all` fails.
pub record Outcome : Type 0 where
  pub default_mode : ℕ
  pub dir_created : Bool
  pub dir_secured : Bool
  pub opened : Bool
  pub wrote : Option ℕ
  pub synced : Bool
  pub renamed : Bool
  pub temp_removed : Bool

unfoldable pub ensure_private_dir : Outcome → Bytes → Disk → Bool × Disk
ensure_private_dir o dir d =
    let made = set_dir_mode dir (some (unwrap_or (d.dir_mode dir) o.default_mode)) d in
    if o.dir_created
    then (if o.dir_secured then (true, set_dir_mode dir (some private_dir) made) else (false, made))
    else (false, d)

-- `file_name` followed by `.{pid}.tmp`.
abbrev pub temp_sibling : (pid : Bytes) → FilePath → FilePath
temp_sibling pid (dir, name) = (dir, name ++ (codes "." ++ (pid ++ codes ".tmp")))

abbrev pub opened_mode : FilePath → Disk → ℕ
opened_mode p d = map_or (d.files p) private_file (λ f. f.mode)

-- The states after `open` and after `write_all`.
unfoldable pub write_then_sync : Outcome → FilePath → Bytes → Disk → Bool × List Disk
write_then_sync o tmp contents d =
    let mode = opened_mode tmp d in
    let truncated = put_file tmp (some (record { contents = []; mode = mode })) d in
    let written = map_or o.wrote contents (λ n. take n contents) in
    let filled = put_file tmp (some (record { contents = written; mode = mode })) truncated in
    if o.opened
    then (map_or o.wrote o.synced (λ n. false), truncated ∷ filled ∷ [])
    else (false, [])

abbrev pub last_of : Disk → List Disk → Disk
last_of d [] = d
last_of d (s ∷ l) = last_of s l

-- Each state that the call goes through, the first one first, and whether it succeeds.
abbrev pub replace : Outcome → FilePath → FilePath → Disk → Bool × List Disk → Bool × List Disk
replace o tmp path d (written, states) =
    let s = last_of d states in
    let cleaned = if o.temp_removed then put_file tmp none s else s in
    if written
    then (if o.renamed
        then (true, states ++ rename tmp path s ∷ [])
        else (false, states ++ cleaned ∷ []))
    else (false, states ++ cleaned ∷ [])

unfoldable pub write_private_file :
    Outcome → (pid : Bytes) → FilePath → Bytes → Disk → Bool × List Disk
unfolding ensure_private_dir write_then_sync
write_private_file o pid path contents d =
    let (is_private, s) = ensure_private_dir o path.0 d in
    let tmp = temp_sibling pid path in
    let (written, states) = replace o tmp path s (write_then_sync o tmp contents s) in
    if is_private then (written, s ∷ states) else (false, s ∷ [])

-- `open_private_log_file` and its synchronous version: the file is opened for appending.
unfoldable pub open_private_log_file : Outcome → FilePath → Disk → Bool × Disk
unfolding ensure_private_dir
open_private_log_file o path d =
    let (is_private, s) = ensure_private_dir o path.0 d in
    let there =
      put_file path
        (some (unwrap_or (s.files path) (record { contents = []; mode = private_file }))) s in
    if is_private then (if o.opened then (true, there) else (false, s)) else (false, s)
