-- ===== src/LogWriter.antt =====
-- crates/artzain-core/src/process.rs: `log_writer` and `rotate_log`. The files of one log are numbered:
-- 0 is the active file, n the one with the extension `log.n`. Whether removing, renaming and opening work
-- is given; writing, whose result the source ignores, is taken to work. The lines of a child come from
-- one channel.
pub mod Rotation
pub mod Bounded
pub mod Segments
use artzain.Prelude.{
  ℕ, zero, suc, ◌+◌, ◌-◌, Bool, true, false, ◌&&◌, Option, none, some, List, [], ◌∷◌, ◌++◌, Bytes,
  newline, if◌then◌else◌, ◌==◌, nat_eq, leb, ltb, is_some, unwrap_or, length,
}

abbrev pub Files : Type 0
Files = ℕ → Option Bytes

abbrev pub put : ℕ → Option Bytes → Files → Files
put i c f = λ j. if i == j then c else f j

abbrev pub contents : Files → ℕ → Bytes
contents f i = unwrap_or (f i) []

abbrev pub move : ℕ → ℕ → Files → Files
move src dst f = put dst (f src) (put src none f)

-- `for i in (1..keep - 1).rev()`, from `i` down to 1. `renames i` tells whether renaming file `i` works.
unfoldable pub shift : (renames : ℕ → Bool) → ℕ → Files → Bool × Files
shift renames zero f = (true, f)
shift renames (suc i) f =
    let moved = shift renames i (move (suc i) (suc (suc i)) f) in
    let skipped = shift renames i f in
    if is_some (f (suc i)) then (if renames (suc i) then moved else (false, f)) else skipped

-- `remove_file`, whose result is ignored.
abbrev pub remove : (removes : Bool) → ℕ → Files → Files
remove removes i f = if removes then put i none f else f

-- Renaming a file that is not there is an error.
unfoldable pub rotate_log :
    (removes : Bool) → (renames : ℕ → Bool) → (keep : ℕ) → Files → Bool × Files
unfolding shift
rotate_log removes renames keep f =
    let (shifted, g) = shift renames (keep - 2) (remove removes (keep - 1) f) in
    if leb keep 1
    then (true, remove removes 0 f)
    else (if shifted
        then (if is_some (g 0) && renames 0 then (true, move 0 1 g) else (false, g))
        else (false, g))

pub record Writer : Type 0 where
  pub files : Files
  pub is_open : Bool
  pub size : ℕ

-- A line, and how the calls that it leads to go.
pub record Line : Type 0 where
  pub text : Bytes
  pub removes : Bool
  pub renames : ℕ → Bool
  pub reopens : Bool

abbrev pub line_len : Line → ℕ
line_len l = length l.text + 1

abbrev pub write_line : Line → Writer → Writer
write_line l w =
    if w.is_open
    then record {
      files = put 0 (some (contents w.files 0 ++ (l.text ++ newline ∷ []))) w.files;
      is_open = true;
      size = w.size + line_len l;
    }
    else w

-- The active file after a rotation: `open` creates it, or it stays closed and the line is lost.
abbrev pub reopen : Line → Files → Writer → Writer
reopen l f w =
    if l.reopens
    then write_line l (record { files = put 0 (some (contents f 0)) f; is_open = true; size = 0 })
    else record { files = f; is_open = false; size = w.size }

unfoldable pub log_line : (max_bytes keep : ℕ) → Line → Writer → Writer
unfolding rotate_log
log_line max_bytes keep l w =
    let (rotated, f) = rotate_log l.removes l.renames keep w.files in
    if ltb 0 max_bytes && ltb max_bytes (w.size + line_len l)
    then (if rotated then reopen l f w else record { files = f; is_open = false; size = w.size })
    else write_line l w

unfoldable pub log_lines : (max_bytes keep : ℕ) → List Line → Writer → Writer
unfolding log_line
log_lines max_bytes keep [] w = w
log_lines max_bytes keep (l ∷ rest) w = log_lines max_bytes keep rest (log_line max_bytes keep l w)

-- With the file that `stream_logs` has opened, or could not open; its size is read off the file.
unfoldable pub log_writer : (max_bytes keep : ℕ) → List Line → (opened : Bool) → Files → Writer
unfolding log_lines
log_writer max_bytes keep lines opened f =
    let start : Writer = record {
      files = f;
      is_open = opened;
      size = if opened then length (contents f 0) else 0;
    } in
    if keep == 0 then start else log_lines max_bytes keep lines start
