-- ===== src/Cli/Logs.antt =====
-- crates/artzain/src/main.rs: `print_logs`, over what the log folder and its files give.
use artzain.Prelude.{
  ℕ, ◌&&◌, Bool, true, false, Option, none, some, List, [], ◌∷◌, Bytes, if◌then◌else◌,
}
use artzain.LogReader
use artzain.Disk.{FilePath}
use artzain.LogReader.{Entry, Tailed, View, log_files, tail, follow}

pub data Printed : Type 0 where
  -- The files in order, each with what its tail gave, and what following them printed, if they were.
  tails : List (Bytes × Tailed) → Option (Bool × Bytes) → Printed
  no_directory unlisted no_files : Printed

abbrev pub is_panic : Tailed → Bool
is_panic LogReader.panicked = true
is_panic _ = false

-- `reads` gives the lines of a file. A tail that panics ends the program, an unreadable file does not;
-- the Boolean says whether the loop came to its end.
unfoldable pub tail_all :
    (n : ℕ)
    → (reads : Bytes → Option (List (Option Bytes))) → List Bytes
    → List (Bytes × Tailed) × Bool
tail_all n reads [] = ([], true)
tail_all n reads (name ∷ rest) =
    let (later, ends) = tail_all n reads rest in
    let one = tail n (reads name) in
    if is_panic one then ((name, one) ∷ [], false) else ((name, one) ∷ later, ends)

abbrev pub in_dir : (dir : Bytes) → List Bytes → List FilePath
in_dir dir [] = []
in_dir dir (name ∷ rest) = (dir, name) ∷ in_dir dir rest

unfoldable pub print_files :
    (n : ℕ)
    → (follows : Bool) → (rounds : List (FilePath → View))
    → (reads : Bytes → Option (List (Option Bytes))) → (dir : Bytes) → List Bytes
    → Printed
unfolding tail_all
print_files n follows rounds reads dir [] = no_files
print_files n follows rounds reads dir (name ∷ rest) =
    let (l, ends) = tail_all n reads (name ∷ rest) in
    let followed = follow rounds (in_dir dir (name ∷ rest)) in
    tails l (if ends && follows then some followed else none)

-- `exists` says whether the folder is there, `entries` what listing it gives.
unfoldable pub print_logs :
    (exists : Bool)
    → (entries : Option (List Entry)) → (app : Option Bytes) → (n : ℕ) → (follows : Bool)
    → (rounds : List (FilePath → View)) → (reads : Bytes → Option (List (Option Bytes)))
    → (dir : Bytes) → Printed
unfolding print_files
print_logs exists none app n follows rounds reads dir = if exists then unlisted else no_directory
print_logs exists (some entries) app n follows rounds reads dir =
    if exists then print_files n follows rounds reads dir (log_files app entries) else no_directory
