-- ===== src/LogReader.antt =====
-- crates/artzain/src/logs.rs: `log_files`, `tail` and `follow`. What reading a folder or a file gives is
-- given; a text is its bytes.
pub mod Tail
pub mod Growing
use artzain.Prelude.{
  ℕ, zero, suc, ◌+◌, ◌*◌, Bool, true, false, ◌&&◌, ◌||◌, Option, none, some, List, [], ◌∷◌, ◌++◌,
  Bytes, if◌then◌else◌, map_or, ltb, ◌==◌, nat_eq, length, drop, starts_with,
}
use artzain.Disk.{FilePath, same_path}

-- An entry of the log folder. `stem` is what `file_stem` and `to_str` give.
pub record Entry : Type 0 where
  pub name : Bytes
  pub is_file : Bool
  pub stem : Option Bytes

abbrev pub is_chosen : Option Bytes → Entry → Bool
is_chosen app e = e.is_file && map_or app true (λ a. map_or e.stem false (λ s. starts_with a s))

-- Bytes are compared in order; a shorter text comes first.
abbrev pub comes_before : Bytes → Bytes → Bool
comes_before [] [] = false
comes_before [] (d ∷ t) = true
comes_before (c ∷ s) [] = false
comes_before (c ∷ s) (d ∷ t) = ltb c d || ((c == d) && comes_before s t)

unfoldable pub insert_name : Bytes → List Bytes → List Bytes
insert_name x [] = x ∷ []
insert_name x (y ∷ l) = if comes_before y x then y ∷ insert_name x l else x ∷ y ∷ l

unfoldable pub sort_names : List Bytes → List Bytes
unfolding insert_name
sort_names [] = []
sort_names (x ∷ l) = insert_name x (sort_names l)

abbrev pub chosen_names : Option Bytes → List Entry → List Bytes
chosen_names app [] = []
chosen_names app (e ∷ l) =
    if is_chosen app e then e.name ∷ chosen_names app l else chosen_names app l

unfoldable pub log_files : Option Bytes → List Entry → List Bytes
unfolding sort_names
log_files app entries = sort_names (chosen_names app entries)

pub data Tailed : Type 0 where
  printed : List Bytes → Tailed
  unreadable panicked : Tailed

-- `ring.remove(0)` panics on an empty vector.
abbrev pub push_line : ℕ → Bytes → List Bytes → Option (List Bytes)
push_line n line ring =
    if length ring == n
    then (elim ring as (λ _. Option (List Bytes)) [ [] ↦ none | x ∷ l ↦ some (l ++ line ∷ []) ])
    else some (ring ++ line ∷ [])

-- The lines as `reader.lines()` gives them; `none` is a line that cannot be read.
unfoldable pub tail_from : ℕ → List (Option Bytes) → List Bytes → Tailed
tail_from n [] ring = printed ring
tail_from n (none ∷ lines) ring = unreadable
tail_from n (some line ∷ lines) ring = elim (push_line n line ring) [
  | none ↦ panicked
  | some next ↦ tail_from n lines next
]

-- `Vec::with_capacity(n)` of `String`s, 24 bytes each, panics where the bytes are more than
-- `isize::MAX`. Below that the memory is taken to suffice.
abbrev pub overflows_capacity : ℕ → Bool
overflows_capacity n = ltb 9223372036854775807 (n * 24)

unfoldable pub tail : ℕ → Option (List (Option Bytes)) → Tailed
unfolding tail_from
tail n file =
    map_or file unreadable
      (λ lines. if overflows_capacity n then panicked else tail_from n lines [])

-- A file in one round: its length by `metadata`, its bytes when it is opened and read, and its length
-- after that; `none` where the call fails.
pub record View : Type 0 where
  pub len : Option ℕ
  pub bytes : Option Bytes
  pub len_after : Option ℕ

-- `(position, last_size)` of each file.
abbrev pub Positions : Type 0
Positions = FilePath → ℕ × ℕ

abbrev pub set_position : FilePath → ℕ × ℕ → Positions → Positions
set_position p x s = λ q. if same_path p q then x else s q

-- The new position and size, and what is printed; an error ends `follow`.
unfoldable pub read_from : View → (start : ℕ) → Option ((ℕ × ℕ) × Bytes)
read_from v start = map_or v.bytes none (λ bytes.
    map_or v.len_after none
      (λ size. let fresh = drop start bytes in some ((start + length fresh, size), fresh)))

unfoldable pub follow_file : View → ℕ × ℕ → Option ((ℕ × ℕ) × Bytes)
unfolding read_from
follow_file v (pos, last_size) = map_or v.len (some ((pos, last_size), [])) (λ size.
    if ltb size last_size || ltb size pos
    then read_from v 0
    else (if ltb pos size then read_from v pos else some ((pos, size), [])))

abbrev pub after_file :
    FilePath → Option ((ℕ × ℕ) × Bytes) → Positions × Bytes → Option (Positions × Bytes)
after_file p none x = none
after_file p (some (at, out)) (s, sofar) = some (set_position p at s, sofar ++ out)

unfoldable pub follow_round :
    (FilePath → View) → List FilePath → Positions × Bytes → Option (Positions × Bytes)
follow_round views [] x = some x
follow_round views (p ∷ paths) x =
    map_or (after_file p (follow_file (views p) (x.0 p)) x) none (follow_round views paths)

-- The endless loop, for the rounds that are given: whether it goes on, and what its whole rounds have
-- printed.
unfoldable pub follow_from :
    List (FilePath → View) → List FilePath → Positions × Bytes → Bool × Bytes
follow_from [] paths x = (true, x.1)
follow_from (views ∷ rounds) paths x = elim (follow_round views paths x) [
  | none ↦ (false, x.1)
  | some y ↦ follow_from rounds paths y
]

unfoldable pub follow : List (FilePath → View) → List FilePath → Bool × Bytes
unfolding follow_from follow_round follow_file
follow rounds paths = follow_from rounds paths ((λ p. (0, 0)), [])
