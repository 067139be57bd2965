-- ===== src/Systemd/Directives.antt =====
-- crates/artzain/src/systemd.rs: what a reader of the generated unit finds in it.
use artzain.Prelude.{
  ℕ, ◌≡◌, refl, sym, append-nil, append_assoc, all-append, Bool, true, false, not, ◌&&◌, unwrap_or,
  Option, none, some, List, [], ◌∷◌, ◌++◌, Bytes, codes, newline, starts_with, drop, length, all,
  map_or, nat_eq, ◌==◌, if◌then◌else◌, ap, ◌∙◌, arith, to_string,
}
use artzain.Systemd
use artzain.Systemd.{
  Flags, Target, unit_options, Generated, generate_systemd, printed, installed, wrote, a_file,
  a_folder, unknown, install_unit, UnitOptions, write_lines, decimal, memory_line, install_section,
  unit_lines, generate_unit,
}

-- No line break.
abbrev pub is_one_line : Bytes → Bool
is_one_line l = all (λ c. not (c == newline)) l

-- What a reader of the file takes for its lines.
abbrev pub lines_from : Bytes → Bytes → List Bytes
lines_from acc [] = []
lines_from acc (c ∷ s) =
    if c == newline then acc ∷ lines_from [] s else lines_from (acc ++ c ∷ []) s

-- The value behind the first line that begins with the key.
abbrev pub value_of : (key : Bytes) → List Bytes → Option Bytes
value_of key [] = none
value_of key (l ∷ rest) =
    if starts_with key l then some (drop (length key) l) else value_of key rest

unfoldable pub directive : (key unit : Bytes) → Option Bytes
directive key unit = value_of key (lines_from [] unit)

lines_from-write_line :
    (acc l rest : Bytes)
    → is_one_line l ≡ true
    → lines_from acc (l ++ newline ∷ rest) ≡ (acc ++ l) ∷ lines_from [] rest
lines_from-write_line acc [] rest h =
    ap (λ (l : Bytes). l ∷ lines_from [] rest) (sym (append-nil acc))
lines_from-write_line acc (c ∷ l) rest h =
    let (inside, solid) = both (c == newline) (is_one_line l) h in
    let here : List Bytes = acc ∷ lines_from [] (l ++ newline ∷ rest) in
    let later = lines_from (acc ++ c ∷ []) (l ++ newline ∷ rest) in
    ap (λ b. if b then here else later) inside
    ∙ (lines_from-write_line (acc ++ c ∷ []) l rest solid
        ∙ ap (λ (l : Bytes). l ∷ lines_from [] rest) (append_assoc acc (c ∷ []) l))
  where
    both : (b a : Bool) → (not b && a) ≡ true → (b ≡ false) × (a ≡ true)
    both b a k = ground arith

lines_from-write_lines :
    (ls : List Bytes) → all is_one_line ls ≡ true → lines_from [] (write_lines ls) ≡ ls
lines_from-write_lines [] h = refl
lines_from-write_lines (l ∷ ls) h =
    lines_from-write_line [] l (write_lines ls) (ground arith)
    ∙ ap (λ r. l ∷ r) (lines_from-write_lines ls (ground arith))

-- The options are one line each.
abbrev pub OneLine : UnitOptions → Type 0
OneLine o =
    (is_one_line o.user ≡ true)
    × ((is_one_line o.group ≡ true)
        × ((is_one_line o.manifest ≡ true)
            × ((is_one_line o.binary ≡ true) × (map_or o.memory_max true is_one_line ≡ true))))

memory_line-is_one_line :
    (mem : Option Bytes)
    → map_or mem true is_one_line ≡ true
    → all is_one_line (memory_line mem ++ install_section) ≡ true
memory_line-is_one_line none h = refl
memory_line-is_one_line (some m) h = ap (λ b. b && true) h

unit_lines-is_one_line :
    (o : UnitOptions)
    → OneLine o
    → is_one_line (decimal o.stop_grace_secs) ≡ true
    → all is_one_line (unit_lines o) ≡ true
unit_lines-is_one_line o (u, (g, (m, (b, mem)))) grace =
    let solid : ℕ → Bool = λ c. not (c == newline) in
    let up : is_one_line (o.manifest ++ codes " up") ≡ true =
      all-append solid o.manifest (codes " up") ∙ ap (λ b. b && true) m in
    let exec : is_one_line (o.binary ++ (codes " -f " ++ (o.manifest ++ codes " up"))) ≡ true =
      all-append solid o.binary (codes " -f " ++ (o.manifest ++ codes " up")) ∙ and_intro b up in
    and_intro m (
      and_intro u
        (and_intro g (and_intro exec (and_intro grace (memory_line-is_one_line o.memory_max mem)))))
  where
    and_intro : {a b : Bool} → a ≡ true → b ≡ true → (a && b) ≡ true
    and_intro h k = ground arith

-- The unit file that a run prints or writes.
abbrev pub unit_of : Generated → Option Bytes
unit_of (printed u) = some u
unit_of (installed (wrote u)) = some u
unit_of (installed _) = none

unit_of-generate_systemd :
    (file : Bytes) (f : Flags) (target : Target) (writes : Bool) (u : Bytes)
    → unit_of (generate_systemd file f target writes) ≡ some u
    → generate_unit (unit_options file f) ≡ u
unfolding generate_systemd
unit_of-generate_systemd file f target writes u h = either f.install h
  where
    unit : Bytes
    unit = generate_unit (unit_options file f)

    by_target :
        (t : Target) (w : Bool) → unit_of (installed (install_unit t w unit)) ≡ some u → unit ≡ u
    by_target Systemd.absent w k = ground arith
    by_target a_file w k = ground arith
    by_target a_folder w k = cc
    by_target unknown w k = cc

    either :
        (b : Bool)
        → unit_of (if b then installed (install_unit target writes unit) else printed unit) ≡ some u
        → unit ≡ u
    either true k = by_target target writes k
    either false k = cc

-- The unit that `artzain systemd` prints or writes names, to a reader that takes the first line with a
-- key, the user and the group (by default artzain, and the user), the command on the manifest, ten
-- seconds for the stop, and a memory limit exactly when one was asked for. The options hold no line
-- break.
pub generate_systemd-directives :
    (file : Bytes) (f : Flags) (target : Target) (writes : Bool) (u : Bytes)
    → OneLine (unit_options file f)
    → unit_of (generate_systemd file f target writes) ≡ some u
    → let user = unwrap_or f.user (codes "artzain") in
      (directive (codes "User=") u ≡ some user)
      × ((directive (codes "Group=") u ≡ some (unwrap_or f.group user))
          × ((directive (codes "ExecStart=") u
                ≡ some (
                    unwrap_or f.binary (codes "/usr/local/bin/artzain")
                    ++ (codes " -f " ++ (unwrap_or f.manifest file ++ codes " up"))))
              × ((directive (codes "TimeoutStopSec=") u ≡ some (codes "10"))
                  × (directive (codes "MemoryMax=") u ≡ f.memory_max))))
unfolding directive generate_unit unit_options to_string
generate_systemd-directives file f target writes u one h =
    let o = unit_options file f in
    let same : lines_from [] u ≡ unit_lines o =
      ap (lines_from []) (sym (unit_of-generate_systemd file f target writes u h))
      ∙ lines_from-write_lines (unit_lines o) (unit_lines-is_one_line o one refl) in
    let read : (key : Bytes) → value_of key (lines_from [] u) ≡ value_of key (unit_lines o) =
      λ key. ap (value_of key) same in
    (
      read (codes "User="),
      (
        read (codes "Group="),
        (
          read (codes "ExecStart="),
          (read (codes "TimeoutStopSec="), read (codes "MemoryMax=") ∙ memory f.memory_max),
        ),
      ),
    )
  where
    memory :
        (mem : Option Bytes)
        → value_of (codes "MemoryMax=") (memory_line mem ++ install_section) ≡ mem
    memory none = refl
    memory (some m) = refl
