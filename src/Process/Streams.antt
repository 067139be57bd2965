-- ===== src/Process/Streams.antt =====
-- crates/artzain-core/src/process.rs: the tag of an instance, the tasks of `stream_logs` that read the
-- child's output, and `port_listeners`. Texts are their UTF-8 bytes; an app's name is taken to be ASCII,
-- so that its characters are its bytes.
use artzain.Prelude.{
  ℕ, zero, suc, ◌+◌, ◌-◌, ◌%◌, Bool, true, false, Option, none, some, List, [], ◌∷◌, ◌++◌, Bytes,
  codes, to_string, length, get_elem?, unwrap_or, map_or, if◌then◌else◌, ◌==◌, nat_eq,
}
use artzain.LogWriter.{Files, Line, Writer, log_writer}
use artzain.Probe.{is_whitespace, parse_number}

abbrev pub palette : List Bytes
palette =
    codes "36"
    ∷ codes "32"
    ∷ codes "33"
    ∷ codes "35"
    ∷ codes "34"
    ∷ codes "96"
    ∷ codes "92"
    ∷ codes "93"
    ∷ codes "95"
    ∷ codes "94"
    ∷ []

abbrev pub sum : Bytes → ℕ
sum [] = 0
sum (b ∷ l) = b + sum l

-- The index is always within the palette.
unfoldable pub color_for : (app : Bytes) → Bytes
color_for app = unwrap_or (get_elem? palette (sum app % length palette)) []

abbrev pub spaces : ℕ → Bytes
spaces zero = []
spaces (suc n) = 32 ∷ spaces n

-- `{label:<14}`
abbrev pub pad : ℕ → Bytes → Bytes
pad n label = label ++ spaces (n - length label)

unfoldable pub tag : (app : Bytes) → (replica : ℕ) → (color : Bytes) → Bytes
unfolding to_string
tag app replica color =
    27
    ∷ (codes "["
        ++ (color
            ++ (codes "m["
                ++ (pad 14 (app ++ (codes "/" ++ codes (to_string replica)))
                    ++ (codes "]" ++ 27 ∷ codes "[0m")))))

-- The lines of one stream, until it ends or a line cannot be read.
abbrev pub read_lines : List (Option Bytes) → List Bytes
read_lines [] = []
read_lines (none ∷ l) = []
read_lines (some line ∷ l) = line ∷ read_lines l

abbrev pub print_lines : (tag : Bytes) → List Bytes → List Bytes
print_lines tag [] = []
print_lines tag (line ∷ l) = (tag ++ 32 ∷ line) ∷ print_lines tag l

-- What the tasks do with the two streams: the lines on the console, and, with a log file, the lines sent
-- to the writer.
pub record Streamed : Type 0 where
  pub console : List Bytes
  pub sent : List Bytes

abbrev pub stream : (tag : Bytes) → (logged : Bool) → Option (List (Option Bytes)) → Streamed
stream tag logged none = record { console = []; sent = [] }
stream tag logged (some lines) = record {
  console = print_lines tag (read_lines lines);
  sent = if logged then read_lines lines else [];
}

-- The two streams, and with a log file the task that writes the lines that both send. `opened` says
-- whether the file could be opened at first.
pub record Streams : Type 0 where
  pub out : Streamed
  pub err : Streamed
  pub writer : Option (List Line → Files → Writer)

unfoldable pub stream_logs :
    (tag : Bytes)
    → (stdout stderr : Option (List (Option Bytes))) → (log_path : Option Bytes)
    → (log_max_bytes log_keep : ℕ) → (opened : Bool) → Streams
stream_logs tag stdout stderr log_path log_max_bytes log_keep opened =
    let logged = map_or log_path false (λ p. true) in
    record {
      out = stream tag logged stdout;
      err = stream tag logged stderr;
      writer =
          map_or log_path none
            (λ p. some (λ lines f. log_writer log_max_bytes log_keep lines opened f));
    }

abbrev pub trim_start : Bytes → Bytes
trim_start [] = []
trim_start (c ∷ s) = if is_whitespace c then trim_start s else c ∷ s

abbrev pub trim_end : Bytes → Bytes
trim_end [] = []
trim_end (c ∷ s) = elim (trim_end s) [
  | [] ↦ if is_whitespace c then [] else c ∷ []
  | d ∷ t ↦ c ∷ d ∷ t
]

-- A number of i32: its sign, and its size.
abbrev pub I32 : Type 0
I32 = Bool × ℕ

unfoldable pub parse_i32 : Bytes → Option I32
unfolding parse_number
parse_i32 [] = none
parse_i32 (c ∷ []) = map_or (parse_number 2147483647 (c ∷ [])) none (λ n. some (false, n))
parse_i32 (c ∷ d ∷ s) =
    if c == 45
    then (if d == 43
        then none
        else map_or (parse_number 2147483648 (d ∷ s)) none (λ n. some (true, n)))
    else map_or (parse_number 2147483647 (c ∷ d ∷ s)) none (λ n. some (false, n))

-- The lines of the output of `lsof`, or nothing when it cannot be run.
unfoldable pub listed : List Bytes → List I32
unfolding parse_i32
listed [] = []
listed (l ∷ rest) =
    map_or (parse_i32 (trim_end (trim_start l))) (listed rest) (λ pid. pid ∷ listed rest)

unfoldable pub port_listeners : (output : Option (List Bytes)) → List I32
unfolding listed
port_listeners output = map_or output [] listed
