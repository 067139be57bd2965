-- ===== src/Fixture.antt =====
-- crates/artzain-fixture/src/main.rs: what the test app answers to one connection. Its variables are
-- given; its tasks (the crash, the log lines) and its accept loop are not modelled. Durations are
-- numbers of one unit, and texts are lists of numbers.
pub mod Probed
use artzain.Prelude.{
  ℕ, Bool, true, false, Option, none, some, List, [], ◌∷◌, ◌++◌, Bytes, codes, newline, to_string,
  take, drop, length, leb, starts_with, bytes_eq, nat_eq, ◌==◌, map_or, unwrap_or, if◌then◌else◌,
}
use artzain.Probe.{words, parse_number, crlf, carriage_return, line_feed}

-- `parse_ms`, of the variable: a 64-bit number.
unfoldable pub parse_ms : Option Bytes → Option ℕ
unfolding parse_number
parse_ms none = none
parse_ms (some s) = parse_number 18446744073709551615 s

abbrev pub json_from : Bool → List (Bytes × Bytes) → Bytes
json_from first [] = codes "}"
json_from first (kv ∷ rest) =
    (if first then [] else codes ", ")
    ++ (34 ∷ (kv.0 ++ (codes "\": \"" ++ (kv.1 ++ 34 ∷ json_from false rest))))

unfoldable pub json_object : List (Bytes × Bytes) → Bytes
json_object items = codes "{" ++ json_from true items

unfoldable pub id_json : (uid gid : ℕ) → Bytes
unfolding to_string
id_json uid gid =
    codes "uid=" ++ (codes (to_string uid) ++ (newline ∷ (codes "gid=" ++ codes (to_string gid))))

-- `cols.get(3)`
abbrev pub fourth : List Bytes → Option Bytes
fourth (a ∷ b ∷ c ∷ d ∷ l) = some d
fourth _ = none

-- The lines of `/proc/self/limits`.
unfoldable pub read_proc_limit : (label : Bytes) → List Bytes → Bytes
read_proc_limit label [] = []
read_proc_limit label (line ∷ rest) =
    let later = read_proc_limit label rest in
    if starts_with label line then unwrap_or (fourth (words line)) later else later

unfoldable pub limits_json : List Bytes → Bytes
unfolding read_proc_limit
limits_json lines =
    codes "open_files="
    ++ (read_proc_limit (codes "Max open files") lines
        ++ (newline
            ∷ (codes "address_space=" ++ read_proc_limit (codes "Max address space") lines)))

-- What the handlers read.
pub record Script : Type 0 where
  pub ready_after : Option ℕ
  pub live_fail_after : Option ℕ
  pub vars : List (Bytes × Bytes)
  pub uid : ℕ
  pub gid : ℕ
  pub limit_lines : List Bytes

-- The status and the body for a path, at an uptime.
unfoldable pub answer : Script → (uptime : ℕ) → (path : Bytes) → Bytes × Bytes
unfolding json_object id_json limits_json
answer s uptime path =
    if path == codes "/__ready"
    then (if map_or s.ready_after true (λ d. leb d uptime)
        then (codes "200 OK", codes "ready")
        else (codes "503 Not Ready", codes "not ready"))
    else (if path == codes "/__health"
        then (if map_or s.live_fail_after false (λ d. leb d uptime)
            then (codes "500 Internal Server Error", codes "unhealthy")
            else (codes "200 OK", codes "healthy"))
        else (if path == codes "/__metrics"
            then (codes "200 OK", codes "ok")
            else (if path == codes "/__env"
                then (codes "200 OK", json_object s.vars)
                else (if path == codes "/__id"
                    then (codes "200 OK", id_json s.uid s.gid)
                    else (if path == codes "/__limits"
                        then (codes "200 OK", limits_json s.limit_lines)
                        else (codes "404 Not Found", codes "not found"))))))

unfoldable pub response : Bytes × Bytes → Bytes
unfolding to_string
response a =
    codes "HTTP/1.1 "
    ++ (a.0
        ++ (crlf
            ++ (codes "Content-Length: "
                ++ (codes (to_string (length a.1))
                    ++ (crlf ++ (codes "Connection: close" ++ (crlf ++ (crlf ++ a.1))))))))

-- `lines().next()`: the text in front of the first line feed, without a carriage return at its end.
abbrev pub next_line : Bytes → Bytes
next_line [] = []
next_line (c ∷ []) = if c == line_feed then [] else c ∷ []
next_line (c ∷ d ∷ s) =
    let rest = next_line (d ∷ s) in
    if c == line_feed
    then []
    else (if c == carriage_return then (if d == line_feed then [] else c ∷ rest) else c ∷ rest)

-- `nth(1)`
abbrev pub second_or : Bytes → List Bytes → Bytes
second_or d (a ∷ b ∷ l) = b
second_or d _ = d

-- The handler of a connection: what the first read gives, of at most 1024 bytes, and the response.
unfoldable pub handle :
    (lossy : Bytes → Bytes) → Script → (uptime : ℕ) → Option Bytes → Option Bytes
unfolding answer response
handle lossy s uptime none = none
handle lossy s uptime (some []) = none
handle lossy s uptime (some (c ∷ l)) =
    let path = second_or (codes "/") (words (next_line (lossy (take 1024 (c ∷ l))))) in
    some (response (answer s uptime path))
