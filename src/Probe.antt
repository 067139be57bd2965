-- ===== src/Probe.antt =====
-- crates/artzain-core/src/probe.rs: the HTTP probe. The connection is given: what each call on it
-- gives, and `String::from_utf8_lossy`, which turns bytes into characters.
pub mod StatusLine
use artzain.Prelude.{
  ℕ, zero, suc, ◌+◌, ◌-◌, ◌*◌, Bool, true, false, not, ◌&&◌, ◌||◌, Option, none, some, List, [],
  ◌∷◌, ◌++◌, Bytes, codes, if◌then◌else◌, map_or, unwrap_or, ltb, leb, ◌==◌, nat_eq, contains,
  starts_with, any,
}

abbrev pub line_feed : ℕ
line_feed = 10

abbrev pub carriage_return : ℕ
carriage_return = 13

-- The characters with the Unicode property White_Space.
abbrev pub is_whitespace : ℕ → Bool
is_whitespace c =
    (leb 9 c && leb c 13)
    || ((leb 8192 c && leb c 8202)
        || contains (32 ∷ 133 ∷ 160 ∷ 5760 ∷ 8232 ∷ 8233 ∷ 8239 ∷ 8287 ∷ 12288 ∷ []) c)

abbrev pub ends_line : ℕ → Bool
ends_line c = (c == carriage_return) || (c == line_feed)

-- The bytes in front of the first line end.
abbrev pub first_line : Bytes → Bytes
first_line [] = []
first_line (c ∷ s) = if ends_line c then [] else c ∷ first_line s

abbrev pub with_word : Bytes → List Bytes → List Bytes
with_word [] l = l
with_word (c ∷ w) l = (c ∷ w) ∷ l

-- The word that the text begins with, which may be empty, and the words behind it.
abbrev pub split_words : Bytes → Bytes × List Bytes
split_words [] = ([], [])
split_words (c ∷ s) =
    let (w, l) = split_words s in if is_whitespace c then ([], with_word w l) else (c ∷ w, l)

-- `split_whitespace`.
abbrev pub words : Bytes → List Bytes
words s = let (w, l) = split_words s in with_word w l

abbrev pub is_digit : ℕ → Bool
is_digit c = leb 48 c && leb c 57

abbrev pub add_digit : (max acc c : ℕ) → Option ℕ
add_digit max acc c =
    let n = acc * 10 + (c - 48) in if is_digit c then (if leb n max then some n else none) else none

-- The digits of a number that is at most `max`.
unfoldable pub parse_digits : (max acc : ℕ) → Bytes → Option ℕ
parse_digits max acc [] = some acc
parse_digits max acc (c ∷ s) = elim (add_digit max acc c) [
  | none ↦ none
  | some n ↦ parse_digits max n s
]

-- `parse::<u16>` and the like: a sign `+`, and one digit at least.
unfoldable pub parse_number : (max : ℕ) → Bytes → Option ℕ
unfolding parse_digits
parse_number max [] = none
parse_number max (c ∷ []) = parse_digits max 0 (c ∷ [])
parse_number max (c ∷ d ∷ s) =
    if c == 43 then parse_digits max 0 (d ∷ s) else parse_digits max 0 (c ∷ d ∷ s)

abbrev pub is_success : Option ℕ → Bool
is_success o = map_or o false (λ n. leb 200 n && ltb n 400)

abbrev pub words_ok : List Bytes → Bool
words_ok [] = false
words_ok (proto ∷ []) = false
words_ok (proto ∷ code ∷ l) =
    starts_with (codes "HTTP/") proto && is_success (parse_number 65535 code)

unfoldable pub status_ok : (lossy : Bytes → Bytes) → Bytes → Bool
unfolding parse_number
status_ok lossy head = words_ok (words (lossy (first_line head)))

-- The text in front of the last `:`, or the whole.
abbrev pub before_colon : Bytes → Option Bytes
before_colon [] = none
before_colon (c ∷ s) = elim (before_colon s) [
  | some h ↦ some (c ∷ h)
  | none ↦ if c == 58 then some [] else none
]

abbrev pub crlf : Bytes
crlf = carriage_return ∷ line_feed ∷ []

unfoldable pub request : (addr path : Bytes) → Bytes
request addr path =
    codes "GET "
    ++ (path
        ++ (codes " HTTP/1.1"
            ++ (crlf
                ++ (codes "Host: "
                    ++ (unwrap_or (before_colon addr) addr
                        ++ (crlf
                            ++ (codes "User-Agent: artzain"
                                ++ (crlf ++ (codes "Connection: close" ++ (crlf ++ crlf))))))))))

-- A peer: whether it can be connected and written to, and what one read of at most 256 bytes gives
-- after a request.
pub record Peer : Type 0 where
  pub connects : Bool
  pub accepts : Bool
  pub reply : Bytes → Option Bytes

unfoldable pub http_get : (lossy : Bytes → Bytes) → Peer → (addr path : Bytes) → Bool
unfolding status_ok request
http_get lossy peer addr path =
    if peer.connects
    then (if peer.accepts
        then map_or (peer.reply (request addr path)) false (status_ok lossy)
        else false)
    else false

-- `timeout`: `none` when the time is over.
abbrev pub in_time : Option Bool → Bool
in_time o = unwrap_or o false

unfoldable pub http_once :
    (lossy : Bytes → Bytes) → Peer → (in_time : Bool) → (addr path : Bytes) → Bool
unfolding http_get
http_once lossy peer punctual addr path =
    in_time (if punctual then some (http_get lossy peer addr path) else none)

unfoldable pub tcp_once : Option Bool → Bool
tcp_once connected = in_time connected
