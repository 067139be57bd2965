-- ===== src/Fixture/Probed.antt =====
-- The HTTP probe of crates/artzain-core/src/probe.rs against the test app of
-- crates/artzain-fixture/src/main.rs.
use artzain.Prelude.{
  ℕ, zero, suc, ◌≡◌, refl, Bool, true, false, not, ◌==◌, nat_eq, to_string, ◌&&◌, Option, none,
  some, [], ◌∷◌, ◌++◌, Bytes, codes, take, all, leb, ltb, map_or, unwrap_or, if◌then◌else◌, ap, ap₂,
  all-append, ◌∙◌, arith,
}
use artzain.Probe.{crlf, words, words_ok, Peer, request, before_colon, http_get, status_ok}
use artzain.Probe.StatusLine.{KeepsAscii}
use artzain.Fixture.{Script, answer, response, next_line, second_or, handle}

-- The fixture as a peer: one read gives at most 256 bytes of its response.
abbrev pub fixture : (lossy : Bytes → Bytes) → Script → (uptime : ℕ) → Peer
fixture lossy s uptime = record {
  connects = true;
  accepts = true;
  reply = λ r. map_or (handle lossy s uptime (some r)) none (λ b. some (take 256 b));
}

abbrev is_ascii : Bytes → Bool
is_ascii l = all (λ c. ltb c 128) l

abbrev is_7_bit : ℕ → Bool
is_7_bit c = ltb c 128

all-take : (p : ℕ → Bool) (n : ℕ) (xs : Bytes) → all p xs ≡ true → all p (take n xs) ≡ true
all-take p zero xs h = refl
all-take p (suc n) [] h = refl
all-take p (suc n) (x ∷ xs) h =
    let (here, later) = both (p x) (all p xs) h in ap₂ (λ a b. a && b) here (all-take p n xs later)
  where
    both : (a b : Bool) → (a && b) ≡ true → (a ≡ true) × (b ≡ true)
    both a b k = ground arith

before_colon-is_ascii :
    (s : Bytes) → is_ascii s ≡ true → map_or (before_colon s) true is_ascii ≡ true
before_colon-is_ascii [] h = refl
before_colon-is_ascii (c ∷ s) h =
    let (here, later) = and_true (ltb c 128) (is_ascii s) h in
    by_rest (before_colon s) (before_colon-is_ascii s later) here
  where
    and_true : (a b : Bool) → (a && b) ≡ true → (a ≡ true) × (b ≡ true)
    and_true a b k = ground arith

    by_rest :
        (o : Option Bytes)
        → map_or o true is_ascii ≡ true
        → ltb c 128 ≡ true
        → map_or
            (elim o as (λ _. Option Bytes) [
              | some h ↦ some (c ∷ h)
              | none ↦ if c == 58 then some [] else none
            ])
            true
            is_ascii
          ≡ true
    by_rest none k l = either (c == 58)
      where
        either : (b : Bool) → map_or (if b then some [] else none) true is_ascii ≡ true
        either true = refl
        either false = refl
    by_rest (some w) k l = ap₂ (λ a b. a && b) l k

host-is_ascii :
    (o : Option Bytes) (addr : Bytes)
    → map_or o true is_ascii ≡ true
    → is_ascii addr ≡ true
    → is_ascii (unwrap_or o addr) ≡ true
host-is_ascii none addr h a = a
host-is_ascii (some w) addr h a = h

request-is_ascii :
    (addr path : Bytes)
    → is_ascii addr ≡ true
    → is_ascii path ≡ true
    → is_ascii (request addr path) ≡ true
unfolding request
request-is_ascii addr path a p =
    let rest =
      crlf
      ++ (codes "User-Agent: artzain" ++ (crlf ++ (codes "Connection: close" ++ (crlf ++ crlf)))) in
    let host = unwrap_or (before_colon addr) addr in
    all-append is_7_bit path (codes " HTTP/1.1" ++ (crlf ++ (codes "Host: " ++ (host ++ rest))))
    ∙ ap₂ (λ a b. a && b) p
        (all-append is_7_bit host rest
          ∙ ap (λ b. b && true)
              (host-is_ascii (before_colon addr) addr (before_colon-is_ascii addr a) a))

-- The request that the test app reads, as its handler sees it.
request-seen :
    (lossy : Bytes → Bytes) (addr path : Bytes)
    → KeepsAscii lossy
    → is_ascii addr ≡ true
    → is_ascii path ≡ true
    → lossy (take 1024 (request addr path)) ≡ take 1024 (request addr path)
request-seen lossy addr path keeps a p =
    keeps (take 1024 (request addr path))
      (all-take is_7_bit 1024 (request addr path) (request-is_ascii addr path a p))

-- What the probe makes of the answer.
abbrev judged : (lossy : Bytes → Bytes) → Bytes × Bytes → Bool
judged lossy a = status_ok lossy (take 256 (response a))

judged_ready :
    (lossy : Bytes → Bytes) (b : Bool)
    → KeepsAscii lossy
    → judged lossy
        (if b then (codes "200 OK", codes "ready") else (codes "503 Not Ready", codes "not ready"))
      ≡ b
unfolding status_ok response to_string
judged_ready lossy true keeps = ap (λ l. words_ok (words l)) (keeps (codes "HTTP/1.1 200 OK") refl)
judged_ready lossy false keeps =
    ap (λ l. words_ok (words l)) (keeps (codes "HTTP/1.1 503 Not Ready") refl)

judged_live :
    (lossy : Bytes → Bytes) (b : Bool)
    → KeepsAscii lossy
    → judged lossy (
        if b
        then (codes "500 Internal Server Error", codes "unhealthy")
        else (codes "200 OK", codes "healthy"))
      ≡ not b
unfolding status_ok response to_string
judged_live lossy true keeps =
    ap (λ l. words_ok (words l)) (keeps (codes "HTTP/1.1 500 Internal Server Error") refl)
judged_live lossy false keeps = ap (λ l. words_ok (words l)) (keeps (codes "HTTP/1.1 200 OK") refl)

-- The HTTP probe reads the test app's script off its answers: the readiness path succeeds exactly from
-- the scripted uptime on, or always without one, and the liveness path until the scripted uptime. The
-- address is ASCII, and `from_utf8_lossy` keeps ASCII.
pub http_get-scripted :
    (lossy : Bytes → Bytes) (s : Script) (uptime : ℕ) (addr : Bytes)
    → KeepsAscii lossy
    → is_ascii addr ≡ true
    → (http_get lossy (fixture lossy s uptime) addr (codes "/__ready")
        ≡ map_or s.ready_after true (λ d. leb d uptime))
      × (http_get lossy (fixture lossy s uptime) addr (codes "/__health")
          ≡ not (map_or s.live_fail_after false (λ d. leb d uptime)))
unfolding http_get handle request answer
http_get-scripted lossy s uptime addr keeps ascii = (
  ap answered (request-seen lossy addr (codes "/__ready") keeps ascii refl)
      ∙ judged_ready lossy (map_or s.ready_after true (λ d. leb d uptime)) keeps,
  ap answered (request-seen lossy addr (codes "/__health") keeps ascii refl)
      ∙ judged_live lossy (map_or s.live_fail_after false (λ d. leb d uptime)) keeps,
)
  where
    answered : Bytes → Bool
    answered r = judged lossy (answer s uptime (second_or (codes "/") (words (next_line r))))
