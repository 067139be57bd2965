-- ===== src/Probe/StatusLine.antt =====
-- crates/artzain-core/src/probe.rs: the replies that `status_ok` takes as a success.
use artzain.Prelude.{
  ℕ, ◌+◌, ◌*◌, ◌≡◌, ◌≤◌, refl, Bool, true, false, not, ◌&&◌, some, List, [], ◌∷◌, ◌++◌, Bytes,
  codes, if◌then◌else◌, ltb, leb, ◌==◌, nat_eq, all, starts_with, arith, ap, ◌∙◌,
}
use artzain.Probe.{
  is_whitespace, ends_line, first_line, with_word, split_words, words, parse_number, is_success,
  words_ok, status_ok,
}

-- A word: characters that are no white space.
abbrev pub is_word : Bytes → Bool
is_word w = all (λ c. not (is_whitespace c)) w

-- A line: bytes that do not end it.
abbrev pub is_line : Bytes → Bool
is_line l = all (λ c. not (ends_line c)) l

first_line-append :
    (l m : Bytes) (c : ℕ) → is_line l ≡ true → ends_line c ≡ true → first_line (l ++ c ∷ m) ≡ l
first_line-append [] m c h e = ground arith
first_line-append (d ∷ l) m c h e = ground (arith, first_line-append l m c)

abbrev Words : Type 0
Words = Bytes × List Bytes

split_words-append :
    (w m : Bytes) (c : ℕ)
    → is_word w ≡ true
    → is_whitespace c ≡ true
    → split_words (w ++ c ∷ m) ≡ (w, words m)
split_words-append [] m c h e =
    let (w, l) = split_words m in
    let x : Words = ([], with_word w l) in
    let y : Words = (c ∷ w, l) in ap (λ b. if b then x else y) e
split_words-append (d ∷ w) m c h e =
    let (v, l) = split_words (w ++ c ∷ m) in
    let x : Words = ([], with_word v l) in
    let y : Words = (d ∷ v, l) in
    let (solid, rest) = both (is_whitespace d) (is_word w) h in
    let ih = split_words-append w m c rest e in
    ap (λ b. if b then x else y) solid ∙ ap (λ (z : Words). (d ∷ z.0, z.1)) ih
  where
    both : (b a : Bool) → (not b && a) ≡ true → (b ≡ false) × (a ≡ true)
    both b a k = ground arith

-- A digit is no white space, and not the sign.
digit_is_word : (d : ℕ) → d ≤ 9 → (is_whitespace (48 + d) ≡ false) × ((48 + d == 43) ≡ false)
digit_is_word d h = (ground arith, ground (arith, nat_eq.equal_iff (48 + d) 43))

abbrev pub three_digits : (a b c : ℕ) → Bytes
three_digits a b c = (48 + a) ∷ (48 + b) ∷ (48 + c) ∷ []

parse-three_digits :
    (a b c : ℕ)
    → a ≤ 9
    → b ≤ 9
    → c ≤ 9
    → parse_number 65535 (three_digits a b c) ≡ some (100 * a + 10 * b + c)
unfolding parse_number
parse-three_digits a b c ha hb hc = ground (arith, nat_eq.equal_iff (48 + a) 43)

-- `from_utf8_lossy` keeps ASCII as it is.
abbrev pub KeepsAscii : (Bytes → Bytes) → Type 0
KeepsAscii lossy = (l : Bytes) → all (λ c. ltb c 128) l ≡ true → lossy l ≡ l

-- A status line in three parts.
abbrev pub status_line : (proto code reason : Bytes) → Bytes
status_line proto code reason = proto ++ 32 ∷ (code ++ 32 ∷ reason)

words-status_line :
    (proto code reason : Bytes)
    → is_word proto ≡ true
    → is_word code ≡ true
    → words (status_line proto code reason) ≡ with_word proto (with_word code (words reason))
words-status_line proto code reason hp hc =
    ap (λ (z : Words). with_word z.0 z.1)
      (split_words-append proto (code ++ 32 ∷ reason) 32 hp refl)
    ∙ ap (λ (z : Words). with_word proto (with_word z.0 z.1))
        (split_words-append code reason 32 hc refl)

three_digits-is_word : (a b c : ℕ) → a ≤ 9 → b ≤ 9 → c ≤ 9 → is_word (three_digits a b c) ≡ true
three_digits-is_word a b c ha hb hc =
    let (ka, _) = digit_is_word a ha in
    let (kb, _) = digit_is_word b hb in let (kc, _) = digit_is_word c hc in three ka kb kc
  where
    three :
        {x y z : Bool}
        → x ≡ false
        → y ≡ false
        → z ≡ false
        → (not x && (not y && (not z && true))) ≡ true
    three hx hy hz = ground arith

code_is_success :
    (a b c : ℕ) → b ≤ 9 → c ≤ 9 → is_success (some (100 * a + 10 * b + c)) ≡ (leb 2 a && ltb a 4)
code_is_success a b c hb hc = ground arith

code_of_line :
    (p : Bytes) (a b c : ℕ) (l : List Bytes)
    → a ≤ 9
    → b ≤ 9
    → c ≤ 9
    → starts_with (codes "HTTP/") p ≡ true
    → words_ok (with_word p (three_digits a b c ∷ l)) ≡ (leb 2 a && ltb a 4)
code_of_line [] a b c l ha hb hc h = cc
code_of_line (x ∷ p) a b c l ha hb hc h =
    ap (λ t. t && is_success (parse_number 65535 (three_digits a b c))) h
    ∙ (ap is_success (parse-three_digits a b c ha hb hc) ∙ code_is_success a b c hb hc)

-- A reply whose status line is ASCII and begins with a word `HTTP/…` and three digits is a success
-- exactly when the first digit is 2 or 3, whatever follows the line.
pub status_ok-status_line :
    (lossy : Bytes → Bytes) (proto reason rest : Bytes) (a b c : ℕ)
    → KeepsAscii lossy
    → is_word proto ≡ true
    → starts_with (codes "HTTP/") proto ≡ true
    → a ≤ 9
    → b ≤ 9
    → c ≤ 9
    → is_line (status_line proto (three_digits a b c) reason) ≡ true
    → all (λ x. ltb x 128) (status_line proto (three_digits a b c) reason) ≡ true
    → status_ok lossy (status_line proto (three_digits a b c) reason ++ 13 ∷ rest)
      ≡ (leb 2 a && ltb a 4)
unfolding status_ok
status_ok-status_line lossy proto reason rest a b c keeps word http ha hb hc line ascii =
    let l = status_line proto (three_digits a b c) reason in
    let code_word : is_word (three_digits a b c) ≡ true = three_digits-is_word a b c ha hb hc in
    ap (λ x. words_ok (words (lossy x))) (first_line-append l rest 13 line refl)
    ∙ (ap (λ x. words_ok (words x)) (keeps l ascii)
        ∙ (ap words_ok (words-status_line proto (three_digits a b c) reason word code_word)
            ∙ code_of_line proto a b c (words reason) ha hb hc http))
