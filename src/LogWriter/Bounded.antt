-- ===== src/LogWriter/Bounded.antt =====
-- crates/artzain-core/src/process.rs: how large the files of a log get, and how many there are.
use artzain.Prelude.{
  ℕ, zero, suc, ◌+◌, ◌-◌, ◌≡◌, ◌≤◌, ◌<◌, ◌⊎◌, refl, Bool, true, false, ◌&&◌, none, some, List, [],
  ◌∷◌, ◌++◌, newline, if◌then◌else◌, ◌==◌, nat_eq, leb, ltb, is_some, length, length-append, All,
  arith,
}
use artzain.LogWriter.{
  Files, put, contents, move, shift, remove, rotate_log, Writer, Line, line_len, write_line, reopen,
  log_line, log_lines, log_writer,
}
use artzain.LogWriter.Rotation.{rotate_log_gone}

-- No file is larger than the limit, and none has a number from `keep` on.
abbrev pub Kept : (max_bytes keep : ℕ) → Files → Type 0
Kept max_bytes keep f = (j : ℕ) → (length (contents f j) ≤ max_bytes) × (keep ≤ j → f j ≡ none)

module _ (max_bytes keep : ℕ) where
  put-Kept : (i : ℕ) (f : Files) → Kept max_bytes keep f → Kept max_bytes keep (put i none f)
  put-Kept i f h j = ground (arith, h j)

  move-Kept :
      (i k : ℕ) (f : Files) → k < keep → Kept max_bytes keep f → Kept max_bytes keep (move i k f)
  move-Kept i k f lt h j = ground (arith, h j, h i, nat_eq.equal_iff k j)

  shift-Kept :
      (renames : ℕ → Bool) (n : ℕ) (f : Files)
      → n + 2 ≤ keep
      → Kept max_bytes keep f
      → Kept max_bytes keep (shift renames n f).1
  unfolding shift
  shift-Kept renames zero f le h = h
  shift-Kept renames (suc n) f le h =
      by (is_some (f (suc n))) (renames (suc n))
        (shift-Kept renames n (move (suc n) (suc (suc n)) f) (omega arith)
          (move-Kept (suc n) (suc (suc n)) f (omega arith) h))
        (shift-Kept renames n f (omega arith) h)
    where
      KeptPair : Bool × Files → Type 0
      KeptPair x = Kept max_bytes keep x.1

      by :
          (b r : Bool)
          → KeptPair (shift renames n (move (suc n) (suc (suc n)) f))
          → KeptPair (shift renames n f)
          → KeptPair (
              if b
              then (if r then shift renames n (move (suc n) (suc (suc n)) f) else (false, f))
              else shift renames n f)
      by true true moved skipped = moved
      by true false moved skipped = h
      by false r moved skipped = skipped

  remove-Kept :
      (removes : Bool) (i : ℕ) (f : Files)
      → Kept max_bytes keep f
      → Kept max_bytes keep (remove removes i f)
  remove-Kept true i f h = put-Kept i f h
  remove-Kept false i f h = h

  rotate_log-Kept :
      (removes : Bool) (renames : ℕ → Bool) (f : Files)
      → Kept max_bytes keep f
      → Kept max_bytes keep (rotate_log removes renames keep f).1
  unfolding rotate_log
  rotate_log-Kept removes renames f h =
      by (leb keep 1) refl (shift renames (keep - 2) (remove removes (keep - 1) f)).0
        (is_some ((shift renames (keep - 2) (remove removes (keep - 1) f)).1 0) && renames 0)
    where
      g : Files
      g = (shift renames (keep - 2) (remove removes (keep - 1) f)).1

      KeptPair : Bool × Files → Type 0
      KeptPair x = Kept max_bytes keep x.1

      by :
          (t : Bool)
          → leb keep 1 ≡ t
          → (s b : Bool)
          → KeptPair (
              if t
              then (true, remove removes 0 f)
              else (if s then (if b then (true, move 0 1 g) else (false, g)) else (false, g)))
      by true e s b = remove-Kept removes 0 f h
      by false e s b =
          let gk =
            shift-Kept renames (keep - 2) (remove removes (keep - 1) f) (ground arith)
              (remove-Kept removes (keep - 1) f h) in
          elim s
            as (λ s.
              KeptPair (if s then (if b then (true, move 0 1 g) else (false, g)) else (false, g))) [
                | true ↦ elim b as (λ b. KeptPair (if b then (true, move 0 1 g) else (false, g))) [
                  | true ↦ move-Kept 0 1 g (ground arith) gk
                  | false ↦ gk
                ]
                | false ↦ gk
              ]

  -- While the active file is open, `size` is its size.
  abbrev IsTracked : Writer → Type 0
  IsTracked w =
      Kept max_bytes keep w.files × (w.is_open ≡ true → w.size ≡ length (contents w.files 0))

  write_line-IsTracked :
      (l : Line) (w : Writer)
      → 0 < keep
      → (w.is_open ≡ true → w.size + line_len l ≤ max_bytes)
      → IsTracked w
      → IsTracked (write_line l w)
  write_line-IsTracked l w pos fits (h, t) = by w.is_open refl
    where
      grown : Writer
      grown = record {
        files = put 0 (some (contents w.files 0 ++ (l.text ++ newline ∷ []))) w.files;
        is_open = true;
        size = w.size + line_len l;
      }

      long :
          length (contents w.files 0 ++ (l.text ++ newline ∷ []))
          ≡ length (contents w.files 0) + line_len l
      long = omega (
        arith,
        length-append (contents w.files 0) (l.text ++ newline ∷ []),
        length-append l.text (newline ∷ []),
      )

      by : (b : Bool) → w.is_open ≡ b → IsTracked (if b then grown else w)
      by true e =
          let size_now = t e in
          let room = fits e in
          (λ j. ground (arith, h j, long, nat_eq.equal_iff 0 j), λ o. omega (arith, long, size_now))
      by false e = (h, t)

  reopen-IsTracked :
      (l : Line) (f : Files) (w : Writer)
      → 0 < keep
      → line_len l ≤ max_bytes
      → Kept max_bytes keep f
      → f 0 ≡ none
      → IsTracked (reopen l f w)
  reopen-IsTracked l f w pos fits h gone = by l.reopens
    where
      fresh : Writer
      fresh = record { files = put 0 (some (contents f 0)) f; is_open = true; size = 0 }

      fresh-IsTracked : IsTracked fresh
      fresh-IsTracked = ((λ j. ground (arith, h j)), λ o. ground (arith, nat_eq.equal_iff 0 0))

      by :
          (b : Bool)
          → IsTracked (
              if b
              then write_line l fresh
              else record { files = f; is_open = false; size = w.size })
      by true = write_line-IsTracked l fresh pos (λ o. omega arith) fresh-IsTracked
      by false = (h, λ o. cc)

  log_line-IsTracked :
      (l : Line) (w : Writer)
      → 0 < keep
      → 0 < max_bytes
      → line_len l ≤ max_bytes
      → (2 ≤ keep) ⊎ (l.removes ≡ true)
      → IsTracked w
      → IsTracked (log_line max_bytes keep l w)
  unfolding log_line
  log_line-IsTracked l w pos limited fits removal (h, t) =
      by (ltb 0 max_bytes && ltb max_bytes (w.size + line_len l)) refl
        (rotate_log l.removes l.renames keep w.files).0 refl
    where
      f : Files
      f = (rotate_log l.removes l.renames keep w.files).1

      by :
          (full : Bool)
          → (ltb 0 max_bytes && ltb max_bytes (w.size + line_len l)) ≡ full
          → (rotated : Bool) → (rotate_log l.removes l.renames keep w.files).0 ≡ rotated
          → IsTracked (
              if full
              then (if rotated
                  then reopen l f w
                  else record { files = f; is_open = false; size = w.size })
              else write_line l w)
      by true e true r =
          reopen-IsTracked l f w pos fits (rotate_log-Kept l.removes l.renames w.files h)
            (rotate_log_gone l.removes l.renames keep w.files removal r)
      by true e false r = (rotate_log-Kept l.removes l.renames w.files h, λ o. cc)
      by false e rotated r = write_line-IsTracked l w pos (λ o. ground arith) (h, t)

  log_lines-IsTracked :
      (lines : List Line) (w : Writer)
      → 0 < keep
      → 0 < max_bytes
      → All (λ l. line_len l ≤ max_bytes) lines
      → All (λ l. (2 ≤ keep) ⊎ (l.removes ≡ true)) lines
      → IsTracked w
      → IsTracked (log_lines max_bytes keep lines w)
  unfolding log_lines
  log_lines-IsTracked [] w pos limited fits removal h = h
  log_lines-IsTracked (l ∷ rest) w pos limited fits removal h =
      log_lines-IsTracked rest (log_line max_bytes keep l w) pos limited fits.1 removal.1
        (log_line-IsTracked l w pos limited fits.0 removal.0 h)

-- With a size limit, lines that are no longer than it, and either two files to keep or a removal that
-- works: however the renaming and the opening go, no file of the log grows over the limit, and no more
-- than `keep` files are made, if it was so before.
pub log_writer-Kept :
    (max_bytes keep : ℕ) (lines : List Line) (opened : Bool) (f : Files)
    → 0 < keep
    → 0 < max_bytes
    → All (λ l. line_len l ≤ max_bytes) lines
    → All (λ l. (2 ≤ keep) ⊎ (l.removes ≡ true)) lines
    → Kept max_bytes keep f
    → Kept max_bytes keep (log_writer max_bytes keep lines opened f).files
unfolding log_writer
log_writer-Kept max_bytes keep lines opened f pos limited fits removal h =
    let start : Writer = record {
      files = f;
      is_open = opened;
      size = if opened then length (contents f 0) else 0;
    } in
    let end =
      log_lines-IsTracked max_bytes keep lines start pos limited fits removal
        (h, λ o. ground arith) in
    by (keep == 0) (ground (arith, nat_eq.equal_iff keep 0)) end.0
  where
    start : Writer
    start = record {
      files = f;
      is_open = opened;
      size = if opened then length (contents f 0) else 0;
    }

    by :
        (b : Bool)
        → b ≡ false
        → Kept max_bytes keep (log_lines max_bytes keep lines start).files
        → Kept max_bytes keep (if b then start else log_lines max_bytes keep lines start).files
    by true e k = cc
    by false e k = k
