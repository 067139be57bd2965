-- ===== src/LogWriter/Segments.antt =====
-- crates/artzain-core/src/process.rs: the files of a log as a list of segments, the active one first.
use artzain.Prelude.{
  ℕ, zero, suc, ◌+◌, ◌≡◌, ◌≤◌, ◌<◌, refl, Bool, true, false, ◌&&◌, some, List, [], ◌∷◌, ◌++◌,
  newline, Bytes, take, if◌then◌else◌, ◌==◌, nat_eq, ltb, is_some, unwrap_or, length, length-append,
  All, arith, ap, ap₂, ◌∙◌, sym,
}
use artzain.LogWriter.{
  Files, put, contents, rotate_log, Writer, Line, line_len, write_line, reopen, log_line, log_lines,
  log_writer,
}
use artzain.LogWriter.Rotation.{Rotated, rotate_log-Rotated, rotate_log_works}

-- The specification: a line goes to the end of the active segment, or, when that would pass the limit,
-- into a new segment, and then the oldest segment is dropped.
abbrev pub add_line : (max_bytes : ℕ) → Bytes → List Bytes → List Bytes
add_line max_bytes line [] = []
add_line max_bytes line (active ∷ old) =
    if ltb 0 max_bytes && ltb max_bytes (length active + (length line + 1))
    then (line ++ newline ∷ []) ∷ take (length old) (active ∷ old)
    else (active ++ (line ++ newline ∷ [])) ∷ old

abbrev pub add_lines : (max_bytes : ℕ) → List Line → List Bytes → List Bytes
add_lines max_bytes [] segments = segments
add_lines max_bytes (l ∷ rest) segments =
    add_lines max_bytes rest (add_line max_bytes l.text segments)

-- The files from `at` on, `n` of them; a file that is not there is an empty segment.
abbrev pub segments : (at n : ℕ) → Files → List Bytes
segments at zero f = []
segments at (suc n) f = contents f at ∷ segments (suc at) n f

length-segments : (at n : ℕ) (f : Files) → length (segments at n f) ≡ n
length-segments at zero f = refl
length-segments at (suc n) f = ap suc (length-segments (suc at) n f)

segments_same :
    (at n : ℕ) (f g : Files) → ((j : ℕ) → at ≤ j → g j ≡ f j) → segments at n g ≡ segments at n f
segments_same at zero f g h = refl
segments_same at (suc n) f g h =
    ap₂ ◌∷◌ (ap (λ o. unwrap_or o []) (h at (omega arith)))
      (segments_same (suc at) n f g (λ j le. h j (omega arith)))

segments_shifted :
    (at n : ℕ) (f g : Files)
    → ((j : ℕ) → j < at + n → g (suc j) ≡ f j)
    → segments (suc at) n g ≡ segments at n f
segments_shifted at zero f g h = refl
segments_shifted at (suc n) f g h =
    ap₂ ◌∷◌ (ap (λ o. unwrap_or o []) (h at (omega arith)))
      (segments_shifted (suc at) n f g (λ j lt. h j (omega arith)))

take-segments : (at n : ℕ) (f : Files) → take n (segments at (suc n) f) ≡ segments at n f
take-segments at zero f = refl
take-segments at (suc n) f = ap (λ l. contents f at ∷ l) (take-segments (suc at) n f)

-- The calls for a line work.
abbrev pub Works : Line → Type 0
Works l = ((i : ℕ) → l.renames i ≡ true) × ((l.reopens ≡ true) × (l.removes ≡ true))

-- The active file is there and open, and its size is known.
abbrev IsReady : Writer → Type 0
IsReady w =
    (w.is_open ≡ true) × ((is_some (w.files 0) ≡ true) × (w.size ≡ length (contents w.files 0)))

-- What a step makes of the segments.
abbrev Yields : (k : ℕ) → List Bytes → Writer → Type 0
Yields k l w = IsReady w × (segments 0 (suc k) w.files ≡ l)

module _ (max_bytes k : ℕ) where
  write_line-Yields :
      (l : Line) (w : Writer)
      → IsReady w
      → Yields k
          ((contents w.files 0 ++ (l.text ++ newline ∷ [])) ∷ segments 1 k w.files)
          (write_line l w)
  write_line-Yields l w (o, (there, sized)) = by w.is_open o
    where
      more : Bytes
      more = l.text ++ newline ∷ []

      grown : Writer
      grown = record {
        files = put 0 (some (contents w.files 0 ++ more)) w.files;
        is_open = true;
        size = w.size + line_len l;
      }

      long : length (contents w.files 0 ++ more) ≡ length (contents w.files 0) + line_len l
      long =
          omega
            (arith, length-append (contents w.files 0) more, length-append l.text (newline ∷ []))

      by :
          (b : Bool)
          → b ≡ true
          → Yields k ((contents w.files 0 ++ more) ∷ segments 1 k w.files) (if b then grown else w)
      by true e = (
        (refl, (ground (arith, nat_eq.equal_iff 0 0), omega (arith, long, sized))),
        ap (λ s. (contents w.files 0 ++ more) ∷ s)
            (segments_same 1 k w.files grown.files (λ j le. ground (arith, nat_eq.equal_iff 0 j))),
      )
      by false e = cc

  reopen-Yields :
      (l : Line) (f : Files) (w : Writer)
      → l.reopens ≡ true
      → Rotated (suc k) w.files f
      → Yields k ((l.text ++ newline ∷ []) ∷ segments 0 k w.files) (reopen l f w)
  reopen-Yields l f w o (gone, (moved, above)) = by l.reopens o
    where
      fresh : Writer
      fresh = record { files = put 0 (some (contents f 0)) f; is_open = true; size = 0 }

      empty : contents fresh.files 0 ≡ []
      empty = ground (arith, nat_eq.equal_iff 0 0)

      older : segments 1 k fresh.files ≡ segments 0 k w.files
      older =
          segments_shifted 0 k w.files fresh.files
            (λ j lt. ground (arith, moved j (omega arith), nat_eq.equal_iff 0 (suc j)))

      by :
          (b : Bool)
          → b ≡ true
          → Yields k ((l.text ++ newline ∷ []) ∷ segments 0 k w.files) (
              if b
              then write_line l fresh
              else record { files = f; is_open = false; size = w.size })
      by true e =
          let (ready, grown) =
            write_line-Yields l fresh
              (refl, (ground (arith, nat_eq.equal_iff 0 0), ap length (sym empty))) in
          (ready, grown ∙ ap₂ (λ a s. (a ++ (l.text ++ newline ∷ [])) ∷ s) empty older)
      by false e = cc

  log_line-Yields :
      (l : Line) (w : Writer)
      → Works l
      → IsReady w
      → Yields k
          (add_line max_bytes l.text (segments 0 (suc k) w.files))
          (log_line max_bytes (suc k) l w)
  unfolding log_line
  log_line-Yields l w works (open_now, (there, sized)) =
      by (ltb 0 max_bytes && ltb max_bytes (w.size + line_len l))
        (ap (λ n. ltb 0 max_bytes && ltb max_bytes (n + line_len l)) (sym sized))
        (rotate_log l.removes l.renames (suc k) w.files).0
        (rotate_log_works l.removes l.renames (suc k) w.files works.0 there)
    where
      f : Files
      f = (rotate_log l.removes l.renames (suc k) w.files).1

      rotated_well : Rotated (suc k) w.files f
      rotated_well =
          rotate_log-Rotated l.removes l.renames (suc k) w.files works.1.1
            (rotate_log_works l.removes l.renames (suc k) w.files works.0 there)

      oldest_dropped :
          take (length (segments 1 k w.files)) (segments 0 (suc k) w.files) ≡ segments 0 k w.files
      oldest_dropped = rw (length-segments 1 k w.files) (take-segments 0 k w.files)

      by :
          (full : Bool)
          → (ltb 0 max_bytes && ltb max_bytes (length (contents w.files 0) + line_len l)) ≡ full
          → (rotated : Bool) → rotated ≡ true
          → Yields k (add_line max_bytes l.text (segments 0 (suc k) w.files)) (
              if full
              then (if rotated
                  then reopen l f w
                  else record { files = f; is_open = false; size = w.size })
              else write_line l w)
      by true e true r = rw (e, oldest_dropped) (reopen-Yields l f w works.1.0 rotated_well)
      by true e false r = cc
      by false e rotated r = rw e (write_line-Yields l w (open_now, (there, sized)))

  log_lines_refine :
      (lines : List Line) (w : Writer)
      → All Works lines
      → IsReady w
      → segments 0 (suc k) (log_lines max_bytes (suc k) lines w).files
        ≡ add_lines max_bytes lines (segments 0 (suc k) w.files)
  unfolding log_lines
  log_lines_refine [] w works ready = refl
  log_lines_refine (l ∷ rest) w works ready =
      let (still, h) = log_line-Yields l w works.0 ready in
      log_lines_refine rest (log_line max_bytes (suc k) l w) works.1 still
      ∙ ap (add_lines max_bytes rest) h

-- When at least one file is kept, the log is open, and removing, renaming and opening work: the files of the log
-- are the segments that the specification makes of those of before, line by line.
pub log_writer_refines :
    (max_bytes k : ℕ) (lines : List Line) (f : Files)
    → All Works lines
    → is_some (f 0) ≡ true
    → segments 0 (suc k) (log_writer max_bytes (suc k) lines true f).files
      ≡ add_lines max_bytes lines (segments 0 (suc k) f)
unfolding log_writer
log_writer_refines max_bytes k lines f works there =
    by (suc k == 0) (ground (arith, nat_eq.equal_iff (suc k) 0))
      (log_lines_refine max_bytes k lines start works (refl, (there, refl)))
  where
    start : Writer
    start = record { files = f; is_open = true; size = length (contents f 0) }

    by :
        (b : Bool)
        → b ≡ false
        → segments 0 (suc k) (log_lines max_bytes (suc k) lines start).files
          ≡ add_lines max_bytes lines (segments 0 (suc k) f)
        → segments 0 (suc k) (if b then start else log_lines max_bytes (suc k) lines start).files
          ≡ add_lines max_bytes lines (segments 0 (suc k) f)
    by true e h = cc
    by false e h = h
