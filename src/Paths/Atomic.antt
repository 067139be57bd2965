-- ===== src/Paths/Atomic.antt =====
-- crates/artzain-core/src/paths.rs: what a reader can see while `write_private_file` runs.
use artzain.Prelude.{
  ℕ, ◌≡◌, ◌⊎◌, inl, inr, refl, Bool, true, false, Option, none, some, List, [], ◌∷◌, ◌++◌, Bytes,
  codes, if◌then◌else◌, map_or, take, All, length, length-append, arith, ap, subst, bytes_eq,
  Bool-cases,
}
use artzain.Disk.{FilePath, same_path, same_path_iff, FileData, Disk, put_file, rename}
use artzain.Paths.{
  Outcome, ensure_private_dir, temp_sibling, opened_mode, write_then_sync, last_of, replace,
  write_private_file, private_file,
}

temp_sibling_ne : (pid : Bytes) (p : FilePath) → (same_path (temp_sibling pid p) p) ≡ false
temp_sibling_ne pid (dir, name) =
    elim (Bool-cases (same_path (temp_sibling pid (dir, name)) (dir, name))) [
      | inr other ↦ other
      | inl same ↦
          let e = (same_path_iff (temp_sibling pid (dir, name)) (dir, name)).0 same in
          let lengths : length (name ++ (codes "." ++ (pid ++ codes ".tmp"))) ≡ length name =
            ap (λ (q : FilePath). length q.1) e in
          absurd (omega (arith, lengths, length-append name (codes "." ++ (pid ++ codes ".tmp"))))
    ]

abbrev pub Files : Type 0
Files = FilePath → Option FileData

-- The file at `path` is the old one, or the new one whole, and no other file has changed but the
-- temporary one.
abbrev pub OldOrNew : Files → FilePath → FilePath → FileData → Disk → Type 0
OldOrNew old tmp path new s =
    ((s.files path ≡ old path) ⊎ (s.files path ≡ some new))
    × ((q : FilePath) → same_path path q ≡ false → same_path tmp q ≡ false → s.files q ≡ old q)

-- The new file: the temporary file keeps its mode if one is there.
abbrev pub new_file : Files → FilePath → Bytes → FileData
new_file old tmp contents = record {
  contents = contents;
  mode = map_or (old tmp) private_file (λ f. f.mode);
}

-- The last state of a call: the new file without the temporary one, or the old file.
abbrev pub Ends : Files → FilePath → FilePath → Bytes → Bool → Disk → Type 0
Ends old tmp path contents true s =
    (s.files path ≡ some (new_file old tmp contents)) × (s.files tmp ≡ none)
Ends old tmp path contents false s = s.files path ≡ old path

-- What the states of a call show, and its result; `d` stands for the last state of an empty list.
abbrev pub IsAtomic : Files → FilePath → FilePath → Bytes → Disk → Bool × List Disk → Type 0
IsAtomic old tmp path contents d x =
    All (OldOrNew old tmp path (new_file old tmp contents)) x.1
    × Ends old tmp path contents x.0 (last_of d x.1)

-- The same, by cases on the result; `d` stands for the last state of an empty list.
abbrev Shows : Files → FilePath → FilePath → Bytes → Disk → Bool × List Disk → Type 0
Shows old tmp path contents d x =
    All (OldOrNew old tmp path (new_file old tmp contents)) x.1
    × ((x.0 ≡ true
          → ((last_of d x.1).files path ≡ some (new_file old tmp contents))
            × ((last_of d x.1).files tmp ≡ none))
        × (x.0 ≡ false → (last_of d x.1).files path ≡ old path))

-- Nothing but the temporary file has changed yet.
abbrev OnlyTemp : Disk → FilePath → Disk → Type 0
OnlyTemp d tmp s = (q : FilePath) → same_path tmp q ≡ false → s.files q ≡ d.files q

module _ (o : Outcome) (d : Disk) (tmp path : FilePath) (contents : Bytes)
    (apart : same_path tmp path ≡ false) where
  abbrev new : FileData
  new = new_file d.files tmp contents

  OnlyTemp-OldOrNew : (s : Disk) → OnlyTemp d tmp s → OldOrNew d.files tmp path new s
  OnlyTemp-OldOrNew s h = (inl (h path apart), λ q a b. h q b)

  -- What `write_then_sync` leaves, and that a success has written all.
  abbrev Filled : Bool × List Disk → Type 0
  Filled x =
      All (OnlyTemp d tmp) x.1
      × (OnlyTemp d tmp (last_of d x.1) × (x.0 ≡ true → (last_of d x.1).files tmp ≡ some new))

  write_then_sync-Filled : Filled (write_then_sync o tmp contents d)
  unfolding write_then_sync
  write_then_sync-Filled = by o.opened o.wrote
    where
      by :
          (b : Bool) (n : Option ℕ)
          → Filled (
              let mode = opened_mode tmp d in
              let truncated = put_file tmp (some (record { contents = []; mode = mode })) d in
              let written = map_or n contents (λ m. take m contents) in
              let filled =
                put_file tmp (some (record { contents = written; mode = mode })) truncated in
              if b then (map_or n o.synced (λ m. false), truncated ∷ filled ∷ []) else (false, []))
      by true none = (
        ((λ q a. ground arith), ((λ q a. ground arith), tt)),
        ((λ q a. ground arith), λ h. ground (arith, same_path_iff tmp tmp)),
      )
      by true (some m) =
          (((λ q a. ground arith), ((λ q a. ground arith), tt)), ((λ q a. ground arith), λ h. cc))
      by false n = (tt, ((λ q a. refl), λ h. cc))

  abbrev Replaced : Bool × List Disk → Type 0
  Replaced = Shows d.files tmp path contents d

  last_of-snoc : (s t : Disk) (l : List Disk) → last_of s (l ++ t ∷ []) ≡ t
  last_of-snoc s t [] = refl
  last_of-snoc s t (u ∷ l) = last_of-snoc u t l

  OldOrNew-snoc :
      (l : List Disk) (t : Disk)
      → All (OnlyTemp d tmp) l
      → OldOrNew d.files tmp path new t
      → All (OldOrNew d.files tmp path new) (l ++ t ∷ [])
  OldOrNew-snoc [] t h k = (k, tt)
  OldOrNew-snoc (s ∷ l) t h k = (OnlyTemp-OldOrNew s h.0, OldOrNew-snoc l t h.1 k)

  replace-Replaced :
      (written : Bool) (states : List Disk)
      → Filled (written, states)
      → Replaced (replace o tmp path d (written, states))
  replace-Replaced written states (h, (k, full)) = by written full o.renamed o.temp_removed
    where
      s : Disk
      s = last_of d states

      failed : (t : Disk) → OnlyTemp d tmp t → Replaced (false, states ++ t ∷ [])
      failed t only = (
        OldOrNew-snoc states t h (OnlyTemp-OldOrNew t only),
        ((λ e. cc), λ e. rw (last_of-snoc d t states) (only path apart)),
      )

      -- A failure takes the temporary file away, if it can.
      given_up :
          (removed : Bool)
          → Replaced (false, states ++ (if removed then put_file tmp none s else s) ∷ [])
      given_up true = failed (put_file tmp none s) (λ q a. ground (arith, k q))
      given_up false = failed s k

      by :
          (w : Bool)
          → (w ≡ true → s.files tmp ≡ some new)
          → (renamed removed : Bool)
          → Replaced (
              if w
              then (if renamed
                  then (true, states ++ rename tmp path s ∷ [])
                  else (false, states ++ (if removed then put_file tmp none s else s) ∷ []))
              else (false, states ++ (if removed then put_file tmp none s else s) ∷ []))
      by true f true removed =
          let t = rename tmp path s in
          let filled = f refl in
          let same = same_path_iff path path in
          let swapped = same_path_iff path tmp in
          let turned = same_path_iff tmp path in
          let at_path : t.files path ≡ some new = ground arith in
          let at_tmp : t.files tmp ≡ none = ground (arith, same_path_iff tmp tmp) in
          (
            OldOrNew-snoc states t h (inr at_path, λ q a b. ground (arith, k q)),
            ((λ e. rw (last_of-snoc d t states) (at_path, at_tmp)), λ e. cc),
          )
      by true f false removed = given_up removed
      by false f renamed removed = given_up removed

ensure_private_dir-files :
    (o : Outcome) (dir : Bytes) (d : Disk) → (ensure_private_dir o dir d).1.files ≡ d.files
unfolding ensure_private_dir
ensure_private_dir-files o dir d = ground arith

write_private_file-Shows :
    (o : Outcome) (pid : Bytes) (path : FilePath) (contents : Bytes) (d : Disk)
    → Shows d.files
        (temp_sibling pid path)
        path
        contents
        d
        (write_private_file o pid path contents d)
unfolding write_private_file
write_private_file-Shows o pid path contents d = by (ensure_private_dir o path.0 d).0
  where
    tmp : FilePath
    tmp = temp_sibling pid path

    s : Disk
    s = (ensure_private_dir o path.0 d).1

    same : s.files ≡ d.files
    same = ensure_private_dir-files o path.0 d

    rest : Bool × List Disk
    rest = replace o tmp path s (write_then_sync o tmp contents s)

    replaced : Shows d.files tmp path contents s rest
    replaced =
        subst (λ f. Shows f tmp path contents s rest) same
          (replace-Replaced o s tmp path contents (temp_sibling_ne pid path)
            (write_then_sync o tmp contents s).0 (write_then_sync o tmp contents s).1
            (write_then_sync-Filled o s tmp path contents (temp_sibling_ne pid path)))

    first : OldOrNew d.files tmp path (new_file d.files tmp contents) s
    first = (inl (ap (λ (f : Files). f path) same), λ q a b. ap (λ (f : Files). f q) same)

    by :
        (b : Bool)
        → Shows d.files tmp path contents d (if b then (rest.0, s ∷ rest.1) else (false, s ∷ []))
    by true = ((first, replaced.0), replaced.1)
    by false = ((first, tt), ((λ e. cc), λ e. ap (λ (f : Files). f path) same))

Shows-IsAtomic :
    (old : Files) (tmp path : FilePath) (contents : Bytes) (d : Disk) (b : Bool) (l : List Disk)
    → Shows old tmp path contents d (b, l)
    → IsAtomic old tmp path contents d (b, l)
Shows-IsAtomic old tmp path contents d true l h = (h.0, h.1.0 refl)
Shows-IsAtomic old tmp path contents d false l h = (h.0, h.1.1 refl)

-- Whichever of its calls fail: in each state that `write_private_file` goes through, the file is as
-- before, or holds the new contents whole, with mode 0600 unless a temporary file of this process
-- was left, and every other file but the temporary one is as before. If it succeeds, the file is the
-- new one and the temporary one is gone; if it fails, the file is as before.
pub write_private_file-IsAtomic :
    (o : Outcome) (pid : Bytes) (path : FilePath) (contents : Bytes) (d : Disk)
    → IsAtomic d.files
        (temp_sibling pid path)
        path
        contents
        d
        (write_private_file o pid path contents d)
write_private_file-IsAtomic o pid path contents d =
    let x = write_private_file o pid path contents d in
    Shows-IsAtomic d.files (temp_sibling pid path) path contents d x.0 x.1
      (write_private_file-Shows o pid path contents d)
