-- ===== src/Tests/Files.antt =====
-- Files, logs and the HTTP probe.
use artzain.Prelude.{
  ◌≡◌, inr, ◌||◌, ◌*◌, refl, true, false, not, none, some, String, List, [], ◌∷◌, ◌++◌, Bytes,
  codes, map, map_or, ltb, leb, if◌then◌else◌, ◌==◌, nat_eq, ◌&&◌, length, arith,
}
use artzain.Disk.{Disk, FilePath}
use artzain.Paths.{Outcome, temp_sibling, write_private_file}
use artzain.Paths.Atomic.{IsAtomic, write_private_file-IsAtomic}
use artzain.LogWriter.{Files, Line, log_writer}
use artzain.LogWriter.Bounded.{Kept, log_writer-Kept}
use artzain.LogWriter.Segments.{segments, add_lines, Works, log_writer_refines}
use artzain.LogReader.{tail, printed, panicked}
use artzain.LogReader.Tail.{last_of, tail-last_of}
use artzain.Probe.{status_ok, http_get}
use artzain.Probe.StatusLine.{status_line, three_digits, status_ok-status_line}
use artzain.Fixture.{Script}
use artzain.Fixture.Probed.{fixture, http_get-scripted}

abbrev empty_disk : Disk
empty_disk = record { files = λ p. none; dir_mode = λ d. none }

-- Everything works but the renaming.
abbrev not_renamed : Outcome
not_renamed = record {
  default_mode = 493;
  dir_created = true;
  dir_secured = true;
  opened = true;
  wrote = none;
  synced = true;
  renamed = false;
  temp_removed = true;
}

abbrev lock_path : FilePath
lock_path = (codes "run", codes "lock.json")

write_private_file-IsAtomic_example :
    IsAtomic empty_disk.files
      (temp_sibling (codes "7") lock_path)
      lock_path
      (codes "{}")
      empty_disk
      (write_private_file not_renamed (codes "7") lock_path (codes "{}") empty_disk)
write_private_file-IsAtomic_example =
    write_private_file-IsAtomic not_renamed (codes "7") lock_path (codes "{}") empty_disk

abbrev line : String → Line
line s = record { text = codes s; removes = true; renames = λ i. true; reopens = true }

abbrev three_lines : List Line
three_lines = line "one" ∷ line "two" ∷ line "three" ∷ []

abbrev fresh_log : Files
fresh_log i = if i == 0 then some [] else none

-- A limit of eight bytes: two lines fit, the third one goes to a new file.
rotated :
    segments 0 2 (log_writer 8 2 three_lines true fresh_log).files
    ≡ codes "three\n" ∷ codes "one\ntwo\n" ∷ []
unfolding log_writer
rotated = refl

log_writer-Kept_example : Kept 8 2 (log_writer 8 2 three_lines true fresh_log).files
log_writer-Kept_example =
    log_writer-Kept 8 2 three_lines true fresh_log (omega arith) (omega arith)
      (omega arith, (omega arith, (omega arith, tt))) (inr refl, (inr refl, (inr refl, tt)))
      (λ j. ground (arith, nat_eq.equal_iff j 0))

log_writer_refines_example :
    segments 0 2 (log_writer 8 2 three_lines true fresh_log).files
    ≡ add_lines 8 three_lines (segments 0 2 fresh_log)
log_writer_refines_example =
    log_writer_refines 8 1 three_lines fresh_log ((works "one"), (works "two", (works "three", tt)))
      refl
  where
    works : (s : String) → Works (line s)
    works s = ((λ i. refl), (refl, refl))

abbrev letters : List Bytes
letters = codes "a" ∷ codes "b" ∷ codes "c" ∷ []

tail-last_of_example : tail 2 (some (map some letters)) ≡ (
    if ltb 9223372036854775807 (2 * 24) || (nat_eq.equal 2 0 && ltb 0 (length letters))
    then panicked
    else printed (last_of 2 letters))
tail-last_of_example = tail-last_of 2 letters

abbrev plain : Bytes → Bytes
plain l = l

status_ok-status_line_example :
    status_ok plain
      (status_line (codes "HTTP/1.1") (three_digits 3 0 2) (codes "Found") ++ 13 ∷ codes "\n")
    ≡ (leb 2 3 && ltb 3 4)
status_ok-status_line_example =
    status_ok-status_line plain (codes "HTTP/1.1") (codes "Found") (codes "\n") 3 0 2 (λ l h. refl)
      refl refl (omega arith) (omega arith) (omega arith) refl refl

-- Ready from 500 on, and alive for good.
abbrev slow_start : Script
slow_start = record {
  ready_after = some 500;
  live_fail_after = none;
  vars = [];
  uid = 1000;
  gid = 1000;
  limit_lines = [];
}

http_get-scripted_example :
    (http_get plain (fixture plain slow_start 300) (codes "127.0.0.1:8080") (codes "/__ready")
      ≡ map_or slow_start.ready_after true (λ d. leb d 300))
    × (http_get plain (fixture plain slow_start 300) (codes "127.0.0.1:8080") (codes "/__health")
        ≡ not (map_or slow_start.live_fail_after false (λ d. leb d 300)))
http_get-scripted_example =
    http_get-scripted plain slow_start 300 (codes "127.0.0.1:8080") (λ l h. refl) refl
