-- ===== src/Kv/Tests/Drive.antt =====
-- A file system for the tests: the files of each chain and of the log as functions of their names.
-- Every change succeeds.
use sum.Prelude.{ℕ, ◌≡◌, refl, Bool, true, false, ◌&&◌, Option, some, ◌==◌, if◌then◌else◌, arith}
use sum.Kv.Disk.{FileSystem, Node, absent, file, KvEntry, LogEntry, Written, whole, after}

pub record Files : Type 0 where
  pub dir : Bool
  pub entries : ℕ → ℕ → Node KvEntry
  pub logs : ℕ → Node LogEntry

-- A table of files with the file at one place changed.
abbrev pub at_entry : (ℕ → ℕ → Node KvEntry) → ℕ → ℕ → Node KvEntry → ℕ → ℕ → Node KvEntry
at_entry t h i n g j = if h == g && i == j then n else t g j

abbrev pub at_log : (ℕ → Node LogEntry) → ℕ → Node LogEntry → ℕ → Node LogEntry
at_log t n e j = if n == j then e else t j

abbrev pub put_file : Files → ℕ → ℕ → KvEntry → Written Files
put_file d h i e = whole (record d { entries = at_entry d.entries h i (file e) })

-- The source's file goes first, so that a file renamed to itself stays.
abbrev pub move_file : Files → ℕ → ℕ → ℕ → Option Files
move_file d h i k =
    some (record d { entries = at_entry (at_entry d.entries h i absent) h k (d.entries h i) })

abbrev pub remove_file : Files → ℕ → ℕ → Option Files
remove_file d h i = some (record d { entries = at_entry d.entries h i absent })

abbrev pub put_log : Files → ℕ → LogEntry → Written Files
put_log d n e = whole (record d { logs = at_log d.logs n (file e) })

abbrev pub drop_log : Files → ℕ → Option Files
drop_log d n = some (record d { logs = at_log d.logs n absent })

abbrev pub wipe : Files → Files
wipe d = record { dir = false; entries = λ g j. absent; logs = λ j. absent }

pub put_file_lem :
    (d d' : Files) (h i g j : ℕ) (e : KvEntry)
    → put_file d h i e ≡ whole d'
    → d'.entries g j ≡ (if h == g && i == j then file e else d.entries g j)
put_file_lem d d' h i g j e p = ground arith

pub move_file_lem :
    (d d' : Files) (h i k g j : ℕ)
    → move_file d h i k ≡ some d'
    → d'.entries g j ≡ (
        if h == g && k == j
        then d.entries h i
        else if h == g && i == j
        then absent
        else d.entries g j)
move_file_lem d d' h i k g j p = ground arith

pub remove_file_lem :
    (d d' : Files) (h i g j : ℕ)
    → remove_file d h i ≡ some d'
    → d'.entries g j ≡ (if h == g && i == j then absent else d.entries g j)
remove_file_lem d d' h i g j p = ground arith

pub put_log_lem :
    (d d' : Files) (n j : ℕ) (e : LogEntry)
    → put_log d n e ≡ whole d'
    → d'.logs j ≡ (if n == j then file e else d.logs j)
put_log_lem d d' n j e p = ground arith

pub drop_log_lem :
    (d d' : Files) (n j : ℕ)
    → drop_log d n ≡ some d'
    → d'.logs j ≡ (if n == j then absent else d.logs j)
drop_log_lem d d' n j p = ground arith

-- What each change leaves alone.
pub move_file_keeps :
    (d d' : Files) (h i k : ℕ) → move_file d h i k ≡ some d' → (d'.logs ≡ d.logs) × (d'.dir ≡ d.dir)
move_file_keeps d d' h i k p = (ground arith, ground arith)

pub remove_file_keeps :
    (d d' : Files) (h i : ℕ) → remove_file d h i ≡ some d' → (d'.logs ≡ d.logs) × (d'.dir ≡ d.dir)
remove_file_keeps d d' h i p = (ground arith, ground arith)

pub drop_log_keeps : (d d' : Files) (n : ℕ) → drop_log d n ≡ some d' → d'.dir ≡ d.dir
drop_log_keeps d d' n p = ground arith

pub put_file_other :
    (d : Files) (h i g j : ℕ) (e : KvEntry)
    → (h == g && i == j) ≡ false
    → (after (put_file d h i e)).entries g j ≡ d.entries g j
put_file_other d h i g j e apart = rw apart refl

abbrev pub drive : FileSystem
drive = record {
  Disk = Files;
  has_dir = λ d. d.dir;
  make_dir = λ d. some (record d { dir = true });
  errno = λ d. 2;
  entry_at = λ d. d.entries;
  log_at = λ d. d.logs;
  can_create = λ d h i. true;
  write_entry = put_file;
  rename_entry = move_file;
  remove_entry = remove_file;
  can_open = λ d n. true;
  write_log = put_log;
  remove_log = drop_log;
  clean = wipe;
  entry_at-write = put_file_lem;
  entry_at-other = put_file_other;
  entry_at-rename = move_file_lem;
  entry_at-remove = remove_file_lem;
  entry_at-write_log = λ d n g j e. refl;
  log_at-write = put_log_lem;
  log_at-remove = drop_log_lem;
  log_at-write_entry = λ d h i j e. refl;
  log_at-rename_entry = λ d d' h i k j p t. (move_file_keeps d d' h i k p).0 t j;
  log_at-remove_entry = λ d d' h i j p t. (remove_file_keeps d d' h i p).0 t j;
  has_dir-write = λ d h i e. refl;
  has_dir-rename = λ d d' h i k p. (move_file_keeps d d' h i k p).1;
  has_dir-remove = λ d d' h i p. (remove_file_keeps d d' h i p).1;
  has_dir-write_log = λ d n e. refl;
  has_dir-remove_log = drop_log_keeps;
  clean_entries = λ d g j. refl;
  clean_log = λ d j. refl;
  clean_dir = λ d. refl;
}
