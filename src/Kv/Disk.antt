-- ===== src/Kv/Disk.antt =====
-- The directory of a server as its store and its log use it: an interface to the file system with
-- the documented behaviour of stat, mkdir, fopen, fread, fwrite, open, read, write, rename and
-- remove. A file of the store is named by its hash and its place in the chain
-- (`hash-place.entry`), a file of the log by its number (`number.log`).
use sum.Prelude.{ℕ, ◌≡◌, Bool, false, ◌&&◌, Option, some, List, ◌==◌, if◌then◌else◌}
use sum.Kv.Codes.{MsgType}

-- What stands under a name: nothing, a file that cannot be opened, or a file.
pub data Node {ℓ} (A : Type ℓ) : Type ℓ where
  absent : Node A
  locked : Node A
  file : A → Node A

-- `kventry_t`: the length and the bytes of `data`.
pub record KvEntry : Type 0 where
  pub length : ℕ
  pub bytes : List ℕ

-- `logentry_t`
pub record LogEntry : Type 0 where
  pub type : MsgType
  pub length : ℕ
  pub bytes : List ℕ

-- How the write to an open file ends: with an error, with a part of the entry written, or with
-- all of it. In each case the directory is another one.
pub data Written {ℓ} (A : Type ℓ) : Type ℓ where
  failed : A → Written A
  cut : A → Written A
  whole : A → Written A

abbrev pub after {ℓ} : {A : Type ℓ} → Written A → A
after (failed a) = a
after (cut a) = a
after (whole a) = a

pub record FileSystem : Type 1 where
  pub Disk : Type 0
  pub has_dir : Disk → Bool
  pub make_dir : Disk → Option Disk
  -- The positive code that a failed call leaves in `errno`.
  pub errno : Disk → ℕ
  pub entry_at : Disk → ℕ → ℕ → Node KvEntry
  pub log_at : Disk → ℕ → Node LogEntry
  -- Whether fopen for writing opens a file of the store; if not, nothing changes.
  pub can_create : Disk → ℕ → ℕ → Bool
  -- fopen, fwrite and fclose of a file that can be opened. What is read in a file that was not
  -- written whole is not said.
  pub write_entry : Disk → ℕ → ℕ → KvEntry → Written Disk
  -- A rename, a remove and a make_dir are `none` if the call fails; it then changes nothing.
  pub rename_entry : Disk → ℕ → ℕ → ℕ → Option Disk
  pub remove_entry : Disk → ℕ → ℕ → Option Disk
  pub can_open : Disk → ℕ → Bool
  pub write_log : Disk → ℕ → LogEntry → Written Disk
  pub remove_log : Disk → ℕ → Option Disk
  -- Every file of the directory is removed, and the directory.
  pub clean : Disk → Disk
  pub entry_at-write :
      (d d' : Disk) (h i g j : ℕ) (e : KvEntry)
      → write_entry d h i e ≡ whole d'
      → entry_at d' g j ≡ (if h == g && i == j then file e else entry_at d g j)
  pub entry_at-other :
      (d : Disk) (h i g j : ℕ) (e : KvEntry)
      → (h == g && i == j) ≡ false
      → entry_at (after (write_entry d h i e)) g j ≡ entry_at d g j
  -- rename moves the file at place `i` of a chain to place `k`.
  pub entry_at-rename :
      (d d' : Disk) (h i k g j : ℕ)
      → rename_entry d h i k ≡ some d'
      → entry_at d' g j ≡ (
          if h == g && k == j
          then entry_at d h i
          else if h == g && i == j
          then absent
          else entry_at d g j)
  pub entry_at-remove :
      (d d' : Disk) (h i g j : ℕ)
      → remove_entry d h i ≡ some d'
      → entry_at d' g j ≡ (if h == g && i == j then absent else entry_at d g j)
  pub entry_at-write_log :
      (d : Disk) (n g j : ℕ) (e : LogEntry)
      → entry_at (after (write_log d n e)) g j ≡ entry_at d g j
  pub log_at-write :
      (d d' : Disk) (n j : ℕ) (e : LogEntry)
      → write_log d n e ≡ whole d'
      → log_at d' j ≡ (if n == j then file e else log_at d j)
  pub log_at-remove :
      (d d' : Disk) (n j : ℕ)
      → remove_log d n ≡ some d'
      → log_at d' j ≡ (if n == j then absent else log_at d j)
  pub log_at-write_entry :
      (d : Disk) (h i j : ℕ) (e : KvEntry) → log_at (after (write_entry d h i e)) j ≡ log_at d j
  pub log_at-rename_entry :
      (d d' : Disk) (h i k j : ℕ) → rename_entry d h i k ≡ some d' → log_at d' j ≡ log_at d j
  pub log_at-remove_entry :
      (d d' : Disk) (h i j : ℕ) → remove_entry d h i ≡ some d' → log_at d' j ≡ log_at d j
  pub has_dir-write :
      (d : Disk) (h i : ℕ) (e : KvEntry) → has_dir (after (write_entry d h i e)) ≡ has_dir d
  pub has_dir-rename :
      (d d' : Disk) (h i k : ℕ) → rename_entry d h i k ≡ some d' → has_dir d' ≡ has_dir d
  pub has_dir-remove :
      (d d' : Disk) (h i : ℕ) → remove_entry d h i ≡ some d' → has_dir d' ≡ has_dir d
  pub has_dir-write_log :
      (d : Disk) (n : ℕ) (e : LogEntry) → has_dir (after (write_log d n e)) ≡ has_dir d
  pub has_dir-remove_log : (d d' : Disk) (n : ℕ) → remove_log d n ≡ some d' → has_dir d' ≡ has_dir d
  pub clean_entries : (d : Disk) (g j : ℕ) → entry_at (clean d) g j ≡ absent
  pub clean_log : (d : Disk) (j : ℕ) → log_at (clean d) j ≡ absent
  pub clean_dir : (d : Disk) → has_dir (clean d) ≡ false
