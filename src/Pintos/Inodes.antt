-- ===== src/Pintos/Inodes.antt =====
-- group1/pintos/src/filesys/inode.c: the inodes on the device and the list open_inodes. An open
-- inode is named by its sector, and a name that is not in the list would be a dangling pointer, which
-- is a fault, as is a length whose count of sectors overflows. Counts of openers stay within int, and stop at 0 here.
pub mod Encoding
pub mod Create
pub mod Fresh
pub mod Openers
pub mod Holds
pub mod Steps
pub mod Close
use sum.Prelude.{
  ℕ, zero, suc, ◌+◌, ◌-◌, ◌%◌, ◌^◌, Bool, true, false, Option, none, some, List, [], ◌∷◌, ◌++◌,
  get_elem?, replicate, leb, ltb, ◌==◌, if◌then◌else◌, Run, done, fault, ◌>>=◌,
}
use sum.Pintos.Block
use sum.Pintos.Block.{Block, sector_size}
use sum.Pintos.Bitmap.{assert}
use sum.Pintos.Bitmap.Io.{word_bytes, words_of}
use sum.Pintos.Content.{InodeDisk, Inode, bytes_to_sectors}
use sum.Pintos.FreeMap.{Fs, find, allocate, release}

abbrev pub inode_magic : ℕ
inode_magic = 1229868868

-- `struct inode_disk` as it lies in a sector.
unfoldable pub encode : InodeDisk → List ℕ
encode c = word_bytes c.start ++ (word_bytes c.length ++ (word_bytes c.magic ++ replicate 500 0))

abbrev pub word_at : List ℕ → ℕ → ℕ
word_at ws i = elim (get_elem? ws i) [ none ↦ 0 | some w ↦ w ]

unfoldable pub decode : List ℕ → InodeDisk
unfolding words_of
decode bytes =
    let ws = words_of bytes in
    record { start = word_at ws 0; length = word_at ws 1; magic = word_at ws 2 }

-- The inode of a sector changed, and taken out of the list.
abbrev pub change : (Inode → Inode) → List Inode → ℕ → List Inode
change g [] s = []
change g (n ∷ ns) s = if n.sector == s then g n ∷ ns else n ∷ change g ns s

abbrev pub without : List Inode → ℕ → List Inode
without [] s = []
without (n ∷ ns) s = if n.sector == s then ns else n ∷ without ns s

-- A change of the open inode of a sector, as it is found in the list.
abbrev pub update : Fs → ℕ → (Inode → Run Inode) → Option Inode → Run Fs
update f s g none = fault
update f s g (some n) =
    g n >>= λ n'. done (record f { open_inodes = change (λ old. n') f.open_inodes s })

abbrev pub with_inode : Fs → ℕ → (Inode → Run Inode) → Run Fs
with_inode f s g = update f s g (find f.open_inodes s)

-- The loop of inode_create over the data.
unfoldable pub zero_from : ℕ → Block → ℕ → Run Block
zero_from zero d s = done d
zero_from (suc left) d s =
    Block.write d (s % 2 ^ 32) (replicate sector_size 0) >>= λ d'. zero_from left d' (s + 1)

-- The end of inode_create, from the first sector of the data on.
unfoldable pub fill : Fs → ℕ → ℕ → Option ℕ → Run (Bool × Fs)
unfolding encode zero_from
fill f sector length none = done (false, f)
fill f sector length (some start) =
    let content : InodeDisk = record { start = start; length = length; magic = inode_magic } in
    Block.write f.disk sector (encode content) >>= λ d.
    zero_from (bytes_to_sectors length) d start >>= λ d'. done (true, record f { disk = d' })

-- inode_open, for an inode that is not in the list; `got` tells whether calloc or malloc gives the
-- structure.
unfoldable pub load_inode : Bool → Fs → ℕ → Run (Bool × Fs)
unfolding decode
load_inode got f s =
    if got
    then (Block.read f.disk s >>= λ bytes.
        let n : Inode = record {
          sector = s;
          open_cnt = 1;
          removed = false;
          deny_write_cnt = 0;
          content = decode bytes;
        } in
        done (true, record f { open_inodes = n ∷ f.open_inodes }))
    else done (false, f)

abbrev pub reopened : Inode → Inode
reopened n = record n { open_cnt = n.open_cnt + 1 }

unfoldable pub reopen : Fs → ℕ → Run Fs
reopen f s = with_inode f s (λ n. done (reopened n))

-- inode_open, from the inode found in the list on: whether it gives an inode, and the state.
abbrev pub open_found : Bool → Fs → ℕ → Option Inode → Run (Bool × Fs)
open_found got f s none = load_inode got f s
open_found got f s (some n) = reopen f s >>= λ f'. done (true, f')

unfoldable pub open_inode : Bool → Fs → ℕ → Run (Bool × Fs)
open_inode got f s = open_found got f s (find f.open_inodes s)

-- inode_remove
unfoldable pub remove : Fs → ℕ → Run Fs
remove f s = with_inode f s (λ n. done (record n { removed = true }))

unfoldable pub deny_write : Fs → ℕ → Run Fs
deny_write f s = with_inode f s (λ n.
    assert (leb (n.deny_write_cnt + 1) n.open_cnt)
      (done (record n { deny_write_cnt = n.deny_write_cnt + 1 })))

unfoldable pub allow_write : Fs → ℕ → Run Fs
allow_write f s = with_inode f s (λ n. assert (ltb 0 n.deny_write_cnt) (
    assert (leb n.deny_write_cnt n.open_cnt)
      (done (record n { deny_write_cnt = n.deny_write_cnt - 1 }))))

-- The sum of DIV_ROUND_UP in bytes_to_sectors does not overflow an int.
abbrev pub is_countable : ℕ → Bool
is_countable length = ltb (length + sector_size) (2 ^ 31)

module _ (mem : Bool) where
  unfoldable pub create : Bool → Fs → ℕ → ℕ → Run (Bool × Fs)
  unfolding fill
  create got f sector length =
      if got
      then assert (is_countable length)
          (allocate mem f (bytes_to_sectors length) >>= λ r. fill r.1 sector length r.0)
      else done (false, f)

  -- The blocks of a removed inode are freed.
  unfoldable pub deallocate : Fs → Inode → Run Fs
  deallocate f n = release mem f n.sector 1 >>= λ f'.
      assert (is_countable n.content.length)
        (release mem f' n.content.start (bytes_to_sectors n.content.length))

  -- inode_close, from the inode found in the list on.
  abbrev pub close_found : Fs → ℕ → Option Inode → Run Fs
  close_found f s none = fault
  close_found f s (some n) =
      let f' = record f { open_inodes = without f.open_inodes s } in
      if n.open_cnt == 1
      then if n.removed then deallocate f' n else done f'
      else done (record f {
        open_inodes = change (λ old. record n { open_cnt = n.open_cnt - 1 }) f.open_inodes s;
      })

  unfoldable pub close : Fs → ℕ → Run Fs
  close f s = close_found f s (find f.open_inodes s)
