-- ===== src/Pintos/File.antt =====
-- group1/pintos/src/filesys/file.c: an open file, with its position, over the inodes; and the
-- functions of free-map.c that open and make the file of the free map. The inode of a file is named by
-- its sector, and stands in the list of open inodes, as does the device, in the state of FreeMap.
pub mod Sequential
pub mod Mount
use sum.Prelude.{
  ℕ, ◌+◌, Bool, true, false, Option, none, some, List, length, if◌then◌else◌, Run, done, fault,
  ◌>>=◌,
}
use sum.Pintos.Block.{Block}
use sum.Pintos.Bitmap.{Bitmap}
use sum.Pintos.Bitmap.Io.{file_size, load}
use sum.Pintos.Content
use sum.Pintos.Content.{Inode}
use sum.Pintos.FreeMap.{Fs, find, save_map, free_map_sector}
use sum.Pintos.Inodes
use sum.Pintos.Inodes.{create, open_inode, reopen, close}

-- `struct file`
pub record File : Type 0 where
  pub inode : ℕ
  pub pos : ℕ
  pub deny_write : Bool

-- The inode of a file.
abbrev pub inode_of : Fs → File → Run Inode
inode_of f x = elim (find f.open_inodes x.inode) [ none ↦ fault | some n ↦ done n ]

-- file_deny_write and file_allow_write.
unfoldable pub deny : Fs → File → Run (File × Fs)
deny f x =
    if x.deny_write
    then done (x, f)
    else (Inodes.deny_write f x.inode >>= λ f'. done (record x { deny_write = true }, f'))

unfoldable pub allow : Fs → File → Run (File × Fs)
allow f x =
    if x.deny_write
    then (Inodes.allow_write f x.inode >>= λ f'. done (record x { deny_write = false }, f'))
    else done (x, f)

-- file_length
unfoldable pub size : Fs → File → Run ℕ
size f x = inode_of f x >>= λ n. done n.content.length

-- file_seek and file_tell.
unfoldable pub seek : File → ℕ → File
seek x pos = record x { pos = pos }

unfoldable pub tell : File → ℕ
tell x = x.pos

module _ (mem : Bool) where
  -- file_open: `got` tells whether calloc gives the structure, and the inode may be null.
  unfoldable pub open_file : Bool → Fs → Option ℕ → Run (Option File × Fs)
  open_file got f none = done (none, f)
  open_file got f (some s) =
      if got
      then done (some (record { inode = s; pos = 0; deny_write = false }), f)
      else (close mem f s >>= λ f'. done (none, f'))

  unfoldable pub reopen_file : Bool → Fs → File → Run (Option File × Fs)
  unfolding open_file
  reopen_file got f x = reopen f x.inode >>= λ f'. open_file got f' (some x.inode)

  unfoldable pub close_file : Fs → File → Run Fs
  unfolding allow
  close_file f x = allow f x >>= λ r. close mem r.1 x.inode

  -- file_read: the bytes, and the file.
  unfoldable pub read : Fs → File → ℕ → Run (List ℕ × File)
  read f x count = inode_of f x >>= λ n. Content.read_at mem f.disk n count x.pos >>= λ bytes.
      done (bytes, record x { pos = x.pos + length bytes })

  unfoldable pub read_at : Fs → File → ℕ → ℕ → Run (List ℕ)
  read_at f x count offset = inode_of f x >>= λ n. Content.read_at mem f.disk n count offset

  -- file_write: the number of bytes written, the file, and the state.
  unfoldable pub write : Fs → File → List ℕ → Run (ℕ × File × Fs)
  write f x bytes = inode_of f x >>= λ n. Content.write_at mem f.disk n bytes x.pos >>= λ r.
      done (r.0, record x { pos = x.pos + r.0 }, record f { disk = r.1 })

  unfoldable pub write_at : Fs → File → List ℕ → ℕ → Run (ℕ × Fs)
  write_at f x bytes offset = inode_of f x >>= λ n.
      Content.write_at mem f.disk n bytes offset >>= λ r. done (r.0, record f { disk = r.1 })

  -- The inode of the free map as an open file, or a panic.
  unfoldable pub open_map_file : Bool → Bool → Fs → Run Fs
  unfolding open_file
  open_map_file got_inode got_file f = open_inode got_inode f free_map_sector >>= λ r.
      open_file got_file r.1 (if r.0 then some free_map_sector else none) >>= λ x. elim x.0 [
        | none ↦ fault
        | some file ↦ done (record x.1 { map_file = some file.inode })
      ]

  -- bitmap_read of the map from its file, or a panic.
  abbrev pub load_map : Fs → Option Inode → Run Fs
  load_map f none = fault
  load_map f (some n) =
      load mem f.disk n f.map >>= λ r. if r.0 then done (record f { map = r.1 }) else fault

  -- free_map_open
  unfoldable pub open_map : Bool → Bool → Fs → Run Fs
  open_map got_inode got_file f =
      open_map_file got_inode got_file f >>= λ f'. load_map f' (find f'.open_inodes free_map_sector)

  -- free_map_close.
  unfoldable pub close_map : Fs → Run Fs
  close_map f = elim f.map_file [ none ↦ done f | some s ↦ close mem f s ]

  -- free_map_create: `got` tells what calloc and malloc give to inode_create, inode_open and file_open.
  unfoldable pub create_map : Bool → Bool → Bool → Fs → Run Fs
  create_map got got_inode got_file f = create mem got f free_map_sector (file_size f.map) >>= λ r.
      if r.0
      then (open_map_file got_inode got_file r.1 >>= λ f'.
          save_map mem f' free_map_sector f'.map >>= λ w.
          if w.0 then done (record f' { disk = w.1 }) else fault)
      else fault
