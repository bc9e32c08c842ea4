-- ===== src/Pintos/FreeMap.antt =====
-- group1/pintos/src/filesys/free-map.c: the map of the sectors in use, and the state of the file
-- system it is part of: the device, the map, the list open_inodes of inode.c, and the inode of
-- free_map_file, named by its sector. A file without an inode would be a dangling pointer, and
-- writing to a null file a null pointer; both are faults.
pub mod Laws
use sum.Prelude.{
  ℕ, ◌==◌, ◌≡◌, Bool, true, false, not, Option, none, some, List, [], ◌∷◌, if◌then◌else◌, Run, done,
  fault, ◌>>=◌,
}
use sum.Pintos.Block.{Block}
use sum.Pintos.Content.{Inode}
use sum.Pintos.Bitmap
use sum.Pintos.Bitmap.{Bitmap, bitmap_error, assert, mark, scan_and_flip, set_multiple, all_set}
use sum.Pintos.Bitmap.Io.{save}

abbrev pub free_map_sector : ℕ
free_map_sector = 0

abbrev pub root_dir_sector : ℕ
root_dir_sector = 1

pub record Fs : Type 0 where
  pub disk : Block
  pub map : Bitmap
  pub open_inodes : List Inode
  pub map_file : Option ℕ

-- The open inode of a sector.
abbrev pub find : List Inode → ℕ → Option Inode
find [] s = none
find (n ∷ ns) s = if n.sector == s then some n else find ns s

-- free_map_init, from what malloc gives for the bitmap. There is no file yet.
unfoldable pub init_map : Bool → Option (List ℕ) → Block → Run Bitmap
init_map got words d = Bitmap.create got words d.size >>= λ o. elim o [
  | none ↦ fault
  | some b ↦ mark b free_map_sector >>= λ b'. mark b' root_dir_sector
]

module _ (mem : Bool) where
  -- bitmap_write of the map to its file.
  abbrev pub save_map : Fs → ℕ → Bitmap → Run (Bool × Block)
  save_map f s b = elim (find f.open_inodes s) [ none ↦ fault | some n ↦ save mem f.disk n b ]

  -- The end of free_map_allocate, from the file on, with the group marked.
  abbrev pub commit : Fs → Bitmap → ℕ → ℕ → Option ℕ → Run (Option ℕ × Fs)
  commit f b sector cnt none = done (some sector, record f { map = b })
  commit f b sector cnt (some s) = save_map f s b >>= λ w.
      let (wrote, disk) = w in
      if wrote
      then done (some sector, record f { map = b; disk = disk })
      else (set_multiple b sector cnt false >>= λ b'.
          done (none, record f { map = b'; disk = disk }))

  unfoldable pub allocate : Fs → ℕ → Run (Option ℕ × Fs)
  allocate f cnt = scan_and_flip f.map 0 cnt false >>= λ r.
      let (sector, b) = r in
      if sector == bitmap_error
      then done (none, record f { map = b })
      else commit f b sector cnt f.map_file

  -- Whether the map could be written does not matter here.
  abbrev pub store : Fs → Bitmap → Option ℕ → Run Fs
  store f b none = fault
  store f b (some s) = save_map f s b >>= λ w. done (record f { map = b; disk = w.1 })

  unfoldable pub release : Fs → ℕ → ℕ → Run Fs
  release f sector cnt = all_set f.map sector cnt >>= λ full.
      assert full (set_multiple f.map sector cnt false >>= λ b. store f b f.map_file)
