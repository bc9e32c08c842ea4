-- ===== src/Pintos/Content.antt =====
-- The content of a file: inode_length, byte_to_sector, inode_read_at and inode_write_at of
-- group1/pintos/src/filesys/inode.c. Sizes and offsets are not negative, so that they are numbers;
-- the bytes left, which may be negative in C, stop at 0, where both loops end the same way. `mem`
-- tells whether malloc gives the bounce buffer.

pub mod Read
pub mod Write
use sum.Prelude.{
  ℕ, zero, suc, ◌+◌, ◌-◌, ◌*◌, ◌/◌, ◌%◌, ◌^◌, Bool, true, false, not, ◌&&◌, ◌||◌, Option, none,
  some, List, [], ◌∷◌, ◌++◌, length, take, drop, replicate, ltb, ◌==◌, if◌then◌else◌, Run, done,
  fault, spin, ◌>>=◌,
}
use sum.Pintos.Block
use sum.Pintos.Block.{Block, sector_size}

-- `struct inode_disk`
pub record InodeDisk : Type 0 where
  pub start : ℕ
  pub length : ℕ
  pub magic : ℕ

-- `struct inode`
pub record Inode : Type 0 where
  pub sector : ℕ
  pub open_cnt : ℕ
  pub removed : Bool
  pub deny_write_cnt : ℕ
  pub content : InodeDisk

abbrev pub bytes_to_sectors : ℕ → ℕ
bytes_to_sectors size = (size + sector_size - 1) / sector_size

-- -1 as a sector number behind the end.
abbrev pub byte_to_sector : Inode → ℕ → ℕ
byte_to_sector n at =
    if ltb at n.content.length then (n.content.start + at / sector_size) % 2 ^ 32 else 2 ^ 32 - 1

-- The size of the next piece to copy.
abbrev pub chunk_size : Inode → ℕ → ℕ → ℕ
chunk_size n size offset =
    let inode_left = n.content.length - offset in
    let sector_left = sector_size - offset % sector_size in
    let min_left = if ltb inode_left sector_left then inode_left else sector_left in
    if ltb size min_left then size else min_left

-- Whether the piece is a whole sector.
abbrev pub is_whole : ℕ → ℕ → Bool
is_whole offset chunk = offset % sector_size == 0 && chunk == sector_size

module _ (mem : Bool) where
  -- The loop of inode_read_at: the bytes that are read. Each round but the last reads one byte at
  -- least.
  unfoldable pub read_from : ℕ → Block → Inode → ℕ → ℕ → Run (List ℕ)
  read_from zero d n size offset = spin
  read_from (suc fuel) d n size offset =
      let chunk = chunk_size n size offset in
      let rest = read_from fuel d n (size - chunk) (offset + chunk) in
      if size == 0 || chunk == 0
      then done []
      else if is_whole offset chunk
      then (Block.read d (byte_to_sector n offset) >>= λ s. rest >>= λ bytes. done (s ++ bytes))
      else if mem
      then (Block.read d (byte_to_sector n offset) >>= λ s.
          rest >>= λ bytes. done (take chunk (drop (offset % sector_size) s) ++ bytes))
      else done []

  unfoldable pub read_at : Block → Inode → ℕ → ℕ → Run (List ℕ)
  unfolding read_from
  read_at d n size offset = read_from (size + 1) d n size offset

  -- The sector to write for a piece that is not a whole one: it is read first if some of it stays.
  unfoldable pub bounce : Block → ℕ → List ℕ → ℕ → ℕ → Run (List ℕ)
  bounce d s bytes ofs chunk =
      (if not (ofs == 0) || ltb chunk (sector_size - ofs)
        then Block.read d s
        else done (replicate sector_size 0))
      >>= λ old. done (take ofs old ++ (take chunk bytes ++ drop (ofs + chunk) old))

  -- The loop of inode_write_at: the number of bytes written, and the device.
  unfoldable pub write_from : ℕ → Block → Inode → List ℕ → ℕ → ℕ → Run (ℕ × Block)
  unfolding bounce
  write_from zero d n bytes offset written = spin
  write_from (suc fuel) d n bytes offset written =
      let size = length bytes in
      let chunk = chunk_size n size offset in
      let s = byte_to_sector n offset in
      let go = λ (d' : Block).
        write_from fuel d' n (drop chunk bytes) (offset + chunk) (written + chunk) in
      if size == 0 || chunk == 0
      then done (written, d)
      else if is_whole offset chunk
      then (Block.write d s (take chunk bytes) >>= go)
      else if mem
      then (bounce d s bytes (offset % sector_size) chunk >>= λ new. Block.write d s new >>= go)
      else done (written, d)

  -- The bytes to write are the whole buffer.
  unfoldable pub write_at : Block → Inode → List ℕ → ℕ → Run (ℕ × Block)
  unfolding write_from
  write_at d n bytes offset =
      if n.deny_write_cnt == 0
      then write_from (length bytes + 1) d n bytes offset 0
      else done (0, d)
