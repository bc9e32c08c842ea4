-- ===== src/Pintos/Tests/Contents.antt =====
-- The theorems on the content of files at a file of 600 bytes.
use sum.Prelude.{ℕ, ◌≡◌, true, List, length, done}
use sum.Pintos.Block.{Block}
use sum.Pintos.Content.{read_at, write_at}
use sum.Pintos.Content.Read.{address, available, IsCopy, read_at_lem}
use sum.Pintos.Content.Write.{Written, write_count, write_at_lem}
use sum.Pintos.Tests.Fixtures.{disk, disk-IsBlock, inode, inode-IsFile, three_bytes}

read_at_lem_example :
    (bytes : List ℕ) × (read_at true disk inode 100 550 ≡ done bytes)
    × (length bytes ≡ available inode 100 550)
    × IsCopy disk (address inode 550) bytes
read_at_lem_example = read_at_lem disk inode 100 550 disk-IsBlock inode-IsFile

write_at_lem_example :
    (d' : Block) × (write_at true disk inode three_bytes 511
      ≡ done (write_count inode three_bytes 511, d'))
    × Written disk d' (address inode 511) (write_count inode three_bytes 511) three_bytes
write_at_lem_example = write_at_lem disk inode three_bytes 511 disk-IsBlock inode-IsFile
