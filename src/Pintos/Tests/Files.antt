-- ===== src/Pintos/Tests/Files.antt =====
-- The theorems on reads and writes of an open file, at a file of 600 bytes.
use sum.Prelude.{ℕ, ◌+◌, ◌≡◌, refl, true, List, ◌++◌, length, done, arith}
use sum.Pintos.File.{File, read, write, seek}
use sum.Pintos.File.Sequential.{read-read, read-seek-write}
use sum.Pintos.FreeMap.{Fs}
use sum.Pintos.Tests.Fixtures.{disk-IsBlock, inode, fs, inode-IsFile, file, three_bytes}

read-read_example :
    (a : List ℕ) × (b : List ℕ) × (y : File) × (z : File) × (read true fs file 50 ≡ done (a, y))
    × (read true fs y 100 ≡ done (b, z))
    × (read true fs file (50 + 100) ≡ done (a ++ b, z))
read-read_example = read-read fs file inode 50 100 disk-IsBlock refl inode-IsFile

read-seek-write_example :
    (f' : Fs) × (y : File) × (write true fs file three_bytes ≡ done (length three_bytes, y, f'))
    × (read true f' (seek y file.pos) (length three_bytes) ≡ done (three_bytes, y))
read-seek-write_example =
    read-seek-write fs file inode three_bytes disk-IsBlock refl inode-IsFile refl (omega arith)
