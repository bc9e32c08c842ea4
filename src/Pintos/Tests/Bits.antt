-- ===== src/Pintos/Tests/Bits.antt =====
-- The theorems on bitmaps at a bitmap of eight bits.
use sum.Prelude.{ℕ, ◌≡◌, false, ◌==◌, if◌then◌else◌, done, arith, not}
use sum.Pintos.Bitmap.{Bitmap, bitmap_error, scan_and_flip}
use sum.Pintos.Bitmap.Bits.{IsBitmap, at}
use sum.Pintos.Bitmap.Multiple.{within}
use sum.Pintos.Bitmap.Scan.{Scanned, scan_and_flip_lem}
use sum.Pintos.Tests.Fixtures.{map_6, map_6-IsBitmap}

scan_and_flip_lem_example :
    (r : ℕ) × (b' : Bitmap) × (scan_and_flip map_6 0 2 false ≡ done (r, b'))
    × Scanned map_6 0 2 false r
    × IsBitmap b'
    × (b'.bit_cnt ≡ map_6.bit_cnt)
    × ((j : ℕ)
        → at b' j ≡ (
            if r == bitmap_error
            then at map_6 j
            else if within r 2 j
            then not false
            else at map_6 j))
scan_and_flip_lem_example = scan_and_flip_lem map_6 0 2 false map_6-IsBitmap (omega arith)
