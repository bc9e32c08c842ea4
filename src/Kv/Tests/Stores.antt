-- ===== src/Kv/Tests/Stores.antt =====
-- The theorems on the store at concrete states.
use sum.Prelude.{ℕ, ◌≡◌, true, false, [], ◌==◌, pos, done, ◌⊎◌, arith, ◌&&◌}
use sum.Kv.Codes.{err_filaccess}
use sum.Kv.Disk.{whole, cut, failed}
use sum.Kv.Store.{put}
use sum.Kv.Store.Entries.{place_of}
use sum.Kv.Store.Find.{Holds}
use sum.Kv.Store.Write.{put_at, file_opens, entry_write, store_put_lem}
use sum.Kv.Tests.Drive.{drive}
use sum.Kv.Tests.Fixtures.{key_b, value_y, one_key, files_of, one_key-Holds}
use sum.Kv.Text.{hash}

store_put_lem_example :
    ((file_opens drive (files_of one_key []) one_key key_b ≡ false)
      × (put drive 4 (files_of one_key []) key_b value_y
          ≡ done (err_filaccess, (files_of one_key []))))
    ⊎ ((d' : drive.Disk) × (entry_write drive (files_of one_key []) one_key key_b value_y
          ≡ whole d')
        × (put drive 4 (files_of one_key []) key_b value_y ≡ done (pos 0, d'))
        × Holds drive d' (put_at one_key key_b value_y))
    ⊎ ((d' : drive.Disk) × (file_opens drive (files_of one_key []) one_key key_b ≡ true)
        × ((entry_write drive (files_of one_key []) one_key key_b value_y ≡ cut d')
            ⊎ (entry_write drive (files_of one_key []) one_key key_b value_y ≡ failed d'))
        × (put drive 4 (files_of one_key []) key_b value_y ≡ done (pos 0, d'))
        × ((g j : ℕ)
            → (hash key_b == g && place_of key_b (one_key (hash key_b)) == j) ≡ false
            → drive.entry_at d' g j ≡ drive.entry_at (files_of one_key []) g j))
store_put_lem_example =
    store_put_lem drive 4 (files_of one_key []) one_key key_b value_y (one_key-Holds [])
      (omega arith) (omega arith) (omega arith) (omega arith) (ground arith) (ground arith)
