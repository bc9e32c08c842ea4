-- ===== src/Pintos/Tests/Systems.antt =====
-- The theorems on inodes and the free map at concrete file systems.
use sum.Prelude.{
  ℕ, ◌<◌, ◌≡◌, refl, Bool, true, false, Option, [], ◌∷◌, ◌==◌, if◌then◌else◌, replicate, done, ◌⊎◌,
  arith, ◌&&◌,
}
use sum.Pintos.Bitmap.Bits.{IsBitmap, at}
use sum.Pintos.Bitmap.Io.{words_of}
use sum.Pintos.Block.{read}
use sum.Pintos.Content.{Inode, read_at}
use sum.Pintos.Content.Read.{IsFile}
use sum.Pintos.File.{open_map, create_map}
use sum.Pintos.File.Mount.{restarted, open_map-create_map}
use sum.Pintos.FreeMap.{Fs, allocate}
use sum.Pintos.FreeMap.Laws.{IsFs, Kept, Allocated, allocate_lem}
use sum.Pintos.Inodes.{create, decode, open_inode, load_inode, deny_write, allow_write, close}
use sum.Pintos.Inodes.Close.{is_block, closed_list, close_lem}
use sum.Pintos.Inodes.Create.{create_lem, Created}
use sum.Pintos.Inodes.Fresh.{with_open, open_inode-create}
use sum.Pintos.Inodes.Openers.{IsList}
use sum.Pintos.Inodes.Steps.{
  Reachable, Reachable-IsList, allow_write-Reachable, opens, denies, init, next,
}
use sum.Pintos.Tests.Fixtures.{
  map_2, map_2-IsBitmap, inode, fs, new_fs, fs-IsFs, new_fs-IsFs, one_free, inode-IsStored,
  first_taken, second_taken,
}

-- An inode of a sector of zeros, opened, and then denied writes.
abbrev zero_inode : Inode
zero_inode = record {
  sector = 1;
  open_cnt = 1;
  removed = false;
  deny_write_cnt = 0;
  content = record { start = 0; length = 0; magic = 0 };
}

abbrev opened_fs : Fs
opened_fs = record new_fs { open_inodes = zero_inode ∷ [] }

opened_fs-Reachable : Reachable opened_fs
unfolding open_inode load_inode decode words_of read
opened_fs-Reachable = next {f = new_fs} (init refl) (opens true true 1 refl)

abbrev denied_inode : Inode
denied_inode = record zero_inode { deny_write_cnt = 1 }

abbrev denied_fs : Fs
denied_fs = record new_fs { open_inodes = denied_inode ∷ [] }

denied_fs-Reachable : Reachable denied_fs
unfolding deny_write
denied_fs-Reachable = next opened_fs-Reachable (denies 1 refl)

open_map-create_map_example :
    (f' : Fs) × (g : Fs) × (create_map true true true true new_fs ≡ done f')
    × (open_map true true true (restarted f' map_2) ≡ done g)
    × IsBitmap g.map
    × (g.map.bit_cnt ≡ f'.map.bit_cnt)
    × ((j : ℕ) → j < f'.map.bit_cnt → at g.map j ≡ at f'.map j)
open_map-create_map_example =
    open_map-create_map new_fs map_2 2 new_fs-IsFs refl refl (omega arith) first_taken (omega arith)
      one_free map_2-IsBitmap refl

open_inode-create_example :
    (ok : Bool) × (f1 : Fs) × (create true true new_fs 1 600 ≡ done (ok, f1))
    × ((ok ≡ false)
        ⊎ ((n : Inode) × (open_inode true f1 1 ≡ done (true, with_open f1 n))
            × IsFile f1.disk n
            × (n.content.length ≡ 600)
            × (read_at true f1.disk n 600 0 ≡ done (replicate 600 0))))
open_inode-create_example =
    open_inode-create new_fs 1 600 new_fs-IsFs (omega arith) second_taken (omega arith) refl

create_lem_example :
    (ok : Bool) × (f' : Fs) × (create true true new_fs 1 600 ≡ done (ok, f'))
    × IsFs f'
    × Kept new_fs f'
    × Created new_fs 1 600 f' ok
create_lem_example = create_lem new_fs 1 600 new_fs-IsFs (omega arith) second_taken (omega arith)

Reachable-IsList_example : IsList opened_fs.open_inodes
Reachable-IsList_example = Reachable-IsList opened_fs opened_fs-Reachable

allow_write-Reachable_example : (f' : Fs) × (allow_write denied_fs 1 ≡ done f') × Reachable f'
allow_write-Reachable_example =
    allow_write-Reachable denied_fs 1 denied_inode denied_fs-Reachable refl (omega arith)

close_lem_example :
    (f' : Fs) × (close true fs 3 ≡ done f')
    × (f'.open_inodes ≡ closed_list fs.open_inodes 3 inode)
    × IsBitmap f'.map
    × ((j : ℕ)
        → at f'.map j ≡ (
            if (inode.open_cnt == 1 && inode.removed) && is_block inode j
            then false
            else at fs.map j))
close_lem_example = close_lem fs 3 0 inode fs-IsFs refl refl refl inode-IsStored

allocate_lem_example :
    (r : Option ℕ) × (f' : Fs) × (allocate true fs 2 ≡ done (r, f'))
    × IsFs f'
    × Kept fs f'
    × Allocated fs 2 f' r
allocate_lem_example = allocate_lem fs 2 fs-IsFs
