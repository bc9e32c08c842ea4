-- ===== src/Pintos/File/Mount.antt =====
-- free_map_create and, after a restart with no inode open and no file yet, free_map_open into a new
-- bitmap, of filesys/free-map.c.
use sum.Prelude.{
  ℕ, ◌+◌, ◌^◌, ◌≤◌, ◌<◌, ◌≡◌, refl, true, false, none, some, [], done, arith, ap, ◌∙◌, sym,
  Bool-cases, inl, inr,
}
use sum.Pintos.Bitmap.{Bitmap, byte_cnt}
use sum.Pintos.Bitmap.Bits.{IsBitmap, at}
use sum.Pintos.Bitmap.Multiple.{within}
use sum.Pintos.Bitmap.Scan.{IsGroup}
use sum.Pintos.Bitmap.Io.{file_size, bytes_of}
use sum.Pintos.Bitmap.Saved.{load-save}
use sum.Pintos.Block.{sector_size}
use sum.Pintos.Content.{bytes_to_sectors}
use sum.Pintos.Content.Read.{IsFile, address}
use sum.Pintos.Content.Write.{Written-apart}
use sum.Pintos.FreeMap.{Fs, find}
use sum.Pintos.FreeMap.Laws.{IsFs}
use sum.Pintos.Inodes.{create, encode}
use sum.Pintos.Inodes.Create.{made, create_lem, Created}
use sum.Pintos.Inodes.Fresh.{fresh, with_open, open_fresh}
use sum.Pintos.File.{open_file, open_map_file, open_map, create_map}

-- The state after a restart.
abbrev pub restarted : Fs → Bitmap → Fs
restarted f m = record { disk = f.disk; map = m; open_inodes = []; map_file = none }

-- The free map file of a file system is opened.
open_map_file_lem :
    (f : Fs) (start len : ℕ)
    → find f.open_inodes 0 ≡ none
    → 0 < f.disk.size
    → f.disk.sectors 0 ≡ encode (made start len)
    → start < 2 ^ 32
    → len < 2 ^ 31
    → open_map_file true true true f
      ≡ done (record (with_open f (fresh 0 start len)) { map_file = some 0 })
unfolding open_map_file open_file
open_map_file_lem f start len closed inside head small short =
    rw (open_fresh f 0 start len closed inside head small short) refl

-- Where there is room, free_map_create makes the file.
created_lem :
    (f : Fs) (len s : ℕ)
    → IsFs f
    → f.map_file ≡ none
    → 0 < f.disk.size
    → at f.map 0 ≡ true
    → s + bytes_to_sectors len ≤ f.map.bit_cnt
    → IsGroup f.map s (bytes_to_sectors len) false
    → len + sector_size < 2 ^ 31
    → (f1 : Fs) × (create true true f 0 len ≡ done (true, f1))
      × IsFs f1
      × (f1.open_inodes ≡ f.open_inodes)
      × (f1.map.bit_cnt ≡ f.map.bit_cnt)
      × Created f 0 len f1 true
created_lem f len s h no_file inside taken room group small =
    let (ok, f1, runs, valid, kept, effect) = create_lem f 0 len h inside taken small in
    elim (Bool-cases ok) [
      | inl worked ↦ (
        f1,
        runs ∙ ap (λ b. done (b, f1)) worked,
        valid,
        kept.inodes,
        kept.cnt,
        rw worked at effect,
      )
      | inr failed ↦ elim (rw failed at effect).0 [
        | inl (t, b, fits, group, bits, (file, e, wrote)) ↦ absurd (ground (arith, e, no_file))
        | inr nothing ↦
            let (j, lo, hi, broken) = nothing s room in
            absurd (ground (arith, broken, group j lo hi))
      ]
    ]

-- In a file system without a file of the free map, where the sector of that file is taken, its
-- inode is not open, and some free group of sectors has room for it: with memory free_map_create
-- works, and free_map_open after a restart, into any well-formed bitmap of the same size, gives a
-- well-formed bitmap with the same bits.
pub open_map-create_map :
    (f : Fs) (m : Bitmap) (s : ℕ)
    → IsFs f
    → f.map_file ≡ none
    → find f.open_inodes 0 ≡ none
    → 0 < f.disk.size
    → at f.map 0 ≡ true
    → s + bytes_to_sectors (file_size f.map) ≤ f.map.bit_cnt
    → IsGroup f.map s (bytes_to_sectors (file_size f.map)) false
    → IsBitmap m
    → m.bit_cnt ≡ f.map.bit_cnt
    → (f' : Fs) × (g : Fs) × (create_map true true true true f ≡ done f')
      × (open_map true true true (restarted f' m) ≡ done g)
      × IsBitmap g.map
      × (g.map.bit_cnt ≡ f'.map.bit_cnt)
      × ((j : ℕ) → j < f'.map.bit_cnt → at g.map j ≡ at f'.map j)
unfolding create_map open_map
open_map-create_map f m s h no_file closed inside taken room group valid_m same =
    let len = file_size f.map in
    let (f1, runs, valid, inodes, cnt, (start, fits, free, bits, head, zeroed, stored)) =
      created_lem f len s h no_file inside taken room group (omega (arith, h.map.small)) in
    let n = fresh 0 start len in
    let f2 : Fs = record (with_open f1 n) { map_file = some 0 } in
    let size : f1.disk.size ≡ f.disk.size = sym valid.cover ∙ cnt ∙ h.cover in
    let small : start < 2 ^ 32 = omega (arith, fits, h.map.small) in
    let short : len < 2 ^ 31 = omega (arith, h.map.small) in
    let file : IsFile f1.disk n = record {
      inside = omega (arith, fits, h.cover, size);
      small = omega (arith, h.cover, h.map.small, size);
    } in
    let count : file_size f1.map ≡ len = ap byte_cnt cnt in
    let (d, b, saves, loads, valid_b, cnt_b, kept, effect) =
      load-save f1.disk n f1.map m valid.full file refl (omega (arith, count)) valid.map valid_m
        (same ∙ sym cnt) in
    let apart : within start (bytes_to_sectors len) 0 ≡ false =
      elim (Bool-cases (within start (bytes_to_sectors len) 0)) [
        | inl hit ↦
            absurd (ground (arith, free 0 (ground (arith, hit)) (ground (arith, hit)), taken))
        | inr miss ↦ miss
      ] in
    let head' : d.sectors 0 ≡ encode (made start len) =
      Written-apart f1.disk d (address n 0) (file_size f1.map) 0 (bytes_of f1.map.bits) valid.full
        effect (ground (arith, apart, count))
      ∙ head in
    let still : find f1.open_inodes 0 ≡ none = ap (λ ns. find ns 0) inodes ∙ closed in
    let opened =
      open_map_file_lem f1 start len still (omega (arith, inside, size)) head small short in
    let f3 : Fs = record f2 { disk = d } in
    let g = restarted f3 m in
    let reopened =
      open_map_file_lem g start len refl (omega (arith, inside, size, effect.1)) head' small
        short in
    (
      f3,
      record (record (with_open g n) { map_file = some 0 }) { map = b },
      rw runs (rw opened (rw saves refl)),
      rw reopened (rw loads refl),
      valid_b,
      cnt_b,
      kept,
    )
