-- ===== src/Pintos/FreeMap/Laws.antt =====
-- What free_map_allocate and free_map_release do to the free map.
use sum.Prelude.{
  ℕ, ◌+◌, ◌≤◌, ◌<◌, ◌≡◌, refl, Bool, true, false, Option, none, some, ◌==◌, if◌then◌else◌, done,
  arith, ap, ◌∙◌, sym, Bool-cases, Option-cases, inl, inr, ◌⊎◌,
}
use sum.Pintos.Block.{Block, IsBlock}
use sum.Pintos.Content.{Inode}
use sum.Pintos.Content.Read.{IsFile}
use sum.Pintos.Content.Write.{write_count}
use sum.Pintos.Bitmap.{Bitmap, bitmap_error, all_set, scan_and_flip}
use sum.Pintos.Bitmap.Bits.{IsBitmap, at}
use sum.Pintos.Bitmap.Multiple.{within, set_multiple-Filled, contains_lem}
use sum.Pintos.Bitmap.Scan.{IsGroup, IsBroken, scan_and_flip_lem}
use sum.Pintos.Bitmap.Io.{bytes_of, file_size}
use sum.Pintos.Bitmap.Saved.{save_lem}
use sum.Pintos.FreeMap.{Fs, find, save_map, commit, store, allocate, release}

-- The device and the map are as they should be, with a bit for every sector, and the file of the map lies on the device.
pub record IsFs (f : Fs) : Type 0 where
  pub full : IsBlock f.disk
  pub map : IsBitmap f.map
  pub cover : f.map.bit_cnt ≡ f.disk.size
  pub file :
      (s : ℕ)
      → f.map_file ≡ some s
      → (n : Inode) × (find f.open_inodes s ≡ some n) × IsFile f.disk n

-- What the functions of the free map leave alone.
pub record Kept (f f' : Fs) : Type 0 where
  pub size : f'.disk.size ≡ f.disk.size
  pub inodes : f'.open_inodes ≡ f.open_inodes
  pub map_file : f'.map_file ≡ f.map_file
  pub cnt : f'.map.bit_cnt ≡ f.map.bit_cnt

-- The same file system with another device and another map.
abbrev pub with_map : Fs → Bitmap → Block → Fs
with_map f b d = record f { map = b; disk = d }

pub with_map-IsFs :
    (f : Fs) (b : Bitmap) (d : Block)
    → IsFs f
    → IsBitmap b
    → IsBlock d
    → d.size ≡ f.disk.size
    → b.bit_cnt ≡ f.map.bit_cnt
    → IsFs (with_map f b d)
with_map-IsFs f b d h valid full size cnt = record {
  full = full;
  map = valid;
  cover = omega (arith, h.cover, size, cnt);
  file = λ s e.
      let (n, found, file) = h.file s e in
      (
        n,
        found,
        record {
          inside = omega (arith, file.inside, size);
          small = omega (arith, file.small, size);
        },
      );
}

pub with_map-Kept :
    (f : Fs) (b : Bitmap) (d : Block)
    → d.size ≡ f.disk.size
    → b.bit_cnt ≡ f.map.bit_cnt
    → Kept f (with_map f b d)
with_map-Kept f b d size cnt = record { size = size; inodes = refl; map_file = refl; cnt = cnt }

save_map_lem :
    (f : Fs) (s : ℕ) (b : Bitmap)
    → IsFs f
    → f.map_file ≡ some s
    → IsBitmap b
    → (ok : Bool) × (d' : Block) × (save_map true f s b ≡ done (ok, d'))
      × IsBlock d'
      × (d'.size ≡ f.disk.size)
save_map_lem f s b h e valid =
    let (n, found, file) = h.file s e in
    let (d', saved, effect) = save_lem f.disk n b h.full file valid in
    (
      write_count n (bytes_of b.bits) 0 == file_size b,
      d',
      rw (save_map, found) saved,
      effect.0,
      effect.1,
    )

-- The map, if it has a file, is written to it.
abbrev pub Saved : Fs → Bitmap → Block → Bool → Type 0
Saved f b d ok = (file : ℕ) × (f.map_file ≡ some file) × (save_map true f file b ≡ done (ok, d))

-- A map with the bits of a group set.
abbrev pub Marked : Fs → ℕ → ℕ → Bitmap → Type 0
Marked f s cnt b = (j : ℕ) → at b j ≡ (if within s cnt j then true else at f.map j)

-- The first free group is taken, and the map written if it has a file; or nothing is taken, since
-- there is no such group, or since the map with the group marked could not be written.
abbrev pub Allocated : Fs → ℕ → Fs → Option ℕ → Type 0
Allocated f cnt f' (some s) =
    (s + cnt ≤ f.map.bit_cnt)
    × IsGroup f.map s cnt false
    × ((i : ℕ) → i < s → IsBroken f.map i cnt false)
    × Marked f s cnt f'.map
    × ((f.map_file ≡ none) ⊎ Saved f f'.map f'.disk true)
Allocated f cnt f' none =
    (((s : ℕ) × (b : Bitmap) × (s + cnt ≤ f.map.bit_cnt)
        × IsGroup f.map s cnt false
        × Marked f s cnt b
        × Saved f b f'.disk false)
      ⊎ ((i : ℕ) → i + cnt ≤ f.map.bit_cnt → IsBroken f.map i cnt false))
    × ((j : ℕ) → at f'.map j ≡ at f.map j)

-- The branches after a group is found.
allocate_found :
    (f : Fs) (cnt s : ℕ) (b : Bitmap)
    → IsFs f
    → scan_and_flip f.map 0 cnt false ≡ done (s, b)
    → (s == bitmap_error) ≡ false
    → s + cnt ≤ f.map.bit_cnt
    → IsGroup f.map s cnt false
    → ((i : ℕ) → i < s → IsBroken f.map i cnt false)
    → IsBitmap b
    → b.bit_cnt ≡ f.map.bit_cnt
    → ((j : ℕ) → at b j ≡ (if within s cnt j then true else at f.map j))
    → (r : Option ℕ) × (f' : Fs) × (allocate true f cnt ≡ done (r, f'))
      × IsFs f'
      × Kept f f'
      × Allocated f cnt f' r
unfolding allocate
allocate_found f cnt s b h found real fits group first valid size bits =
    elim (Option-cases f.map_file) [
      | inl e ↦ (
        some s,
        with_map f b f.disk,
        rw found (rw real (ap (commit true f b s cnt) e)),
        with_map-IsFs f b f.disk h valid h.full refl size,
        with_map-Kept f b f.disk refl size,
        (fits, group, first, bits, inl e),
      )
      | inr (file, e) ↦
          let (ok, d, saved, full, same) = save_map_lem f file b h e valid in
          elim (Bool-cases ok) [
            | inl wrote ↦ (
              some s,
              with_map f b d,
              rw found (rw real (ap (commit true f b s cnt) e ∙ rw saved (rw wrote refl))),
              with_map-IsFs f b d h valid full same size,
              with_map-Kept f b d same size,
              (fits, group, first, bits, inr (file, e, saved ∙ ap (λ x. done (x, d)) wrote)),
            )
            | inr failed ↦
                let (b', undone, valid', size', bits') =
                  set_multiple-Filled b s cnt false valid (omega (arith, fits, size)) in
                (
                  none,
                  with_map f b' d,
                  rw found (
                      rw real
                        (ap (commit true f b s cnt) e ∙ rw saved (rw failed (rw undone refl)))),
                  with_map-IsFs f b' d h valid' full same (size' ∙ size),
                  with_map-Kept f b' d same (size' ∙ size),
                  (
                    inl (s, b, fits, group, bits, (file, e, saved ∙ ap (λ x. done (x, d)) failed)),
                    λ j. elim (Bool-cases (within s cnt j)) [
                      | inl inside ↦
                          bits' j
                          ∙ rw inside
                              (sym (group j (ground (arith, inside)) (ground (arith, inside))))
                      | inr outside ↦ bits' j ∙ rw outside (bits j ∙ rw outside refl)
                    ],
                  ),
                )
          ]
    ]

-- free_map_allocate with memory, at a well-formed file system, returns: with a sector, it is the
-- first free group of that many sectors, its bits are set, and no other, and the map is written
-- to its file if it has one; without, every bit is as before, and there is no such group or the
-- map, with such a group marked, could not be written to its file.
pub allocate_lem :
    (f : Fs) (cnt : ℕ)
    → IsFs f
    → (r : Option ℕ) × (f' : Fs) × (allocate true f cnt ≡ done (r, f'))
      × IsFs f'
      × Kept f f'
      × Allocated f cnt f' r
unfolding allocate
allocate_lem f cnt h =
    let (s, b, found, scanned, valid, size, bits) =
      scan_and_flip_lem f.map 0 cnt false h.map (omega arith) in
    elim scanned [
      | inl (lo, fits, group, before) ↦
          let real : (s == bitmap_error) ≡ false = ground (arith, h.map.small) in
          allocate_found f cnt s b h found real fits group (λ i lt. before i (omega arith) lt) valid
            size (λ j. bits j ∙ rw real refl)
      | inr (e, nothing) ↦
          let failed : (s == bitmap_error) ≡ true = ground (arith, e) in
          (
            none,
            with_map f b f.disk,
            rw found (rw failed refl),
            with_map-IsFs f b f.disk h valid h.full refl size,
            with_map-Kept f b f.disk refl size,
            (inr (λ i fits. nothing i (omega arith) fits), λ j. bits j ∙ rw failed refl),
          )
    ]

-- free_map_release with memory, at a well-formed file system that has a file of the map, of a
-- group of sectors that are all in use: it returns, these bits are cleared, and no other bit
-- changes.
pub release_lem :
    (f : Fs) (s cnt file : ℕ)
    → IsFs f
    → f.map_file ≡ some file
    → s + cnt ≤ f.map.bit_cnt
    → IsGroup f.map s cnt true
    → (f' : Fs) × (release true f s cnt ≡ done f')
      × IsFs f'
      × Kept f f'
      × ((j : ℕ) → at f'.map j ≡ (if within s cnt j then false else at f.map j))
unfolding release all_set
release_lem f s cnt file h e fits group =
    let (c, looked, meaning) = contains_lem f.map s cnt false h.map fits in
    let (b, made, valid, size, bits) = set_multiple-Filled f.map s cnt false h.map fits in
    let (ok, d, saved, full, same) = save_map_lem f file b h e valid in
    elim (Bool-cases c) [
      | inl clear ↦
          let (j, lo, hi, is_clear) = rw clear at meaning in
          absurd (ground (arith, group j lo hi, is_clear))
      | inr all ↦ (
        with_map f b d,
        rw looked (rw all (rw made (ap (store true f b) e ∙ rw saved refl))),
        with_map-IsFs f b d h valid full same size,
        with_map-Kept f b d same size,
        bits,
      )
    ]
