-- ===== src/Pintos/Inodes/Create.antt =====
-- inode_create: the inode and its data on the device, and a file just made that is opened and read.
use sum.Prelude.{
  ℕ, zero, suc, ◌+◌, ◌%◌, ◌^◌, ◌≤◌, ◌<◌, ◌≡◌, refl, Bool, true, false, none, some, List, replicate,
  length-replicate, if◌then◌else◌, done, ◌>>=◌, arith, ap, ◌∙◌, ◌⊎◌, Bool-cases, Option-cases, inl,
  inr,
}
use sum.Pintos.Block.{Block, IsBlock, sector_size, write, with_sector, write_lem}
use sum.Pintos.Bitmap.Bits.{at}
use sum.Pintos.Bitmap.Multiple.{within}
use sum.Pintos.Bitmap.Scan.{IsGroup}
use sum.Pintos.Content.{InodeDisk, bytes_to_sectors}
use sum.Pintos.FreeMap.{Fs}
use sum.Pintos.FreeMap.Laws.{IsFs, Kept, Allocated, Saved, allocate_lem, with_map-IsFs}
use sum.Pintos.Inodes.{encode, inode_magic, zero_from, fill, create, is_countable}
use sum.Pintos.Inodes.Encoding.{length-encode}

abbrev pub zeros : List ℕ
zeros = replicate sector_size 0

zero_from_lem :
    (left : ℕ) (d : Block) (s : ℕ)
    → IsBlock d
    → s + left ≤ d.size
    → d.size < 2 ^ 32
    → (d' : Block) × (zero_from left d s ≡ done d')
      × IsBlock d'
      × (d'.size ≡ d.size)
      × ((t : ℕ) → d'.sectors t ≡ (if within s left t then zeros else d.sectors t))
unfolding zero_from
zero_from_lem zero d s full le small = (d, refl, full, refl, λ t. ground arith)
zero_from_lem (suc left) d s full le small =
    let here : s % 2 ^ 32 ≡ s = omega arith in
    let (wrote, full', bytes) =
      write_lem d s zeros full (omega arith) (length-replicate {A = ℕ} sector_size 0) in
    let d1 = with_sector d s zeros in
    let (d2, rest, full'', size, sectors) =
      zero_from_lem left d1 (s + 1) full' (omega arith) small in
    (
      d2,
      ap (λ x. write d x zeros >>= λ c. zero_from left c (s + 1)) here ∙ rw wrote rest,
      full'',
      size,
      λ t. sectors t ∙ ground arith,
    )

-- The inode that is made.
abbrev pub made : ℕ → ℕ → InodeDisk
made start len = record { start = start; length = len; magic = inode_magic }

-- The inode lies in its sector, and its data, in sectors that were free, are zero; or no sector is
-- taken.
abbrev pub Created : Fs → ℕ → ℕ → Fs → Bool → Type 0
Created f sector len f' true =
    (start : ℕ) × (start + bytes_to_sectors len ≤ f.map.bit_cnt)
    × IsGroup f.map start (bytes_to_sectors len) false
    × ((j : ℕ) → at f'.map j ≡ (if within start (bytes_to_sectors len) j then true else at f.map j))
    × (f'.disk.sectors sector ≡ encode (made start len))
    × ((t : ℕ) → start ≤ t → t < start + bytes_to_sectors len → f'.disk.sectors t ≡ zeros)
    × ((f.map_file ≡ none) ⊎ ((d : Block) × Saved f f'.map d true))
Created f sector len f' false = Allocated f (bytes_to_sectors len) f' none

fill_lem :
    (f : Fs) (sector len start : ℕ)
    → IsFs f
    → sector < f.disk.size
    → start + bytes_to_sectors len ≤ f.disk.size
    → within start (bytes_to_sectors len) sector ≡ false
    → (d' : Block) × (fill f sector len (some start) ≡ done (true, record f { disk = d' }))
      × IsBlock d'
      × (d'.size ≡ f.disk.size)
      × (d'.sectors sector ≡ encode (made start len))
      × ((t : ℕ) → start ≤ t → t < start + bytes_to_sectors len → d'.sectors t ≡ zeros)
unfolding fill
fill_lem f sector len start h inside fits apart =
    let content = encode (made start len) in
    let (wrote, full, bytes) =
      write_lem f.disk sector content h.full inside (length-encode (made start len)) in
    let d1 = with_sector f.disk sector content in
    let (d2, zeroed, full', size, sectors) =
      zero_from_lem (bytes_to_sectors len) d1 start full fits
        (omega (arith, h.cover, h.map.small)) in
    (
      d2,
      rw wrote (rw zeroed refl),
      full',
      size,
      sectors sector ∙ ground (arith, apart),
      λ t lo hi. sectors t ∙ ground arith,
    )

-- inode_create with memory, at a well-formed file system, for a taken sector of the device and a
-- length of less than 2^31 - 512, returns: with success, its data are a group of sectors that
-- were free, are now set and hold zeros, the sector holds the inode, and the map was written to
-- its file if it has one; without, every bit is as before, and there is no such group or the map,
-- with such a group marked, could not be written to its file. The file system stays well formed.
pub create_lem :
    (f : Fs) (sector len : ℕ)
    → IsFs f
    → sector < f.disk.size
    → at f.map sector ≡ true
    → len + sector_size < 2 ^ 31
    → (ok : Bool) × (f' : Fs) × (create true true f sector len ≡ done (ok, f'))
      × IsFs f'
      × Kept f f'
      × Created f sector len f' ok
unfolding create fill
create_lem f sector len h inside taken small =
    let k = bytes_to_sectors len in
    let (r, f1, runs, valid, kept, given) = allocate_lem f k h in
    let fine : is_countable len ≡ true = ground arith in
    elim (Option-cases r) [
      | inl nothing ↦
          (false, f1, rw fine (rw runs (rw nothing refl)), valid, kept, rw nothing at given)
      | inr (start, found) ↦
          let (fits, group, first, bits, stored) = rw found at given in
          let apart : within start k sector ≡ false = elim (Bool-cases (within start k sector)) [
            | inl hit ↦
                let clear = group sector (ground (arith, hit)) (ground (arith, hit)) in
                absurd (ground (arith, clear, taken))
            | inr miss ↦ miss
          ] in
          let (d, filled, full, size, head, zeroed) =
            fill_lem f1 sector len start valid (omega (arith, inside, kept.size))
              (omega (arith, fits, h.cover, kept.size)) apart in
          let same_map : f1.map.bit_cnt ≡ f1.map.bit_cnt = refl in
          let whole : IsFs (record f1 { disk = d }) =
            with_map-IsFs f1 f1.map d valid valid.map full size same_map in
          (
            true,
            record f1 { disk = d },
            rw fine (rw runs (rw found filled)),
            whole,
            record {
              size = size ∙ kept.size;
              inodes = kept.inodes;
              map_file = kept.map_file;
              cnt = kept.cnt;
            },
            (
              start,
              fits,
              group,
              bits,
              head,
              zeroed,
              elim stored [ inl no_file ↦ inl no_file | inr wrote ↦ inr (f1.disk, wrote) ],
            ),
          )
    ]
