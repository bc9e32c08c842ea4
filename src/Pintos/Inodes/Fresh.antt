-- ===== src/Pintos/Inodes/Fresh.antt =====
-- A file that is made, opened and read: inode_create, inode_open and inode_read_at one after another.
use sum.Prelude.{
  ℕ, ◌+◌, ◌/◌, ◌%◌, ◌^◌, ◌≤◌, ◌<◌, ◌≡◌, refl, Bool, true, false, none, some, ◌∷◌, length, replicate,
  length-replicate, get_elem?, get_elem?-replicate, list_ext, ltb, done, arith, ap, ◌∙◌, sym,
  Bool-cases, inl, inr, ◌⊎◌,
}
use sum.Pintos.Block.{Block, IsBlock, sector_size, read, byte_at}
use sum.Pintos.Bitmap.Bits.{at}
use sum.Pintos.Content.{Inode, bytes_to_sectors, read_at}
use sum.Pintos.Content.Read.{IsFile, address, read_at_lem}
use sum.Pintos.FreeMap.{Fs, find}
use sum.Pintos.FreeMap.Laws.{IsFs}
use sum.Pintos.Inodes.{encode, decode, create, open_inode, load_inode}
use sum.Pintos.Inodes.Encoding.{decode-encode}
use sum.Pintos.Inodes.Create.{zeros, made, create_lem}

-- The open inode of a file that is just made.
abbrev pub fresh : ℕ → ℕ → ℕ → Inode
fresh sector start len = record {
  sector = sector;
  open_cnt = 1;
  removed = false;
  deny_write_cnt = 0;
  content = made start len;
}

abbrev pub with_open : Fs → Inode → Fs
with_open f n = record f { open_inodes = n ∷ f.open_inodes }

pub open_fresh :
    (f : Fs) (sector start len : ℕ)
    → find f.open_inodes sector ≡ none
    → sector < f.disk.size
    → f.disk.sectors sector ≡ encode (made start len)
    → start < 2 ^ 32
    → len < 2 ^ 31
    → open_inode true f sector ≡ done (true, with_open f (fresh sector start len))
unfolding open_inode load_inode read
open_fresh f sector start len closed inside head small short =
    let same : decode (f.disk.sectors sector) ≡ made start len =
      ap decode head
      ∙ decode-encode (made start len)
          (record { start = small; length = omega (arith, short); magic = omega arith }) in
    let lt : ltb sector f.disk.size ≡ true = ground arith in
    rw closed (
      rw lt
        (ap (λ c. done (true, with_open f (record (fresh sector start len) { content = c }))) same))

read_zeros :
    (d : Block) (n : Inode)
    → IsBlock d
    → IsFile d n
    → ((t : ℕ)
        → n.content.start ≤ t
        → t < n.content.start + bytes_to_sectors n.content.length
        → d.sectors t ≡ zeros)
    → read_at true d n n.content.length 0 ≡ done (replicate n.content.length 0)
unfolding byte_at
read_zeros d n full file zeroed =
    let len = n.content.length in
    let (bytes, runs, size, copy) = read_at_lem d n len 0 full file in
    let long : length bytes ≡ len = size ∙ ground arith in
    let same =
      list_ext bytes (replicate len 0) (long ∙ sym (length-replicate {A = ℕ} len 0)) (λ i lt.
        let t = (address n 0 + i) / sector_size in
        let zero : get_elem? (d.sectors t) ((address n 0 + i) % sector_size) ≡ some 0 =
          ap (λ s. get_elem? s ((address n 0 + i) % sector_size))
            (zeroed t (omega arith) (omega (arith, long, lt)))
          ∙ get_elem?-replicate sector_size ((address n 0 + i) % sector_size) 0
          ∙ ground arith in
        copy i lt ∙ zero ∙ sym (get_elem?-replicate len i 0 ∙ ground (arith, long, lt))) in
    runs ∙ ap done same

-- At a well-formed file system, for a sector that is on the device, taken and not open, and a
-- length of less than 2^31 - 512: inode_create with memory returns, and if it succeeds, then
-- inode_open of the sector gives an inode of that length whose data lie on the device, and
-- reading all of it gives zeros.
pub open_inode-create :
    (f : Fs) (sector len : ℕ)
    → IsFs f
    → sector < f.disk.size
    → at f.map sector ≡ true
    → len + sector_size < 2 ^ 31
    → find f.open_inodes sector ≡ none
    → (ok : Bool) × (f1 : Fs) × (create true true f sector len ≡ done (ok, f1))
      × ((ok ≡ false)
          ⊎ ((n : Inode) × (open_inode true f1 sector ≡ done (true, with_open f1 n))
              × IsFile f1.disk n
              × (n.content.length ≡ len)
              × (read_at true f1.disk n len 0 ≡ done (replicate len 0))))
open_inode-create f sector len h inside taken short closed =
    let (ok, f1, runs, valid, kept, effect) = create_lem f sector len h inside taken short in
    elim (Bool-cases ok) [
      | inr failed ↦ (ok, f1, runs, inl failed)
      | inl worked ↦
          let (start, fits, group, bits, head, zeroed, stored) = rw worked at effect in
          let still : find f1.open_inodes sector ≡ none =
            ap (λ ns. find ns sector) kept.inodes ∙ closed in
          let file : IsFile f1.disk (fresh sector start len) = record {
            inside = omega (arith, fits, h.cover, kept.size);
            small = omega (arith, valid.cover, valid.map.small);
          } in
          (
            ok,
            f1,
            runs,
            inr (
              fresh sector start len,
              open_fresh f1 sector start len still (omega (arith, inside, kept.size)) head
                  (omega (arith, fits, h.map.small)) (omega (arith, short)),
              file,
              refl,
              read_zeros f1.disk (fresh sector start len) valid.full file zeroed,
            ),
          )
    ]
