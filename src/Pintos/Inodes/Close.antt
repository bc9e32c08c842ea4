-- ===== src/Pintos/Inodes/Close.antt =====
-- inode_close of filesys/inode.c, and the blocks of a removed inode.
use sum.Prelude.{
  ℕ, ◌^◌, ◌+◌, ◌-◌, ◌≤◌, ◌<◌, ◌≡◌, refl, Bool, true, false, none, some, List, [], ◌∷◌, ◌||◌, ◌&&◌,
  ◌==◌, if◌then◌else◌, done, arith, ap, ◌∙◌, sym, subst, Bool-cases, inl, inr,
}
use sum.Pintos.Block.{sector_size}
use sum.Pintos.Content.{Inode, bytes_to_sectors}
use sum.Pintos.Bitmap.Bits.{at, IsBitmap}
use sum.Pintos.Bitmap.Multiple.{within}
use sum.Pintos.Bitmap.Scan.{IsGroup}
use sum.Pintos.FreeMap.{Fs, find}
use sum.Pintos.FreeMap.Laws.{IsFs, Kept, release_lem}
use sum.Pintos.Inodes.{change, without, deallocate, close, close_found, is_countable}

-- The blocks of a removed inode: their count does not overflow, its sector and its data are in use, and are not the same.
pub record IsStored (f : Fs) (n : Inode) : Type 0 where
  pub head : at f.map n.sector ≡ true
  pub head_lt : n.sector < f.map.bit_cnt
  pub sized : n.content.length + sector_size < 2 ^ 31
  pub fits : n.content.start + bytes_to_sectors n.content.length ≤ f.map.bit_cnt
  pub held : IsGroup f.map n.content.start (bytes_to_sectors n.content.length) true
  pub apart : within n.content.start (bytes_to_sectors n.content.length) n.sector ≡ false

-- The bits of an inode's blocks.
abbrev pub is_block : Inode → ℕ → Bool
is_block n j = n.sector == j || within n.content.start (bytes_to_sectors n.content.length) j

pub deallocate_lem :
    (f : Fs) (n : Inode) (file : ℕ)
    → IsFs f
    → f.map_file ≡ some file
    → IsStored f n
    → (f' : Fs) × (deallocate true f n ≡ done f')
      × IsFs f'
      × Kept f f'
      × ((j : ℕ) → at f'.map j ≡ (if is_block n j then false else at f.map j))
unfolding deallocate
deallocate_lem f n file h e stored =
    let k = bytes_to_sectors n.content.length in
    let fine : is_countable n.content.length ≡ true = ground (arith, stored.sized) in
    let (f1, first, valid, kept, bits) =
      release_lem f n.sector 1 file h e (omega (arith, stored.head_lt))
        (λ j lo hi. subst (λ x. at f.map x ≡ true) (omega arith) stored.head) in
    let held : IsGroup f1.map n.content.start k true =
      λ j lo hi. bits j ∙ ground (arith, stored.held j lo hi, stored.apart, lo, hi) in
    let (f2, second, valid', kept', bits') =
      release_lem f1 n.content.start k file valid (kept.map_file ∙ e)
        (omega (arith, stored.fits, kept.cnt)) held in
    (
      f2,
      rw first (rw fine second),
      valid',
      record {
        size = kept'.size ∙ kept.size;
        inodes = kept'.inodes ∙ kept.inodes;
        map_file = kept'.map_file ∙ kept.map_file;
        cnt = kept'.cnt ∙ kept.cnt;
      },
      λ j. ground (arith, bits j, bits' j),
    )

find-without : (ns : List Inode) (s t : ℕ) → (t == s) ≡ false → find (without ns s) t ≡ find ns t
find-without [] s t apart = refl
find-without (m ∷ ns) s t apart = elim (Bool-cases (m.sector == s)) [
  | inl this ↦
      let other : (m.sector == t) ≡ false = ground (arith, this, apart) in rw this (rw other refl)
  | inr that ↦ rw that (ap (λ o. if m.sector == t then some m else o) (find-without ns s t apart))
]

-- The list after a close.
abbrev pub closed_list : List Inode → ℕ → Inode → List Inode
closed_list ns s n =
    if n.open_cnt == 1
    then without ns s
    else change (λ old. record n { open_cnt = n.open_cnt - 1 }) ns s

-- inode_close with memory, at a well-formed file system that has a file of the map, of an open
-- inode that is not the one of this file, whose length is less than 2^31 - 512 and whose own
-- sector and data sectors are in use and do not overlap: it returns; the inode leaves the list at
-- its last opener and loses an opener before; the bits of its blocks are cleared if that was the
-- last opener and the inode was removed, and no other bit changes.
pub close_lem :
    (f : Fs) (s file : ℕ) (n : Inode)
    → IsFs f
    → find f.open_inodes s ≡ some n
    → f.map_file ≡ some file
    → (file == s) ≡ false
    → IsStored f n
    → (f' : Fs) × (close true f s ≡ done f')
      × (f'.open_inodes ≡ closed_list f.open_inodes s n)
      × IsBitmap f'.map
      × ((j : ℕ)
          → at f'.map j
            ≡ (if (n.open_cnt == 1 && n.removed) && is_block n j then false else at f.map j))
unfolding close
close_lem f s file n h found e apart stored =
    let f1 : Fs = record f { open_inodes = without f.open_inodes s } in
    let whole : IsFs f1 = record {
      full = h.full;
      map = h.map;
      cover = h.cover;
      file = λ t is_file.
          let (m, there, fits) = h.file t is_file in
          let same : file ≡ t = ap (λ o. elim o [ none ↦ file | some x ↦ x ]) (sym e ∙ is_file) in
          (m, find-without f.open_inodes s t (ground (arith, same, apart)) ∙ there, fits);
    } in
    let kept : IsStored f1 n = record {
      head = stored.head;
      head_lt = stored.head_lt;
      sized = stored.sized;
      fits = stored.fits;
      held = stored.held;
      apart = stored.apart;
    } in
    elim (Bool-cases (n.open_cnt == 1)) [
      | inr more ↦
          let n' = record n { open_cnt = n.open_cnt - 1 } in
          (
            record f { open_inodes = change (λ old. n') f.open_inodes s },
            ap (close_found true f s) found ∙ simp (more) refl,
            simp (more) refl,
            h.map,
            λ j. simp (more) refl,
          )
      | inl last ↦ elim (Bool-cases n.removed) [
        | inr stays ↦ (
          f1,
          ap (close_found true f s) found ∙ simp (last, stays) refl,
          simp (last) refl,
          h.map,
          λ j. simp (last, stays) refl,
        )
        | inl gone ↦
            let (f2, freed, valid, same, bits) = deallocate_lem f1 n file whole e kept in
            (
              f2,
              ap (close_found true f s) found ∙ simp (last, gone) freed,
              simp (last) same.inodes,
              valid.map,
              λ j. bits j ∙ simp (last, gone) refl,
            )
      ]
    ]
