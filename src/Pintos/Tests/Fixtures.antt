-- ===== src/Pintos/Tests/Fixtures.antt =====
-- A device of eight sectors: a file system with the file of the free map and one more file, and the
-- state before the free map has a file.
use sum.Prelude.{
  ℕ, ◌≡◌, refl, true, false, none, some, List, [], ◌∷◌, replicate, ◌==◌, arith, subst, ap,
  Bool-cases, inl, inr,
}
use sum.Pintos.Word.{bit}
use sum.Pintos.Block.{Block, IsBlock}
use sum.Pintos.Bitmap.{Bitmap}
use sum.Pintos.Bitmap.Bits.{IsBitmap, at}
use sum.Pintos.Bitmap.Scan.{IsGroup}
use sum.Pintos.Content.{Inode}
use sum.Pintos.Content.Read.{IsFile}
use sum.Pintos.FreeMap.{Fs, find}
use sum.Pintos.FreeMap.Laws.{IsFs}
use sum.Pintos.Inodes.{inode_magic}
use sum.Pintos.Inodes.Close.{IsStored}
use sum.Pintos.File.{File}

abbrev pub disk : Block
disk = record { size = 8; sectors = λ t. replicate 512 0; is_foreign = false }

pub disk-IsBlock : IsBlock disk
disk-IsBlock = record { full = λ s. refl; own = refl }

-- The first six sectors are in use; and the first two.
abbrev pub map_6 : Bitmap
map_6 = record { bit_cnt = 8; bits = 63 ∷ [] }

abbrev pub map_2 : Bitmap
map_2 = record { bit_cnt = 8; bits = 3 ∷ [] }

pub map_6-IsBitmap : IsBitmap map_6
map_6-IsBitmap = record { small = omega arith; words = refl; fits = (omega arith, tt) }

pub map_2-IsBitmap : IsBitmap map_2
map_2-IsBitmap = record { small = omega arith; words = refl; fits = (omega arith, tt) }

abbrev pub map_inode : Inode
map_inode = record {
  sector = 0;
  open_cnt = 1;
  removed = false;
  deny_write_cnt = 0;
  content = record { start = 2; length = 4; magic = inode_magic };
}

-- A file of two sectors, removed while it is open.
abbrev pub inode : Inode
inode = record {
  sector = 3;
  open_cnt = 1;
  removed = true;
  deny_write_cnt = 0;
  content = record { start = 4; length = 600; magic = inode_magic };
}

abbrev pub fs : Fs
fs = record { disk = disk; map = map_6; open_inodes = inode ∷ map_inode ∷ []; map_file = some 0 }

abbrev pub new_fs : Fs
new_fs = record { disk = disk; map = map_2; open_inodes = []; map_file = none }

pub inode-IsFile : IsFile disk inode
inode-IsFile = record { inside = omega arith; small = omega arith }

pub fs-IsFs : IsFs fs
fs-IsFs = record {
  full = disk-IsBlock;
  map = map_6-IsBitmap;
  cover = refl;
  file = λ s e.
      let same : 0 ≡ s = ap (λ o. elim o [ none ↦ 0 | some x ↦ x ]) e in
      (
        map_inode,
        subst (λ x. find fs.open_inodes x ≡ some map_inode) same refl,
        record { inside = omega arith; small = omega arith },
      );
}

pub new_fs-IsFs : IsFs new_fs
new_fs-IsFs = record {
  full = disk-IsBlock;
  map = map_2-IsBitmap;
  cover = refl;
  file = λ s e. absurd (ground (arith, e));
}

-- The data of the file.
pub data_held : IsGroup map_6 4 2 true
unfolding at bit
data_held j lo hi = elim (Bool-cases (j == 4)) [
  | inl first ↦
      let start : 4 ≡ j = ground (arith, first) in subst (λ x. at map_6 x ≡ true) start refl
  | inr second ↦
      let last : 5 ≡ j = ground (arith, second) in subst (λ x. at map_6 x ≡ true) last refl
]

pub one_free : IsGroup map_2 2 1 false
unfolding at bit
one_free j lo hi = let only : 2 ≡ j = omega arith in subst (λ x. at map_2 x ≡ false) only refl

pub inode-IsStored : IsStored fs inode
unfolding at bit
inode-IsStored = record {
  head = refl;
  head_lt = omega arith;
  sized = omega arith;
  fits = omega arith;
  held = data_held;
  apart = refl;
}

pub first_taken : at map_2 0 ≡ true
unfolding at bit
first_taken = refl

pub second_taken : at map_2 1 ≡ true
unfolding at bit
second_taken = refl

abbrev pub file : File
file = record { inode = 3; pos = 500; deny_write = false }

abbrev pub three_bytes : List ℕ
three_bytes = 7 ∷ 8 ∷ 9 ∷ []
