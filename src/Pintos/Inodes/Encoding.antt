-- ===== src/Pintos/Inodes/Encoding.antt =====
-- `struct inode_disk` in a sector and back, as inode_create writes it and inode_open reads it.
use sum.Prelude.{ℕ, ◌+◌, ◌*◌, ◌/◌, ◌%◌, ◌^◌, ◌<◌, ◌≡◌, refl, length, arith}
use sum.Pintos.Block.{sector_size}
use sum.Pintos.Bitmap.Io.{words_of}
use sum.Pintos.Content.{InodeDisk}
use sum.Pintos.Inodes.{encode, decode}

-- Each field is a word.
pub record IsWords (c : InodeDisk) : Type 0 where
  pub start : c.start < 2 ^ 32
  pub length : c.length < 2 ^ 32
  pub magic : c.magic < 2 ^ 32

pub length-encode : (c : InodeDisk) → length (encode c) ≡ sector_size
unfolding encode
length-encode c = refl

word_whole :
    (w : ℕ)
    → w < 2 ^ 32
    → w % 256 + 256 * (w / 256 % 256) + 65536 * (w / 65536 % 256) + 16777216 * (w / 16777216 % 256)
      ≡ w
word_whole w lt = omega (arith, lt)

pub decode-encode : (c : InodeDisk) → IsWords c → decode (encode c) ≡ c
unfolding encode decode words_of
decode-encode c h = λ i. record {
  start = word_whole c.start h.start i;
  length = word_whole c.length h.length i;
  magic = word_whole c.magic h.magic i;
}
