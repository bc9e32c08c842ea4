-- ===== src/Pintos/Bitmap/Io.antt =====
-- The file of a bitmap: last_mask, bitmap_file_size, bitmap_read and bitmap_write. A word is four
-- bytes, the lowest first. A bitmap with too few words for its bits would be read outside its array,
-- which is a fault.
use Prim.Native.Nat.{bit_and}
use sum.Prelude.{
  ℕ, ◌+◌, ◌-◌, ◌*◌, ◌/◌, ◌%◌, ◌^◌, Bool, true, List, [], ◌∷◌, ◌++◌, length, take, drop, ltb, ◌==◌,
  if◌then◌else◌, Run, done, fault, ◌>>=◌,
}
use sum.Pintos.Bitmap.{Bitmap, byte_cnt, elem_cnt, elem_bits, with_elem}
use sum.Pintos.Block.{Block}
use sum.Pintos.Content.{Inode, read_at, write_at}

-- The bytes of a word, and the word of four bytes.
abbrev pub word_bytes : ℕ → List ℕ
word_bytes w = w % 256 ∷ w / 256 % 256 ∷ w / 65536 % 256 ∷ w / 16777216 % 256 ∷ []

unfoldable pub bytes_of : List ℕ → List ℕ
bytes_of [] = []
bytes_of (w ∷ ws) = word_bytes w ++ bytes_of ws

unfoldable pub words_of : List ℕ → List ℕ
words_of (a ∷ (b ∷ (c ∷ (e ∷ bytes)))) = (a + 256 * b + 65536 * c + 16777216 * e) ∷ words_of bytes
words_of bytes = []

abbrev pub file_size : Bitmap → ℕ
file_size b = byte_cnt b.bit_cnt

-- A mask of the bits in use of the last word.
abbrev pub last_mask : Bitmap → ℕ
last_mask b =
    let last_bits = b.bit_cnt % elem_bits in
    if last_bits == 0 then 2 ^ 32 - 1 else 2 ^ last_bits - 1

module _ (mem : Bool) where
  -- bitmap_read: what is read replaces the first bytes.
  unfoldable pub load : Block → Inode → Bitmap → Run (Bool × Bitmap)
  unfolding bytes_of words_of
  load d n b =
      let size = file_size b in
      let old = bytes_of b.bits in
      if b.bit_cnt == 0
      then done (true, b)
      else if ltb (length old) size
      then fault
      else (read_at mem d n size 0 >>= λ bytes.
          let b' = record b { bits = words_of (bytes ++ drop (length bytes) old) } in
          with_elem b' (elem_bits * (elem_cnt b.bit_cnt - 1)) (λ w. bit_and w (last_mask b))
          >>= λ b''. done (length bytes == size, b''))

  -- bitmap_write
  unfoldable pub save : Block → Inode → Bitmap → Run (Bool × Block)
  unfolding bytes_of
  save d n b =
      let size = file_size b in
      let bytes = bytes_of b.bits in
      if ltb (length bytes) size
      then fault
      else (write_at mem d n (take size bytes) 0 >>= λ r. done (r.0 == size, r.1))
