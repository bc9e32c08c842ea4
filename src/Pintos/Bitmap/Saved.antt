-- ===== src/Pintos/Bitmap/Saved.antt =====
-- A bitmap that is written to its file and read back: bitmap_write and bitmap_read.
use Prim.Native.Nat.{bit_and}
use native.Mathlib.Nat.{one-le-pow}
use sum.Prelude.{
  ℕ, ◌+◌, ◌-◌, ◌*◌, ◌/◌, ◌%◌, ◌^◌, ◌≤◌, ◌<◌, ◌≡◌, refl, true, false, List, [], ◌∷◌, ◌++◌, length,
  take, drop, get_elem?-set, get_elem?-some, length-set, All-set, All-get_elem?, set, ltb, ◌==◌,
  done, arith, ap, ◌∙◌, sym, subst, Bool-cases, inl, inr, All, take_all, list_ext, get_elem?-append,
  length-drop, length-append,
}
use sum.Pintos.Word.{bit, bit-lt, bit-and, bit-zero, bit-complement, and-lt}
use sum.Pintos.Block.{Block, IsBlock}
use sum.Pintos.Content.{Inode, read_at}
use sum.Pintos.Content.Read.{IsFile, address}
use sum.Pintos.Content.Write.{Written, write_count, write_at_lem, read_at-write_at}
use sum.Pintos.Bitmap.{Bitmap, elem_cnt, elem_bits, elem_idx, byte_cnt, with_elem}
use sum.Pintos.Bitmap.Bits.{IsBitmap, at}
use sum.Pintos.Bitmap.Io.{bytes_of, words_of, file_size, last_mask, load, save}

-- Every word fits in 32 bits.
abbrev pub IsSmall : List ℕ → Type 0
IsSmall ws = All (λ w. w < 2 ^ 32) ws

pub length-bytes_of : (ws : List ℕ) → length (bytes_of ws) ≡ 4 * length ws
unfolding bytes_of
length-bytes_of [] = refl
length-bytes_of (w ∷ ws) = omega (arith, length-bytes_of ws)

pub words_of-bytes_of : (ws : List ℕ) → IsSmall ws → words_of (bytes_of ws) ≡ ws
unfolding bytes_of words_of
words_of-bytes_of [] h = refl
words_of-bytes_of (w ∷ ws) (lt, h) =
    let whole : w % 256
          + 256 * (w / 256 % 256)
          + 65536 * (w / 65536 % 256)
          + 16777216 * (w / 16777216 % 256)
        ≡ w =
      omega (arith, lt) in
    let rest = words_of-bytes_of ws h in λ i. whole i ∷ rest i

file_size_lem : (b : Bitmap) → IsBitmap b → file_size b ≡ length (bytes_of b.bits)
file_size_lem b h = omega (arith, length-bytes_of b.bits, h.words, h.small)

pub save_lem :
    (d : Block) (n : Inode) (b : Bitmap)
    → IsBlock d
    → IsFile d n
    → IsBitmap b
    → (d' : Block) × (save true d n b ≡ done (write_count n (bytes_of b.bits) 0 == file_size b, d'))
      × Written d d' (address n 0) (write_count n (bytes_of b.bits) 0) (bytes_of b.bits)
unfolding save
save_lem d n b full file h =
    let (d', runs, effect) = write_at_lem d n (bytes_of b.bits) 0 full file in
    let size = file_size_lem b h in
    let all : take (file_size b) (bytes_of b.bits) ≡ bytes_of b.bits =
      take_all (file_size b) (bytes_of b.bits) (sym size) in
    let enough : ltb (length (bytes_of b.bits)) (file_size b) ≡ false = ground (arith, size) in
    (d', rw enough (rw all (rw runs refl)), effect)

drop_all : (xs : List ℕ) (n : ℕ) → length xs ≡ n → (ys : List ℕ) → ys ++ drop n xs ≡ ys
drop_all xs n e ys =
    let nothing : length (ys ++ drop n xs) ≡ length ys =
      omega (arith, length-append ys (drop n xs), length-drop n xs) in
    list_ext (ys ++ drop n xs) ys nothing
      (λ i lt. get_elem?-append ys (drop n xs) i ∙ ground (arith, nothing))

-- The mask of the bits in use keeps them.
mask-bit : (m k w : ℕ) → k < m → bit k (bit_and w (2 ^ m - 1)) ≡ bit k w
mask-bit m k w lt =
    let positive : 0 < 2 ^ m = omega (arith, one-le-pow m 2 (omega arith)) in
    let same : 2 ^ m - 1 ≡ 2 ^ m - 1 - 0 = omega arith in
    let ones : bit k (2 ^ m - 1) ≡ 1 =
      ap (bit k) same ∙ bit-complement m k 0 positive lt ∙ ap (λ x. 1 - x) (bit-zero k) in
    ground (arith, bit-and k w (2 ^ m - 1), ones, bit-lt k w)

last_mask-bit :
    (b : Bitmap) (j w : ℕ)
    → j < b.bit_cnt
    → j / 32 ≡ (b.bit_cnt - 1) / 32
    → bit (j % 32) (bit_and w (last_mask b)) ≡ bit (j % 32) w
last_mask-bit b j w lt last = elim (Bool-cases (b.bit_cnt % elem_bits == 0)) [
  | inl whole ↦ rw whole (mask-bit 32 (j % 32) w (omega arith))
  | inr part ↦ rw part (mask-bit (b.bit_cnt % elem_bits) (j % 32) w (ground (arith, part)))
]

-- The last word under the mask: the bits of the bitmap stay.
masked_lem :
    (b : Bitmap)
    → IsBitmap b
    → 0 < b.bit_cnt
    → (b' : Bitmap) × (with_elem b
          (elem_bits * (elem_cnt b.bit_cnt - 1))
          (λ w. bit_and w (last_mask b))
        ≡ done b')
      × IsBitmap b'
      × (b'.bit_cnt ≡ b.bit_cnt)
      × ((j : ℕ) → j < b.bit_cnt → at b' j ≡ at b j)
unfolding at
masked_lem b h some_bits =
    let i = elem_idx (elem_bits * (elem_cnt b.bit_cnt - 1)) in
    let place : i ≡ (b.bit_cnt - 1) / 32 = omega (arith, h.small) in
    let inside : i < length b.bits = omega (arith, h.words, h.small) in
    let (w, found) = get_elem?-some b.bits i inside in
    let new = bit_and w (last_mask b) in
    (
      record b { bits = set b.bits i new },
      ground (arith, found),
      record {
        small = h.small;
        words = length-set b.bits i new ∙ h.words;
        fits =
            All-set (λ x. x < 2 ^ 32) b.bits i new h.fits
              (and-lt 32 w (last_mask b) (All-get_elem? (λ x. x < 2 ^ 32) b.bits i w h.fits found));
      },
      refl,
      λ j lt. elim (Bool-cases (i == elem_idx j)) [
        | inl here ↦
            let kept = last_mask-bit b j w lt (ground (arith, place, here)) in
            ground (arith, get_elem?-set b.bits i (elem_idx j) new inside, here, found, kept)
        | inr there ↦ ground (arith, get_elem?-set b.bits i (elem_idx j) new inside, there)
      ],
    )

-- A file that holds the bytes of a bitmap is read into another one of the same size.
load_lem :
    (d : Block) (n : Inode) (b old : Bitmap)
    → IsBitmap b
    → IsBitmap old
    → old.bit_cnt ≡ b.bit_cnt
    → read_at true d n (length (bytes_of b.bits)) 0 ≡ done (bytes_of b.bits)
    → (b' : Bitmap) × (load true d n old ≡ done (true, b'))
      × IsBitmap b'
      × (b'.bit_cnt ≡ b.bit_cnt)
      × ((j : ℕ) → j < b.bit_cnt → at b' j ≡ at b j)
unfolding load
load_lem d n b old h h_old same reads = elim (Bool-cases (old.bit_cnt == 0)) [
  | inl empty ↦ (old, rw empty refl, h_old, same, λ j lt. absurd (ground (arith, empty, same)))
  | inr bits ↦
      let bytes = bytes_of b.bits in
      let rest = bytes_of old.bits in
      let size = file_size_lem b h in
      let size_old : file_size old ≡ length bytes = ap byte_cnt same ∙ size in
      let long : length rest ≡ length bytes = sym (file_size_lem old h_old) ∙ size_old in
      let enough : ltb (length rest) (file_size old) ≡ false = ground (arith, size_old, long) in
      let read' : read_at true d n (file_size old) 0 ≡ done bytes =
        ap (λ s. read_at true d n s 0) size_old ∙ reads in
      let words : words_of (bytes ++ drop (length bytes) rest) ≡ b.bits =
        ap words_of (drop_all rest (length bytes) long bytes) ∙ words_of-bytes_of b.bits h.fits in
      let mid : record old { bits = words_of (bytes ++ drop (length bytes) rest) } ≡ b =
        λ i. record { bit_cnt = same i; bits = words i } in
      let (b', masked, valid, cnt, kept) = masked_lem b h (ground (arith, bits, same)) in
      let whole : (length bytes == file_size old) ≡ true = ground (arith, size_old) in
      let step = λ (c : Bitmap).
        with_elem c (elem_bits * (elem_cnt c.bit_cnt - 1)) (λ w. bit_and w (last_mask c)) in
      let made : step (record old { bits = words_of (bytes ++ drop (length bytes) rest) })
          ≡ done b' =
        ap step mid ∙ masked in
      (b', rw bits (rw enough (rw read' (rw made (rw whole refl)))), valid, cnt, kept)
]

-- What is written is read back, into any bitmap of the same size.
pub load-save :
    (d : Block) (n : Inode) (b old : Bitmap)
    → IsBlock d
    → IsFile d n
    → n.deny_write_cnt ≡ 0
    → file_size b ≤ n.content.length
    → IsBitmap b
    → IsBitmap old
    → old.bit_cnt ≡ b.bit_cnt
    → (d' : Block) × (b' : Bitmap) × (save true d n b ≡ done (true, d'))
      × (load true d' n old ≡ done (true, b'))
      × IsBitmap b'
      × (b'.bit_cnt ≡ b.bit_cnt)
      × ((j : ℕ) → j < b.bit_cnt → at b' j ≡ at b j)
      × Written d d' (address n 0) (file_size b) (bytes_of b.bits)
unfolding save
load-save d n b old full file writable fits h h_old same =
    let bytes = bytes_of b.bits in
    let size = file_size_lem b h in
    let (d', written, reads, effect) =
      read_at-write_at d n bytes 0 full file writable (omega (arith, size, fits)) in
    let (b', loads, valid, cnt, kept) = load_lem d' n b old h h_old same reads in
    let all : take (file_size b) bytes ≡ bytes = take_all (file_size b) bytes (sym size) in
    let enough : ltb (length bytes) (file_size b) ≡ false = ground (arith, size) in
    let whole : (length bytes == file_size b) ≡ true = ground (arith, size) in
    (
      d',
      b',
      rw enough (rw all (rw written (rw whole refl))),
      loads,
      valid,
      cnt,
      kept,
      subst (λ c. Written d d' (address n 0) c bytes) (sym size) effect,
    )
