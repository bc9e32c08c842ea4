-- ===== src/Pintos/Bitmap/Bits.antt =====
-- The bits of a bitmap one by one: what bitmap_test reads, and what bitmap_set, bitmap_mark,
-- bitmap_reset and bitmap_flip change.
use sum.Prelude.{
  ℕ, ◌+◌, ◌%◌, ◌^◌, ◌<◌, ◌≡◌, refl, Bool, true, false, not, Option, none, some, get_elem?,
  get_elem?-set, get_elem?-some, length-set, All, All-set, All-get_elem?, set, length, ◌==◌,
  if◌then◌else◌, Run, done, arith, ◌∙◌,
}
use sum.Pintos.Word.{
  bit, bit-lt, mark-bit, reset-bit, flip-bit, test-bit, or-lt, xor-lt, and-lt, mask-lt,
}
use sum.Pintos.Bitmap.{
  Bitmap, elem_idx, bit_mask, elem_bits, elem_cnt, mark, reset, flip, assign, test, with_elem,
}

-- There is a word of 32 bits for every bit, and the number of bits leaves room for rounding up.
pub record IsBitmap (b : Bitmap) : Type 0 where
  pub small : b.bit_cnt + 31 < 2 ^ 32
  pub words : length b.bits ≡ elem_cnt b.bit_cnt
  pub fits : All (λ w. w < 2 ^ 32) b.bits

abbrev pub word_bit : Option ℕ → ℕ → Bool
word_bit none k = false
word_bit (some w) k = bit k w == 1

-- The bit number i.
unfoldable pub at : Bitmap → ℕ → Bool
at b i = word_bit (get_elem? b.bits (elem_idx i)) (i % elem_bits)

word-lt : (b : Bitmap) (i : ℕ) → IsBitmap b → i < b.bit_cnt → elem_idx i < length b.bits
word-lt b i h lt = omega (arith, h.words, h.small)

-- A change of one word, on the bits.
with_elem-at :
    (b : Bitmap) (i : ℕ) (f : ℕ → ℕ) (c : Bool → Bool)
    → IsBitmap b
    → i < b.bit_cnt
    → ((w k : ℕ)
        → k < 32
        → (bit k (f w) == 1) ≡ (if k == i % 32 then c (bit k w == 1) else bit k w == 1))
    → ((w : ℕ) → w < 2 ^ 32 → f w < 2 ^ 32)
    → (b' : Bitmap) × (with_elem b i f ≡ done b')
      × IsBitmap b'
      × (b'.bit_cnt ≡ b.bit_cnt)
      × ((j : ℕ) → at b' j ≡ (if i == j then c (at b j) else at b j))
unfolding at
with_elem-at b i f c h lt change narrow =
    let (w, found) = get_elem?-some b.bits (elem_idx i) (word-lt b i h lt) in
    (
      record b { bits = set b.bits (elem_idx i) (f w) },
      ground (arith, found),
      record {
        small = h.small;
        words = length-set b.bits (elem_idx i) (f w) ∙ h.words;
        fits =
            All-set (λ x. x < 2 ^ 32) b.bits (elem_idx i) (f w) h.fits
              (narrow w (All-get_elem? (λ x. x < 2 ^ 32) b.bits (elem_idx i) w h.fits found));
      },
      refl,
      λ j. ground (
        arith,
        get_elem?-set b.bits (elem_idx i) (elem_idx j) (f w) (word-lt b i h lt),
        found,
        change w (j % 32) (omega arith),
      ),
    )

pub test_lem : (b : Bitmap) (i : ℕ) → IsBitmap b → i < b.bit_cnt → test b i ≡ done (at b i)
unfolding test at
test_lem b i h lt =
    let (w, found) = get_elem?-some b.bits (elem_idx i) (word-lt b i h lt) in
    ground (arith, found, test-bit w (i % 32))

-- What a change of bit i leaves.
abbrev pub Changed : Run Bitmap → Bitmap → ℕ → (Bool → Bool) → Type 0
Changed r b i c =
    (b' : Bitmap) × (r ≡ done b')
    × IsBitmap b'
    × (b'.bit_cnt ≡ b.bit_cnt)
    × ((j : ℕ) → at b' j ≡ (if i == j then c (at b j) else at b j))

pub mark_lem :
    (b : Bitmap) (i : ℕ) → IsBitmap b → i < b.bit_cnt → Changed (mark b i) b i (λ x. true)
unfolding mark
mark_lem b i h lt =
    with_elem-at b i _ (λ x. true) h lt (λ w k hk. ground (arith, mark-bit w (i % 32) k))
      (λ w small. or-lt 32 w (bit_mask i) small (mask-lt (i % 32) (omega arith)))

pub reset_lem :
    (b : Bitmap) (i : ℕ) → IsBitmap b → i < b.bit_cnt → Changed (reset b i) b i (λ x. false)
unfolding reset
reset_lem b i h lt =
    with_elem-at b i _ (λ x. false) h lt
      (λ w k hk. ground (arith, reset-bit w (i % 32) k (omega arith) hk))
      (λ w small. and-lt 32 w _ small)

pub flip_lem : (b : Bitmap) (i : ℕ) → IsBitmap b → i < b.bit_cnt → Changed (flip b i) b i not
unfolding flip
flip_lem b i h lt =
    with_elem-at b i _ not h lt (λ w k hk. ground (arith, flip-bit w (i % 32) k, bit-lt k w))
      (λ w small. xor-lt 32 w (bit_mask i) small (mask-lt (i % 32) (omega arith)))

pub assign_lem :
    (b : Bitmap) (i : ℕ) (v : Bool)
    → IsBitmap b
    → i < b.bit_cnt
    → Changed (assign b i v) b i (λ x. v)
unfolding assign
assign_lem b i true h lt =
    let (b', made, valid, size, bits) = mark_lem b i h lt in
    (b', ground (arith, made), valid, size, bits)
assign_lem b i false h lt =
    let (b', made, valid, size, bits) = reset_lem b i h lt in
    (b', ground (arith, made), valid, size, bits)
