-- ===== src/Pintos/Bitmap/Multiple.antt =====
-- Ranges of a bitmap: bitmap_create, bitmap_set_all, bitmap_set_multiple, bitmap_count and
-- bitmap_contains with its three variants.
use sum.Prelude.{
  ℕ, zero, suc, ◌+◌, ◌%◌, ◌^◌, ◌≤◌, ◌<◌, ◌≡◌, refl, Bool, true, false, not, some, List, ◌&&◌,
  length, ltb, leb, ◌==◌, if◌then◌else◌, Run, done, arith, ap, ◌∙◌, All, Bool-cases, inl, inr,
}
use sum.Pintos.Bitmap.{
  Bitmap, elem_cnt, set_from, set_multiple, set_all, create, eqb, count_from, count, contains_from,
  contains,
}
use sum.Pintos.Bitmap.Bits.{IsBitmap, at, test_lem, assign_lem}

-- Whether a bit lies among the `cnt` bits from `start` on.
abbrev pub within : ℕ → ℕ → ℕ → Bool
within start cnt j = leb start j && ltb j (start + cnt)

-- The bitmap with the range set to a value.
abbrev pub Filled : Run Bitmap → Bitmap → ℕ → ℕ → Bool → Type 0
Filled r b start cnt v =
    (b' : Bitmap) × (r ≡ done b')
    × IsBitmap b'
    × (b'.bit_cnt ≡ b.bit_cnt)
    × ((j : ℕ) → at b' j ≡ (if within start cnt j then v else at b j))

set_from-Filled :
    (left : ℕ) (b : Bitmap) (i : ℕ) (v : Bool)
    → IsBitmap b
    → i + left ≤ b.bit_cnt
    → Filled (set_from left b i v) b i left v
unfolding set_from
set_from-Filled zero b i v h le = (b, refl, h, refl, λ j. ground arith)
set_from-Filled (suc left) b i v h le =
    let here : i % 2 ^ 32 ≡ i = omega (arith, h.small) in
    let (b1, made, valid, size, bits) = assign_lem b i v h (omega arith) in
    let (b2, rest, valid', size', bits') =
      set_from-Filled left b1 (i + 1) v valid (omega (arith, size)) in
    (
      b2,
      ground (arith, here, made, rest),
      valid',
      size' ∙ size,
      λ j. ground (arith, bits j, bits' j),
    )

-- bitmap_set_multiple on a range of a well-formed bitmap sets every bit of the range to the value
-- and changes no other bit; the bitmap stays well formed and keeps its size.
pub set_multiple-Filled :
    (b : Bitmap) (start cnt : ℕ) (v : Bool)
    → IsBitmap b
    → start + cnt ≤ b.bit_cnt
    → Filled (set_multiple b start cnt v) b start cnt v
unfolding set_multiple
set_multiple-Filled b start cnt v h le =
    let (b', made, valid, size, bits) = set_from-Filled cnt b start v h le in
    (b', ground (arith, made, h.small), valid, size, bits)

pub set_all-Filled : (b : Bitmap) (v : Bool) → IsBitmap b → Filled (set_all b v) b 0 b.bit_cnt v
unfolding set_all
set_all-Filled b v h = set_multiple-Filled b 0 b.bit_cnt v h (omega arith)

-- A new bitmap, from the words that malloc gave.
pub create_lem :
    (n : ℕ) (ws : List ℕ)
    → n + 31 < 2 ^ 32
    → length ws ≡ elem_cnt n
    → All (λ w. w < 2 ^ 32) ws
    → (b : Bitmap) × (create true (some ws) n ≡ done (some b))
      × IsBitmap b
      × (b.bit_cnt ≡ n)
      × ((j : ℕ) → j < n → at b j ≡ false)
unfolding create
create_lem n ws small words fits =
    let fresh : Bitmap = record { bit_cnt = n; bits = ws } in
    let (b, made, valid, size, bits) =
      set_all-Filled fresh false (record { small = small; words = words; fits = fits }) in
    (b, ground (arith, made), valid, size, λ j lt. ground (arith, bits j))

eqb-cases : (c v : Bool) → (if eqb c v then c ≡ v else c ≡ not v)
eqb-cases true true = refl
eqb-cases true false = refl
eqb-cases false true = refl
eqb-cases false false = refl

-- How many of the bits from `i` on have a value.
unfoldable pub tally : ℕ → Bitmap → ℕ → Bool → ℕ
tally zero b i v = 0
tally (suc left) b i v = (if eqb (at b i) v then 1 else 0) + tally left b (i + 1) v

pub tally-le : (left : ℕ) (b : Bitmap) (i : ℕ) (v : Bool) → tally left b i v ≤ left
unfolding tally
tally-le zero b i v = omega arith
tally-le (suc left) b i v = ground (arith, tally-le left b (i + 1) v)

-- The bits that are set and those that are not make up the range.
pub tally-not : (left : ℕ) (b : Bitmap) (i : ℕ) → tally left b i true + tally left b i false ≡ left
unfolding tally
tally-not zero b i = refl
tally-not (suc left) b i = ground (arith, tally-not left b (i + 1))

count_from_lem :
    (left : ℕ) (b : Bitmap) (i : ℕ) (v : Bool) (n : ℕ)
    → IsBitmap b
    → i + left ≤ b.bit_cnt
    → n ≤ i
    → count_from left b i v n ≡ done (n + tally left b i v)
unfolding count_from tally
count_from_lem zero b i v n h le low = ap done (omega arith)
count_from_lem (suc left) b i v n h le low =
    let here : i % 2 ^ 32 ≡ i = omega (arith, h.small) in
    let next : (n + 1) % 2 ^ 32 ≡ n + 1 = omega (arith, h.small) in
    elim (Bool-cases (eqb (at b i) v)) [
      | inl hit ↦ ground (
        arith,
        here,
        next,
        test_lem b i h (omega arith),
        hit,
        count_from_lem left b (i + 1) v (n + 1) h (omega arith) (omega arith),
      )
      | inr miss ↦ ground (
        arith,
        here,
        test_lem b i h (omega arith),
        miss,
        count_from_lem left b (i + 1) v n h (omega arith) (omega arith),
      )
    ]

-- bitmap_count on a range of a well-formed bitmap returns the number of bits of the range that
-- have the value.
pub count_lem :
    (b : Bitmap) (start cnt : ℕ) (v : Bool)
    → IsBitmap b
    → start + cnt ≤ b.bit_cnt
    → count b start cnt v ≡ done (tally cnt b start v)
unfolding count
count_lem b start cnt v h le =
    ground (arith, h.small, count_from_lem cnt b start v 0 h le (omega arith))

-- A bit of the range that has the value, or all bits have the other one.
abbrev pub Contains : Bitmap → ℕ → ℕ → Bool → Bool → Type 0
Contains b start cnt v true = (j : ℕ) × (start ≤ j) × (j < start + cnt) × (at b j ≡ v)
Contains b start cnt v false = (j : ℕ) → start ≤ j → j < start + cnt → at b j ≡ not v

Contains-miss :
    (left : ℕ) (b : Bitmap) (i : ℕ) (v c : Bool)
    → at b i ≡ not v
    → Contains b (i + 1) left v c
    → Contains b i (suc left) v c
Contains-miss left b i v true miss (j, lo, hi, hit) = (j, omega arith, omega arith, hit)
Contains-miss left b i v false miss rest = λ j lo hi. elim (Bool-cases (i == j)) [
  | inl same ↦ ground (arith, miss)
  | inr other ↦ rest j (ground arith) (omega arith)
]

contains_from_lem :
    (left : ℕ) (b : Bitmap) (i : ℕ) (v : Bool)
    → IsBitmap b
    → i + left ≤ b.bit_cnt
    → (c : Bool) × (contains_from left b i v ≡ done c) × Contains b i left v c
unfolding contains_from
contains_from_lem zero b i v h le = (false, refl, λ j lo hi. absurd (omega arith))
contains_from_lem (suc left) b i v h le =
    let here : i % 2 ^ 32 ≡ i = omega (arith, h.small) in
    let read = test_lem b i h (omega arith) in
    let sort = eqb-cases (at b i) v in
    elim (Bool-cases (eqb (at b i) v)) [
      | inl hit ↦
          (true, ground (arith, here, read, hit), (i, omega arith, omega arith, rw hit at sort))
      | inr miss ↦
          let (c, rest, meaning) = contains_from_lem left b (i + 1) v h (omega arith) in
          (
            c,
            ground (arith, here, read, miss, rest),
            Contains-miss left b i v c (rw miss at sort) meaning,
          )
    ]

pub contains_lem :
    (b : Bitmap) (start cnt : ℕ) (v : Bool)
    → IsBitmap b
    → start + cnt ≤ b.bit_cnt
    → (c : Bool) × (contains b start cnt v ≡ done c) × Contains b start cnt v c
unfolding contains
contains_lem b start cnt v h le =
    let (c, runs, meaning) = contains_from_lem cnt b start v h le in
    (c, ground (arith, h.small, runs), meaning)
