-- ===== src/Pintos/Bitmap.antt =====
-- group1/pintos/src/lib/kernel/bitmap.c: an array of words as an array of bits. `unsigned long` and
-- `size_t` have 32 bits. A failed ASSERT, which panics the kernel, and an access outside the array are
-- faults. Reading and writing a bitmap's file stands in the child Io. Freeing and printing a bitmap are
-- left out.
pub mod Bits
pub mod Multiple
pub mod Scan
pub mod Io
pub mod Saved
use Prim.Native.Nat.{bit_and, bit_or, bit_xor}
use sum.Prelude.{
  ℕ, zero, suc, ◌+◌, ◌-◌, ◌*◌, ◌/◌, ◌%◌, ◌^◌, ◌≤◌, ◌<◌, ◌≡◌, Bool, true, false, not, Option, none,
  some, List, [], ◌∷◌, get_elem?, set, ltb, leb, ◌==◌, ◌&&◌, if◌then◌else◌, Run, done, fault, ◌>>=◌,
}

pub record Bitmap : Type 0 where
  pub bit_cnt : ℕ
  pub bits : List ℕ

abbrev pub bitmap_error : ℕ
bitmap_error = 2 ^ 32 - 1

abbrev pub elem_bits : ℕ
elem_bits = 32

abbrev pub elem_idx : ℕ → ℕ
elem_idx i = i / elem_bits

abbrev pub bit_mask : ℕ → ℕ
bit_mask i = 2 ^ (i % elem_bits)

abbrev pub elem_cnt : ℕ → ℕ
elem_cnt n = (n + elem_bits - 1) % 2 ^ 32 / elem_bits

abbrev pub byte_cnt : ℕ → ℕ
byte_cnt n = 4 * elem_cnt n % 2 ^ 32

-- ASSERT
abbrev pub assert {ℓ} : {A : Type ℓ} → Bool → Run A → Run A
assert b r = if b then r else fault

-- The word of a bit, changed by `f`.
abbrev pub with_elem : Bitmap → ℕ → (ℕ → ℕ) → Run Bitmap
with_elem b i f = elim (get_elem? b.bits (elem_idx i)) [
  | none ↦ fault
  | some w ↦ done (record b { bits = set b.bits (elem_idx i) (f w) })
]

unfoldable pub mark : Bitmap → ℕ → Run Bitmap
mark b i = with_elem b i (λ w. bit_or w (bit_mask i))

unfoldable pub reset : Bitmap → ℕ → Run Bitmap
reset b i = with_elem b i (λ w. bit_and w (2 ^ 32 - 1 - bit_mask i))

unfoldable pub flip : Bitmap → ℕ → Run Bitmap
flip b i = with_elem b i (λ w. bit_xor w (bit_mask i))

-- bitmap_set
unfoldable pub assign : Bitmap → ℕ → Bool → Run Bitmap
unfolding mark reset
assign b i v = assert (ltb i b.bit_cnt) (if v then mark b i else reset b i)

unfoldable pub test : Bitmap → ℕ → Run Bool
test b i = assert (ltb i b.bit_cnt) (elim (get_elem? b.bits (elem_idx i)) [
  | none ↦ fault
  | some w ↦ done (not (bit_and w (bit_mask i) == 0))
])

-- The asserts of the functions on a range.
abbrev pub in_range : Bitmap → ℕ → ℕ → Bool
in_range b start cnt = leb start b.bit_cnt && leb ((start + cnt) % 2 ^ 32) b.bit_cnt

-- The loop of bitmap_set_multiple, from bit `i` on with `left` bits to go.
unfoldable pub set_from : ℕ → Bitmap → ℕ → Bool → Run Bitmap
set_from zero b i v = done b
set_from (suc left) b i v = assign b (i % 2 ^ 32) v >>= λ b'. set_from left b' (i + 1) v

unfoldable pub set_multiple : Bitmap → ℕ → ℕ → Bool → Run Bitmap
unfolding set_from
set_multiple b start cnt v = assert (in_range b start cnt) (set_from cnt b start v)

unfoldable pub set_all : Bitmap → Bool → Run Bitmap
unfolding set_multiple
set_all b v = set_multiple b 0 b.bit_cnt v

-- bitmap_create: what malloc gives for the structure and for the words.
unfoldable pub create : Bool → Option (List ℕ) → ℕ → Run (Option Bitmap)
unfolding set_all
create false words n = done none
create true none n =
    if n == 0
    then (set_all (record { bit_cnt = n; bits = [] }) false >>= λ b. done (some b))
    else done none
create true (some ws) n = set_all (record { bit_cnt = n; bits = ws }) false >>= λ b. done (some b)

-- bitmap_buf_size; the structure takes eight bytes.
abbrev pub buf_size : ℕ → ℕ
buf_size n = (8 + byte_cnt n) % 2 ^ 32

-- bitmap_create_in_buf, on the words behind the structure.
unfoldable pub create_in_buf : ℕ → List ℕ → ℕ → Run Bitmap
unfolding set_all
create_in_buf block_size ws n =
    assert (leb (buf_size n) block_size) (set_all (record { bit_cnt = n; bits = ws }) false)

abbrev pub eqb : Bool → Bool → Bool
eqb true c = c
eqb false c = not c

-- The loop of bitmap_count.
unfoldable pub count_from : ℕ → Bitmap → ℕ → Bool → ℕ → Run ℕ
count_from zero b i v n = done n
count_from (suc left) b i v n = test b (i % 2 ^ 32) >>= λ c.
    count_from left b (i + 1) v (if eqb c v then (n + 1) % 2 ^ 32 else n)

unfoldable pub count : Bitmap → ℕ → ℕ → Bool → Run ℕ
unfolding count_from
count b start cnt v = assert (in_range b start cnt) (count_from cnt b start v 0)

-- The loop of bitmap_contains.
unfoldable pub contains_from : ℕ → Bitmap → ℕ → Bool → Run Bool
contains_from zero b i v = done false
contains_from (suc left) b i v =
    let rest = contains_from left b (i + 1) v in
    test b (i % 2 ^ 32) >>= λ c. if eqb c v then done true else rest

unfoldable pub contains : Bitmap → ℕ → ℕ → Bool → Run Bool
unfolding contains_from
contains b start cnt v = assert (in_range b start cnt) (contains_from cnt b start v)

unfoldable pub any : Bitmap → ℕ → ℕ → Run Bool
any b start cnt = contains b start cnt true

unfoldable pub none_set : Bitmap → ℕ → ℕ → Run Bool
none_set b start cnt = contains b start cnt true >>= λ c. done (not c)

unfoldable pub all_set : Bitmap → ℕ → ℕ → Run Bool
all_set b start cnt = contains b start cnt false >>= λ c. done (not c)

-- The loop of bitmap_scan, from `i` on with `left` starts to try.
unfoldable pub scan_from : ℕ → Bitmap → ℕ → ℕ → Bool → Run ℕ
scan_from zero b i cnt v = done bitmap_error
scan_from (suc left) b i cnt v =
    let rest = scan_from left b (i + 1) cnt v in
    contains b i cnt (not v) >>= λ c. if c then rest else done i

unfoldable pub scan : Bitmap → ℕ → ℕ → Bool → Run ℕ
unfolding scan_from
scan b start cnt v = assert (leb start b.bit_cnt) (
    if leb cnt b.bit_cnt
    then scan_from (b.bit_cnt - cnt + 1 - start) b start cnt v
    else done bitmap_error)

unfoldable pub scan_and_flip : Bitmap → ℕ → ℕ → Bool → Run (ℕ × Bitmap)
scan_and_flip b start cnt v = scan b start cnt v >>= λ i.
    if i == bitmap_error then done (i, b) else (set_multiple b i cnt (not v) >>= λ b'. done (i, b'))
