-- ===== src/Pintos/Word.antt =====
-- The bits of machine words: `&`, `|`, `^` and `~` with a mask of one bit, as bitmap.c of
-- group1/pintos/src/lib/kernel uses them.
use Prim.Native.Nat.{
  min, max, differ, digits, bit_and, bit_or, bit_xor, bit_and-bitwise, bit_or-bitwise,
  bit_xor-bitwise,
}
use native.Mathlib.Nat.{pow-suc, pow-le-pow_right, mul_assoc, zero-mul, one-mul, one-le-pow}
use sum.Prelude.{
  not, Bool-cases, inl, inr, ℕ, zero, suc, ◌+◌, ◌-◌, ◌*◌, ◌/◌, ◌%◌, ◌^◌, ◌≤◌, ◌<◌, ◌≡◌, refl, ap,
  subst, ◌∙◌, sym, arith, ◌==◌, if◌then◌else◌,
}

-- The bit number k of a word, 0 or 1.
unfoldable pub bit : ℕ → ℕ → ℕ
bit zero w = w % 2
bit (suc k) w = bit k (w / 2)

-- The result of a digitwise operation does not depend on spare rounds.
digits_enough :
    (z : ℕ → ℕ) (f : ℕ → ℕ → ℕ) (n m a b : ℕ) → a ≤ n → a ≤ m → digits z f n a b ≡ digits z f m a b
digits_enough z f zero zero a b p q = refl
digits_enough z f zero (suc m) zero b p q = refl
digits_enough z f zero (suc m) (suc a) b p q = absurd (omega arith)
digits_enough z f (suc n) zero zero b p q = refl
digits_enough z f (suc n) zero (suc a) b p q = absurd (omega arith)
digits_enough z f (suc n) (suc m) zero b p q = refl
digits_enough z f (suc n) (suc m) (suc a) b p q =
    ap (λ x. x * 2 + f (suc a % 2) (b % 2))
      (digits_enough z f n m (suc a / 2) (b / 2) (omega arith) (omega arith))

-- The lowest digit of each operation, and the rest.
and_low : (a b : ℕ) → bit_and a b ≡ bit_and (a / 2) (b / 2) * 2 + min (a % 2) (b % 2)
and_low zero b = omega (arith, bit_and-bitwise 0 b, bit_and-bitwise 0 (b / 2))
and_low (suc a) b = omega (
  arith,
  bit_and-bitwise (suc a) b,
  bit_and-bitwise (suc a / 2) (b / 2),
  digits_enough (λ x. 0) min a (suc a / 2) (suc a / 2) (b / 2) (omega arith) (omega arith),
)

or_low : (a b : ℕ) → bit_or a b ≡ bit_or (a / 2) (b / 2) * 2 + max (a % 2) (b % 2)
or_low zero b = omega (arith, bit_or-bitwise 0 b, bit_or-bitwise 0 (b / 2))
or_low (suc a) b = omega (
  arith,
  bit_or-bitwise (suc a) b,
  bit_or-bitwise (suc a / 2) (b / 2),
  digits_enough (λ x. x) max a (suc a / 2) (suc a / 2) (b / 2) (omega arith) (omega arith),
)

xor_low : (a b : ℕ) → bit_xor a b ≡ bit_xor (a / 2) (b / 2) * 2 + differ (a % 2) (b % 2)
xor_low zero b = omega (arith, bit_xor-bitwise 0 b, bit_xor-bitwise 0 (b / 2))
xor_low (suc a) b = omega (
  arith,
  bit_xor-bitwise (suc a) b,
  bit_xor-bitwise (suc a / 2) (b / 2),
  digits_enough (λ x. x) differ a (suc a / 2) (suc a / 2) (b / 2) (omega arith) (omega arith),
)

pub bit-lt : (k w : ℕ) → bit k w < 2
unfolding bit
bit-lt zero w = omega arith
bit-lt (suc k) w = bit-lt k (w / 2)

pub bit-zero : (k : ℕ) → bit k 0 ≡ 0
unfolding bit
bit-zero zero = refl
bit-zero (suc k) = bit-zero k

differ-lt : (x y : ℕ) → x < 2 → y < 2 → (differ x y < 2) × (differ x y ≡ (if x == y then 0 else 1))
differ-lt zero zero p q = (omega arith, refl)
differ-lt zero (suc zero) p q = (omega arith, refl)
differ-lt zero (suc (suc y)) p q = absurd (omega arith)
differ-lt (suc zero) zero p q = (omega arith, refl)
differ-lt (suc zero) (suc zero) p q = (omega arith, refl)
differ-lt (suc zero) (suc (suc y)) p q = absurd (omega arith)
differ-lt (suc (suc x)) y p q = absurd (omega arith)

pub bit-or : (k a b : ℕ) → bit k (bit_or a b) ≡ max (bit k a) (bit k b)
unfolding bit
bit-or zero a b = omega (arith, or_low a b)
bit-or (suc k) a b =
    let half : bit_or a b / 2 ≡ bit_or (a / 2) (b / 2) = omega (arith, or_low a b) in
    ap (bit k) half ∙ bit-or k (a / 2) (b / 2)

pub bit-and : (k a b : ℕ) → bit k (bit_and a b) ≡ min (bit k a) (bit k b)
unfolding bit
bit-and zero a b = omega (arith, and_low a b)
bit-and (suc k) a b =
    let half : bit_and a b / 2 ≡ bit_and (a / 2) (b / 2) = omega (arith, and_low a b) in
    ap (bit k) half ∙ bit-and k (a / 2) (b / 2)

pub bit-xor : (k a b : ℕ) → bit k (bit_xor a b) ≡ (if bit k a == bit k b then 0 else 1)
unfolding bit
bit-xor zero a b =
    let d = differ-lt (a % 2) (b % 2) (omega arith) (omega arith) in
    omega (arith, xor_low a b, d.0) ∙ d.1
bit-xor (suc k) a b =
    let d = differ-lt (a % 2) (b % 2) (omega arith) (omega arith) in
    let half : bit_xor a b / 2 ≡ bit_xor (a / 2) (b / 2) = omega (arith, xor_low a b, d.0) in
    ap (bit k) half ∙ bit-xor k (a / 2) (b / 2)

-- The mask of one bit.
pub bit-mask : (k i : ℕ) → bit k (2 ^ i) ≡ (if k == i then 1 else 0)
unfolding bit
bit-mask zero zero = refl
bit-mask zero (suc i) =
    let even : 2 ^ suc i % 2 ≡ 0 = omega (arith, pow-suc 2 i) in even ∙ ground arith
bit-mask (suc k) zero = bit-zero k ∙ ground arith
bit-mask (suc k) (suc i) =
    let half : 2 ^ suc i / 2 ≡ 2 ^ i = omega (arith, pow-suc 2 i) in
    let rest : bit k (2 ^ suc i / 2) ≡ (if k == i then 1 else 0) = ap (bit k) half ∙ bit-mask k i in
    rest ∙ ground arith

-- The complement in a word of n bits.
pub bit-complement : (n k w : ℕ) → w < 2 ^ n → k < n → bit k (2 ^ n - 1 - w) ≡ 1 - bit k w
unfolding bit
bit-complement zero k w h lt = absurd (omega arith)
bit-complement (suc n) zero w h lt = omega (arith, pow-suc 2 n)
bit-complement (suc n) (suc k) w h lt =
    let half : (2 ^ suc n - 1 - w) / 2 ≡ 2 ^ n - 1 - w / 2 = omega (arith, pow-suc 2 n) in
    ap (bit k) half ∙ bit-complement n k (w / 2) (omega (arith, pow-suc 2 n)) (omega arith)

digits-zero : (n a : ℕ) → digits (λ x. 0) min n a 0 ≡ 0
digits-zero zero a = refl
digits-zero (suc n) zero = refl
digits-zero (suc n) (suc a) = omega (arith, digits-zero n (suc a / 2))

-- A word under the mask of one bit is that bit, in its place.
pub and-mask : (w i : ℕ) → bit_and w (2 ^ i) ≡ bit i w * 2 ^ i
unfolding bit
and-mask w zero = omega (arith, and_low w 1, bit_and-bitwise (w / 2) 0, digits-zero (w / 2) (w / 2))
and-mask w (suc i) =
    let low : bit_and w (2 ^ suc i) ≡ bit_and (w / 2) (2 ^ suc i / 2) * 2 =
      omega (arith, and_low w (2 ^ suc i), pow-suc 2 i) in
    let half : 2 ^ suc i / 2 ≡ 2 ^ i = omega (arith, pow-suc 2 i) in
    let rest : bit_and (w / 2) (2 ^ suc i / 2) ≡ bit i (w / 2) * 2 ^ i =
      ap (bit_and (w / 2)) half ∙ and-mask (w / 2) i in
    low
    ∙ ap (λ x. x * 2) rest
    ∙ mul_assoc (bit i (w / 2)) (2 ^ i) 2
    ∙ ap (λ x. bit i (w / 2) * x) (sym (pow-suc 2 i))

-- What the three changes of one bit do to the bits of a word of 32.
pub mark-bit : (w i k : ℕ) → bit k (bit_or w (2 ^ i)) ≡ (if k == i then 1 else bit k w)
mark-bit w i k = ground (arith, bit-or k w (2 ^ i), bit-mask k i, bit-lt k w)

pub mask-lt : (i : ℕ) → i < 32 → 2 ^ i < 2 ^ 32
mask-lt i h =
    let below : 2 ^ i ≤ 2 ^ 31 =
      pow-le-pow_right {n = 2} (omega arith) {i = i} {j = 31} (omega arith) in
    omega arith

pub reset-bit :
    (w i k : ℕ)
    → i < 32
    → k < 32
    → bit k (bit_and w (2 ^ 32 - 1 - 2 ^ i)) ≡ (if k == i then 0 else bit k w)
reset-bit w i k hi hk = ground (
  arith,
  bit-and k w (2 ^ 32 - 1 - 2 ^ i),
  bit-complement 32 k (2 ^ i) (mask-lt i hi) hk,
  bit-mask k i,
  bit-lt k w,
)

pub flip-bit : (w i k : ℕ) → bit k (bit_xor w (2 ^ i)) ≡ (if k == i then 1 - bit k w else bit k w)
flip-bit w i k = ground (arith, bit-xor k w (2 ^ i), bit-mask k i, bit-lt k w)

pub test-bit : (w k : ℕ) → not (bit_and w (2 ^ k) == 0) ≡ (bit k w == 1)
test-bit w k = elim (Bool-cases (bit k w == 0)) [
  | inl clear ↦
      let z : bit k w ≡ 0 = ground arith in
      let gone : bit_and w (2 ^ k) ≡ 0 = and-mask w k ∙ ap (λ x. x * 2 ^ k) z ∙ zero-mul (2 ^ k) in
      ground (arith, gone, z)
  | inr marked ↦
      let o : bit k w ≡ 1 = ground (arith, bit-lt k w) in
      let there : bit_and w (2 ^ k) ≡ 2 ^ k =
        and-mask w k ∙ ap (λ x. x * 2 ^ k) o ∙ one-mul (2 ^ k) in
      let some_mask : 1 ≤ 2 ^ k = one-le-pow k 2 (omega arith) in
      ground (arith, there, o, some_mask)
]

-- The operations stay within n bits.
pub or-lt : (n a b : ℕ) → a < 2 ^ n → b < 2 ^ n → bit_or a b < 2 ^ n
or-lt zero a b p q =
    let none_a : 0 ≡ a = omega arith in
    let none_b : 0 ≡ b = omega arith in
    subst (λ x. bit_or x b < 1) none_a (subst (λ y. bit_or 0 y < 1) none_b (omega arith))
or-lt (suc n) a b p q = omega (
  arith,
  pow-suc 2 n,
  or_low a b,
  or-lt n (a / 2) (b / 2) (omega (arith, pow-suc 2 n)) (omega (arith, pow-suc 2 n)),
)

pub xor-lt : (n a b : ℕ) → a < 2 ^ n → b < 2 ^ n → bit_xor a b < 2 ^ n
xor-lt zero a b p q =
    let none_a : 0 ≡ a = omega arith in
    let none_b : 0 ≡ b = omega arith in
    subst (λ x. bit_xor x b < 1) none_a (subst (λ y. bit_xor 0 y < 1) none_b (omega arith))
xor-lt (suc n) a b p q = omega (
  arith,
  pow-suc 2 n,
  xor_low a b,
  (differ-lt (a % 2) (b % 2) (omega arith) (omega arith)).0,
  xor-lt n (a / 2) (b / 2) (omega (arith, pow-suc 2 n)) (omega (arith, pow-suc 2 n)),
)

pub and-lt : (n a b : ℕ) → a < 2 ^ n → bit_and a b < 2 ^ n
and-lt zero a b p =
    let none_a : 0 ≡ a = omega arith in
    subst (λ x. bit_and x b < 1) none_a (omega (arith, bit_and-bitwise 0 b))
and-lt (suc n) a b p =
    omega (arith, pow-suc 2 n, and_low a b, and-lt n (a / 2) (b / 2) (omega (arith, pow-suc 2 n)))
