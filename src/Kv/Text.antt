-- ===== src/Kv/Text.antt =====
-- C strings of the key-value store (`char *`), and the two string hashes: `hash` of
-- group1/kvstore/src/server/kvstore.c and `hash_64_bit` of group1/kvstore/src/server/tpcmaster.c.
use sum.Prelude.{
  ℕ, suc, zero, ◌+◌, ◌-◌, ◌*◌, ◌%◌, ◌^◌, ◌<◌, ◌≡◌, ◌↔◌, refl, ap, Bool, true, false, ◌&&◌, List, [],
  ◌∷◌, ◌++◌, arith, ltb, ◌==◌, if◌then◌else◌, length, drop, All,
}

-- The bytes of a string before its terminating NUL.
abbrev pub Text : Type 0
Text = List ℕ

-- strcmp(a, b) == 0
unfoldable pub str_eq : Text → Text → Bool
str_eq [] [] = true
str_eq [] (c ∷ t) = false
str_eq (b ∷ s) [] = false
str_eq (b ∷ s) (c ∷ t) = b == c && str_eq s t

pub str_eq_iff : (s t : Text) → (str_eq s t ≡ true) ↔ (s ≡ t)
unfolding str_eq
str_eq_iff [] [] = ground arith
str_eq_iff [] (c ∷ t) = ground arith
str_eq_iff (b ∷ s) [] = ground arith
str_eq_iff (b ∷ s) (c ∷ t) = ground (arith, str_eq_iff s t)

pub str_eq_refl : (s : Text) → str_eq s s ≡ true
str_eq_refl s = (str_eq_iff s s).1 refl

-- The string that starts at a place of a byte buffer: the bytes up to the first NUL.
unfoldable pub c_str : List ℕ → Text
c_str [] = []
c_str (zero ∷ s) = []
c_str (suc c ∷ s) = suc c ∷ c_str s

-- No byte of a C string is NUL.
abbrev pub IsText : Text → Type 0
IsText = All (λ c. 0 < c)

pub c_str-terminated : (s : Text) (rest : List ℕ) → IsText s → c_str (s ++ 0 ∷ rest) ≡ s
unfolding c_str
c_str-terminated [] rest h = refl
c_str-terminated (zero ∷ s) rest h = absurd (omega arith)
c_str-terminated (suc c ∷ s) rest h = ap (◌∷◌ (suc c)) (c_str-terminated s rest h.1)

pub drop-terminated : (s rest : List ℕ) → drop (suc (length s)) (s ++ 0 ∷ rest) ≡ rest
drop-terminated [] rest = refl
drop-terminated (c ∷ s) rest = drop-terminated s rest

-- A `char` is signed: its value as a 64-bit word.
abbrev pub widen : ℕ → ℕ
widen c = if ltb c 128 then c else c + 2 ^ 64 - 256

hash_loop : ℕ → Text → ℕ
hash_loop h [] = h
hash_loop h (c ∷ s) = hash_loop ((h * 32 % 2 ^ 64 + h + widen c) % 2 ^ 64) s

-- `hash`: djb2 in an `unsigned long` of 64 bits.
unfoldable pub hash : Text → ℕ
unfolding hash_loop
hash s = hash_loop 5381 s

hash_64_loop : ℕ → Text → ℕ
hash_64_loop h [] = h
hash_64_loop h (c ∷ s) = hash_64_loop ((31 * h + widen c) % 2 ^ 64) s

-- `hash_64_bit`: the bit pattern of the `int64_t`, with the wrap-around of the machine.
unfoldable pub hash_64_bit : Text → ℕ
unfolding hash_64_loop
hash_64_bit s = hash_64_loop 1125899906842597 s

hash_64_loop-lt : (h : ℕ) (s : Text) → h < 2 ^ 64 → hash_64_loop h s < 2 ^ 64
unfolding hash_64_loop
hash_64_loop-lt h [] b = b
hash_64_loop-lt h (c ∷ s) b = hash_64_loop-lt ((31 * h + widen c) % 2 ^ 64) s (omega arith)

pub hash_64_bit-lt : (s : Text) → hash_64_bit s < 2 ^ 64
unfolding hash_64_bit
hash_64_bit-lt s = hash_64_loop-lt _ s (omega arith)
