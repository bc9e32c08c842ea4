-- ===== src/Pintos/Bitmap/Scan.antt =====
-- bitmap_scan and bitmap_scan_and_flip: the first group of bits with a value.
use sum.Prelude.{
  ℕ, zero, suc, ◌+◌, ◌-◌, ◌≤◌, ◌<◌, ◌≡◌, refl, Bool, true, false, not, leb, ◌==◌, if◌then◌else◌,
  done, arith, subst, ◌∙◌, Bool-cases, inl, inr, ◌⊎◌,
}
use sum.Pintos.Bitmap.{Bitmap, bitmap_error, scan_from, scan, scan_and_flip}
use sum.Pintos.Bitmap.Bits.{IsBitmap, at}
use sum.Pintos.Bitmap.Multiple.{within, contains_lem, set_multiple-Filled}

-- All `cnt` bits from `i` on have the value; and some of them has the other one.
abbrev pub IsGroup : Bitmap → ℕ → ℕ → Bool → Type 0
IsGroup b i cnt v = (j : ℕ) → i ≤ j → j < i + cnt → at b j ≡ v

abbrev pub IsBroken : Bitmap → ℕ → ℕ → Bool → Type 0
IsBroken b i cnt v = (j : ℕ) × (i ≤ j) × (j < i + cnt) × (at b j ≡ not v)

-- The first group at or after `start`, or none.
abbrev pub Scanned : Bitmap → ℕ → ℕ → Bool → ℕ → Type 0
Scanned b start cnt v r =
    ((start ≤ r)
      × (r + cnt ≤ b.bit_cnt)
      × IsGroup b r cnt v
      × ((i : ℕ) → start ≤ i → i < r → IsBroken b i cnt v))
    ⊎ ((r ≡ bitmap_error) × ((i : ℕ) → start ≤ i → i + cnt ≤ b.bit_cnt → IsBroken b i cnt v))

not-not : (v : Bool) → not (not v) ≡ v
not-not true = refl
not-not false = refl

Scanned-later :
    (b : Bitmap) (i cnt : ℕ) (v : Bool) (r : ℕ)
    → IsBroken b i cnt v
    → Scanned b (i + 1) cnt v r
    → Scanned b i cnt v r
Scanned-later b i cnt v r broken (inl (lo, fits, group, before)) = inl (
  omega arith,
  fits,
  group,
  λ k low high. elim (Bool-cases (i == k)) [
    | inl same ↦ subst (λ x. IsBroken b x cnt v) (ground arith) broken
    | inr other ↦ before k (ground arith) high
  ],
)
Scanned-later b i cnt v r broken (inr (e, nothing)) = inr (
  e,
  λ k low fits. elim (Bool-cases (i == k)) [
    | inl same ↦ subst (λ x. IsBroken b x cnt v) (ground arith) broken
    | inr other ↦ nothing k (ground arith) fits
  ],
)

scan_from_lem :
    (left : ℕ) (b : Bitmap) (i cnt : ℕ) (v : Bool)
    → IsBitmap b
    → cnt ≤ b.bit_cnt
    → left ≡ b.bit_cnt - cnt + 1 - i
    → (r : ℕ) × (scan_from left b i cnt v ≡ done r) × Scanned b i cnt v r
unfolding scan_from
scan_from_lem zero b i cnt v h le e =
    (bitmap_error, refl, inr (refl, λ k low fits. absurd (omega arith)))
scan_from_lem (suc left) b i cnt v h le e =
    let (c, runs, meaning) = contains_lem b i cnt (not v) h (omega arith) in
    elim (Bool-cases c) [
      | inr free ↦ (
        i,
        ground (arith, runs, free),
        inl (
          omega arith,
          omega arith,
          (λ j lo hi. (rw free at meaning) j lo hi ∙ not-not v),
          λ k low high. absurd (omega arith),
        ),
      )
      | inl taken ↦
          let (r, rest, found) = scan_from_lem left b (i + 1) cnt v h le (omega arith) in
          (
            r,
            ground (arith, runs, taken, rest),
            Scanned-later b i cnt v r (rw taken at meaning) found,
          )
    ]

pub scan_lem :
    (b : Bitmap) (start cnt : ℕ) (v : Bool)
    → IsBitmap b
    → start ≤ b.bit_cnt
    → (r : ℕ) × (scan b start cnt v ≡ done r) × Scanned b start cnt v r
unfolding scan
scan_lem b start cnt v h le = elim (Bool-cases (leb cnt b.bit_cnt)) [
  | inl fits ↦
      let (r, runs, found) =
        scan_from_lem (b.bit_cnt - cnt + 1 - start) b start cnt v h (ground arith) refl in
      (r, ground (arith, runs), found)
  | inr long ↦ (bitmap_error, ground arith, inr (refl, λ i lo fits. absurd (ground arith)))
]

-- bitmap_scan_and_flip on a well-formed bitmap, from a start within it: it returns the first
-- group of that many bits with the value at or after the start, and flips these bits and no
-- other; or it returns BITMAP_ERROR, there is no such group, and no bit changes. For a group of
-- no bits it returns the start.
pub scan_and_flip_lem :
    (b : Bitmap) (start cnt : ℕ) (v : Bool)
    → IsBitmap b
    → start ≤ b.bit_cnt
    → (r : ℕ) × (b' : Bitmap) × (scan_and_flip b start cnt v ≡ done (r, b'))
      × Scanned b start cnt v r
      × IsBitmap b'
      × (b'.bit_cnt ≡ b.bit_cnt)
      × ((j : ℕ)
          → at b' j
            ≡ (if r == bitmap_error then at b j else if within r cnt j then not v else at b j))
unfolding scan_and_flip
scan_and_flip_lem b start cnt v h le =
    let (r, runs, found) = scan_lem b start cnt v h le in
    elim found [
      | inl (lo, fits, group, first) ↦
          let (b', made, valid, size, bits) = set_multiple-Filled b r cnt (not v) h fits in
          let real : (r == bitmap_error) ≡ false = ground (arith, h.small) in
          (
            r,
            b',
            ground (arith, runs, made, real),
            inl (lo, fits, group, first),
            valid,
            size,
            λ j. bits j ∙ ground (arith, real),
          )
      | inr (e, nothing) ↦
          (r, b, ground (arith, runs), inr (e, nothing), h, refl, λ j. ground arith)
    ]
