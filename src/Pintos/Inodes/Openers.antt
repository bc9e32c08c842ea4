-- ===== src/Pintos/Inodes/Openers.antt =====
-- The list open_inodes of filesys/inode.c: when it is well formed, and changes of one inode in it.
use sum.Prelude.{
  ℕ, ◌≤◌, ◌<◌, ◌≡◌, false, none, some, List, [], ◌∷◌, ◌==◌, arith, ap, sym, subst, Bool-cases, inl,
  inr,
}
use sum.Pintos.Content.{Inode}
use sum.Pintos.FreeMap.{find}
use sum.Pintos.Inodes.{change, without}

abbrev pub IsOpen : Inode → Type 0
IsOpen n = (0 < n.open_cnt) × (n.deny_write_cnt ≤ n.open_cnt)

abbrev pub IsList : List Inode → Type 0
IsList [] = Unit
IsList (n ∷ ns) = IsOpen n × (find ns n.sector ≡ none) × IsList ns

pub find-sector : (ns : List Inode) (s : ℕ) (n : Inode) → find ns s ≡ some n → n.sector ≡ s
find-sector [] s n e = absurd (ground (arith, e))
find-sector (m ∷ ns) s n e = elim (Bool-cases (m.sector == s)) [
  | inl hit ↦
      let same : m ≡ n = ap (λ o. elim o [ none ↦ m | some x ↦ x ]) (rw hit at e) in
      ground (arith, ap (λ x. x.sector) (sym same), hit)
  | inr miss ↦ find-sector ns s n (rw miss at e)
]

pub found-IsOpen : (ns : List Inode) (s : ℕ) (n : Inode) → IsList ns → find ns s ≡ some n → IsOpen n
found-IsOpen [] s n h e = absurd (ground (arith, e))
found-IsOpen (m ∷ ns) s n (open', once, h) e = elim (Bool-cases (m.sector == s)) [
  | inl hit ↦ subst IsOpen (ap (λ o. elim o [ none ↦ m | some x ↦ x ]) (rw hit at e)) open'
  | inr miss ↦ found-IsOpen ns s n h (rw miss at e)
]

-- An inode that is not in the list is not in it after a change, or after another one is taken out.
change-none :
    (ns : List Inode) (s t : ℕ) (n : Inode)
    → n.sector ≡ s
    → find ns t ≡ none
    → find (change (λ old. n) ns s) t ≡ none
change-none [] s t n here e = e
change-none (m ∷ ns) s t n here e = elim (Bool-cases (m.sector == t)) [
  | inl hit ↦ absurd (ground (arith, rw hit at e))
  | inr miss ↦ elim (Bool-cases (m.sector == s)) [
    | inl this ↦
        let other : (n.sector == t) ≡ false = ground (arith, miss, this, here) in
        rw this (rw other (rw miss at e))
    | inr that ↦ rw that (rw miss (change-none ns s t n here (rw miss at e)))
  ]
]

without-none : (ns : List Inode) (s t : ℕ) → find ns t ≡ none → find (without ns s) t ≡ none
without-none [] s t e = e
without-none (m ∷ ns) s t e = elim (Bool-cases (m.sector == t)) [
  | inl hit ↦ absurd (ground (arith, rw hit at e))
  | inr miss ↦ elim (Bool-cases (m.sector == s)) [
    | inl this ↦ rw this (rw miss at e)
    | inr that ↦ rw that (rw miss (without-none ns s t (rw miss at e)))
  ]
]

pub change-IsList :
    (ns : List Inode) (s : ℕ) (n : Inode)
    → n.sector ≡ s
    → IsOpen n
    → IsList ns
    → IsList (change (λ old. n) ns s)
change-IsList [] s n here open' h = h
change-IsList (m ∷ ns) s n here open' (first, once, h) = elim (Bool-cases (m.sector == s)) [
  | inl this ↦
      let same : m.sector ≡ n.sector = ground (arith, this, here) in
      rw this (open', subst (λ x. find ns x ≡ none) same once, h)
  | inr that ↦
      rw that (first, change-none ns s m.sector n here once, change-IsList ns s n here open' h)
]

pub without-IsList : (ns : List Inode) (s : ℕ) → IsList ns → IsList (without ns s)
without-IsList [] s h = h
without-IsList (m ∷ ns) s (first, once, h) = elim (Bool-cases (m.sector == s)) [
  | inl this ↦ rw this h
  | inr that ↦ rw that (first, without-none ns s m.sector once, without-IsList ns s h)
]
