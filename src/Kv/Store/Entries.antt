-- ===== src/Kv/Store/Entries.antt =====
-- Lists of entries as maps: what a write at the place of a key, and the swap of the last entry into
-- a deleted place, do to the values that are found.
use sum.Prelude.{
  ℕ, zero, suc, ◌+◌, ◌≤◌, ◌≡◌, refl, false, Option, none, some, List, [], ◌∷◌, ◌==◌, if◌then◌else◌,
  length, get_elem?, arith, ◌∙◌, sym, inl, inr, Option-cases, Bool-cases,
}
use sum.Kv.Text.{Text, str_eq, str_eq_iff, str_eq_refl}
use sum.Kv.Disk.{KvEntry}
use sum.Kv.Store.{entry_key, entry_value}
use sum.Kv.Store.Chain.{index_of, value_in, FoundIn}

-- No key stands at two places.
pub record IsDistinct (es : List KvEntry) : Type 0 where
  pub same :
      (i j : ℕ) (e f : KvEntry)
      → get_elem? es i ≡ some e
      → get_elem? es j ≡ some f
      → entry_key e ≡ entry_key f
      → i ≡ j

IsDistinct-tail : (e : KvEntry) (es : List KvEntry) → IsDistinct (e ∷ es) → IsDistinct es
IsDistinct-tail e es d = record {
  same = λ i j a b p q r. omega (arith, d.same (suc i) (suc j) a b p q r);
}

FoundIn-step :
    (k : Text) (e : KvEntry) (es : List KvEntry) (o : Option ℕ)
    → str_eq k (entry_key e) ≡ false
    → FoundIn k es o
    → FoundIn k (e ∷ es) (elim o [ none ↦ none | some i ↦ some (suc i) ])
unfolding value_in
FoundIn-step k e es none other h = rw other h
FoundIn-step k e es (some i) other (lt, f, at, key, value) =
    (omega arith, f, at, key, rw other value)

-- The place that `index_of` gives holds the key, with the value that is found.
pub index_of-FoundIn : (k : Text) (es : List KvEntry) → FoundIn k es (index_of k es)
unfolding index_of value_in
index_of-FoundIn k [] = refl
index_of-FoundIn k (e ∷ es) = elim (Bool-cases (str_eq k (entry_key e))) [
  | inl same ↦
      rw (same, index_of)
        (omega arith, e, refl, sym ((str_eq_iff k (entry_key e)).0 same), rw same refl)
  | inr other ↦
      rw (other, index_of) (FoundIn-step k e es (index_of k es) other (index_of-FoundIn k es))
]

pub value_in-at :
    (es : List KvEntry) (i : ℕ) (e : KvEntry)
    → IsDistinct es
    → get_elem? es i ≡ some e
    → value_in (entry_key e) es ≡ some (entry_value e)
unfolding value_in
value_in-at [] i e d h = cc
value_in-at (x ∷ es) zero e d h = ground (arith, str_eq_refl (entry_key e))
value_in-at (x ∷ es) (suc i) e d h = ground (
  arith,
  str_eq_iff (entry_key e) (entry_key x),
  d.same (suc i) 0 e x h refl,
  value_in-at es i e (IsDistinct-tail x es d) h,
)

pub value_in-some :
    (k : Text) (es : List KvEntry) (v : Text)
    → value_in k es ≡ some v
    → (i : ℕ) × (e : KvEntry) × (get_elem? es i ≡ some e) × (entry_key e ≡ k) × (entry_value e ≡ v)
unfolding value_in
value_in-some k [] v h = cc
value_in-some k (x ∷ es) v h = elim (Bool-cases (str_eq k (entry_key x))) [
  | inl same ↦ (0, x, refl, sym ((str_eq_iff k (entry_key x)).0 same), ground arith)
  | inr other ↦
      let (i, e, at, key, value) = value_in-some k es v (ground arith) in (suc i, e, at, key, value)
]

-- Two lists without double keys find the same value for a key if an entry with that key stands in
-- the one whenever it stands in the other.
pub value_in-agree :
    (k : Text) (es fs : List KvEntry)
    → IsDistinct es
    → IsDistinct fs
    → ((i : ℕ) (e : KvEntry)
        → get_elem? es i ≡ some e
        → entry_key e ≡ k
        → (j : ℕ) × (get_elem? fs j ≡ some e))
    → ((i : ℕ) (e : KvEntry)
        → get_elem? fs i ≡ some e
        → entry_key e ≡ k
        → (j : ℕ) × (get_elem? es j ≡ some e))
    → value_in k es ≡ value_in k fs
value_in-agree k es fs d f to back = elim (Option-cases (value_in k es)) [
  | inr (v, hit) ↦
      let (i, e, at, key, value) = value_in-some k es v hit in
      let (j, there) = to i e at key in ground (arith, value_in-at fs j e f there)
  | inl miss ↦ elim (Option-cases (value_in k fs)) [
    | inl none' ↦ miss ∙ sym none'
    | inr (v, hit) ↦
        let (i, e, at, key, value) = value_in-some k fs v hit in
        let (j, there) = back i e at key in absurd (ground (arith, value_in-at es j e d there))
  ]
]

-- kvstore_put on a list: the entry of the key is written over, or one is appended.
unfoldable pub put_in : KvEntry → Text → List KvEntry → List KvEntry
put_in n k [] = n ∷ []
put_in n k (e ∷ es) = if str_eq k (entry_key e) then n ∷ es else e ∷ put_in n k es

-- The place that is written.
unfoldable pub place_of : Text → List KvEntry → ℕ
place_of k es = elim (index_of k es) [ none ↦ length es | some i ↦ i ]

pub get_elem?-put_in :
    (n : KvEntry) (k : Text) (es : List KvEntry) (j : ℕ)
    → get_elem? (put_in n k es) j ≡ (if place_of k es == j then some n else get_elem? es j)
unfolding put_in place_of index_of
get_elem?-put_in n k [] zero = refl
get_elem?-put_in n k [] (suc j) = ground arith
get_elem?-put_in n k (e ∷ es) zero = ground arith
get_elem?-put_in n k (e ∷ es) (suc j) = ground (arith, get_elem?-put_in n k es j)

pub length-put_in-le :
    (n : KvEntry) (k : Text) (es : List KvEntry) → length (put_in n k es) ≤ length es + 1
unfolding put_in
length-put_in-le n k [] = omega arith
length-put_in-le n k (e ∷ es) = ground (arith, length-put_in-le n k es)

pub value_in-put_in :
    (n : KvEntry) (k j : Text) (es : List KvEntry)
    → entry_key n ≡ k
    → value_in j (put_in n k es) ≡ (if str_eq k j then some (entry_value n) else value_in j es)
unfolding put_in value_in
value_in-put_in n k j [] h = ground (arith, str_eq_iff k j, str_eq_iff j (entry_key n))
value_in-put_in n k j (e ∷ es) h = ground (
  arith,
  value_in-put_in n k j es h,
  str_eq_iff k j,
  str_eq_iff j (entry_key n),
  str_eq_iff j (entry_key e),
  str_eq_iff k (entry_key e),
)

-- The written place is the place of the key, or lies behind the list.
place_of-key :
    (k : Text) (es : List KvEntry) (i : ℕ) (e : KvEntry)
    → IsDistinct es
    → get_elem? es i ≡ some e
    → entry_key e ≡ k
    → i ≡ place_of k es
unfolding place_of
place_of-key k es i e d h p = elim (Option-cases (index_of k es)) [
  | inl miss ↦
      let f : FoundIn k es none = rw miss at (index_of-FoundIn k es) in
      absurd (ground (arith, f, value_in-at es i e d h))
  | inr (m, hit) ↦
      let f : FoundIn k es (some m) = rw hit at (index_of-FoundIn k es) in
      ground (arith, hit, d.same i m e f.1 h f.2 (p ∙ sym f.3))
]

pub IsDistinct-put_in :
    (n : KvEntry) (k : Text) (es : List KvEntry)
    → entry_key n ≡ k
    → IsDistinct es
    → IsDistinct (put_in n k es)
IsDistinct-put_in n k es h d = record {
  same = λ i j e f p q r. ground (
    arith,
    get_elem?-put_in n k es i,
    get_elem?-put_in n k es j,
    d.same i j e f,
    place_of-key k es i e d,
    place_of-key k es j f d,
  );
}
