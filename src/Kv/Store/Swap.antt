-- ===== src/Kv/Store/Swap.antt =====
-- kvstore_del on a list: the last entry is moved into the deleted place.
use sum.Prelude.{
  ℕ, ◌+◌, ◌-◌, ◌<◌, ◌≡◌, Option, none, some, List, [], ltb, ◌==◌, if◌then◌else◌, length, get_elem?,
  take, set, length-take, get_elem?-take, get_elem?-set, length-set, arith, get_elem?-some,
  get_elem?-lt, ◌≢◌, inl, inr, Option-cases, Bool-cases,
}
use sum.Kv.Text.{Text, str_eq, str_eq_iff}
use sum.Kv.Disk.{KvEntry}
use sum.Kv.Store.{entry_key}
use sum.Kv.Store.Chain.{value_in}
use sum.Kv.Store.Entries.{IsDistinct, value_in-agree, value_in-some}

abbrev swapped : ℕ → List KvEntry → Option KvEntry → List KvEntry
swapped i es none = []
swapped i es (some e) = take (length es - 1) (set es i e)

-- The list without the entry at place `i`, the last entry in its place.
unfoldable pub swap_remove : ℕ → List KvEntry → List KvEntry
swap_remove i es = swapped i es (get_elem? es (length es - 1))

-- Where the entry at place `j` of the result stood before.
abbrev source : ℕ → List KvEntry → ℕ → ℕ
source i es j = if i == j then length es - 1 else j

pub get_elem?-swap_remove :
    (i : ℕ) (es : List KvEntry) (j : ℕ)
    → i < length es
    → get_elem? (swap_remove i es) j
      ≡ (if ltb j (length es - 1) then get_elem? es (if i == j then length es - 1 else j) else none)
unfolding swap_remove
get_elem?-swap_remove i es j h =
    let (e, last) = get_elem?-some es (length es - 1) (omega arith) in
    rw (last, swapped)
      (ground
        (arith, last, get_elem?-take (length es - 1) (set es i e) j, get_elem?-set es i j e h))

pub length-swap_remove :
    (i : ℕ) (es : List KvEntry) → i < length es → length (swap_remove i es) + 1 ≡ length es
unfolding swap_remove
length-swap_remove i es h =
    let (e, last) = get_elem?-some es (length es - 1) (omega arith) in
    rw (last, swapped) (omega (arith, length-take (length es - 1) (set es i e), length-set es i e))

pub IsDistinct-swap_remove :
    (i : ℕ) (es : List KvEntry) → i < length es → IsDistinct es → IsDistinct (swap_remove i es)
IsDistinct-swap_remove i es h d = record {
  same = λ j k e f p q r. ground (
    arith,
    get_elem?-swap_remove i es j h,
    get_elem?-swap_remove i es k h,
    d.same (source i es j) (source i es k) e f,
  );
}

-- Where the entry at place `j` stands in the result.
abbrev target : ℕ → List KvEntry → ℕ → ℕ
target i es j = if j == length es - 1 then i else j

deleted :
    (i : ℕ) (es : List KvEntry) (e : KvEntry) (v : Text)
    → i < length es
    → IsDistinct es
    → get_elem? es i ≡ some e
    → value_in (entry_key e) (swap_remove i es) ≢ some v
deleted i es e v lt d at h =
    let (j, f, there, key, value) = value_in-some (entry_key e) (swap_remove i es) v h in
    ground (arith, get_elem?-swap_remove i es j lt, d.same (source i es j) i f e)

kept_from :
    (i : ℕ) (es : List KvEntry) (j : ℕ) (f : KvEntry)
    → i < length es
    → get_elem? (swap_remove i es) j ≡ some f
    → get_elem? es (source i es j) ≡ some f
kept_from i es j f lt h = ground (arith, get_elem?-swap_remove i es j lt)

kept_to :
    (i : ℕ) (es : List KvEntry) (j : ℕ) (f : KvEntry)
    → i < length es
    → get_elem? es j ≡ some f
    → i ≢ j
    → get_elem? (swap_remove i es) (target i es j) ≡ some f
kept_to i es j f lt h ne =
    ground (arith, get_elem?-swap_remove i es (target i es j) lt, get_elem?-lt es j f h)

-- The deleted key is gone, and every other key keeps its value.
pub value_in-swap_remove :
    (i : ℕ) (es : List KvEntry) (e : KvEntry) (k : Text)
    → IsDistinct es
    → get_elem? es i ≡ some e
    → value_in k (swap_remove i es) ≡ (if str_eq (entry_key e) k then none else value_in k es)
value_in-swap_remove i es e k d at =
    let lt = get_elem?-lt es i e at in
    elim (Bool-cases (str_eq (entry_key e) k)) [
      | inl same ↦ elim (Option-cases (value_in (entry_key e) (swap_remove i es))) [
        | inl gone ↦ rw same (rw (← (str_eq_iff (entry_key e) k).0 same) gone)
        | inr (v, hit) ↦ absurd (deleted i es e v lt d at hit)
      ]
      | inr other ↦ rw other (
          value_in-agree k (swap_remove i es) es (IsDistinct-swap_remove i es lt d) d
            (λ j f h key. (source i es j, kept_from i es j f lt h))
            (λ j f h key. (
              target i es j,
              kept_to i es j f lt h (λ p. ground (arith, at, h, str_eq_iff (entry_key e) k)),
            )))
    ]
