-- ===== src/Kv/Cache/Sets.antt =====
-- When a cache is well formed, and its operations as reads and writes of a partial map that may
-- forget keys.
use sum.Prelude.{
  ℕ, ◌≤◌, ◌<◌, ◌≡◌, refl, true, false, Option, none, some, pos, ltb, ◌==◌, arith, inl, inr, ◌⊎◌,
  if◌then◌else◌, length, get_elem?, done, ap, get_elem?-set, get_elem?-some, length-set, Bool-cases,
  ◌∙◌, sym, subst,
}
use sum.Kv.Text.{Text, str_eq, str_eq_iff, str_eq_refl}
use sum.Kv.Codes.{err_keylen, max_keylen, max_vallen}
use sum.Kv.Memory.{Memory}
use sum.Kv.CacheSet
use sum.Kv.CacheSet.{CacheSet}
use sum.Kv.CacheSet.Valid.{
  IsValid, cached as set_cached, status, get_lem as set_get, get-IsValid, del_lem as set_del,
  del-IsValid,
}
use sum.Kv.CacheSet.Put.{put_lem as set_put, put-IsValid, is_key, evicted_by}
use sum.Kv.Cache.{Cache, set_index, get_cache_set, with_set, get, put, del}

-- Every set of the array is well formed, and of the size that the cache was made with.
pub record IsCache (u : Memory) (c : Cache u) : Type 0 where
  pub sized : length c.sets ≡ c.num_sets
  pub some_set : 0 < c.num_sets
  pub valid :
      (i : ℕ) (s : CacheSet u)
      → get_elem? c.sets i ≡ some s
      → IsValid u s × (s.elem_per_set ≡ c.elem_per_set)

abbrev cached_in : (u : Memory) → Option (CacheSet u) → Text → Option Text
cached_in u none j = none
cached_in u (some s) j = set_cached u s j

-- The value that the cache holds for a key.
pub cached : (u : Memory) → Cache u → Text → Option Text
cached u c j = cached_in u (get_elem? c.sets (set_index c.num_sets j)) j

module _ (u : Memory) where
  set_index-lt : (c : Cache u) (k : Text) → IsCache u c → set_index c.num_sets k < length c.sets
  unfolding set_index
  set_index-lt c k h = omega (arith, h.sized, h.some_set)

  set_of_key :
      (c : Cache u) (k : Text)
      → IsCache u c
      → (s : CacheSet u) × (get_elem? c.sets (set_index c.num_sets k) ≡ some s)
  set_of_key c k h = get_elem?-some c.sets (set_index c.num_sets k) (set_index-lt c k h)

  with_set-IsCache :
      (c : Cache u) (k : Text) (s : CacheSet u)
      → IsCache u c
      → IsValid u s
      → s.elem_per_set ≡ c.elem_per_set
      → IsCache u (with_set u c k s)
  with_set-IsCache c k s h v e = record {
    sized = length-set c.sets (set_index c.num_sets k) s ∙ h.sized;
    some_set = h.some_set;
    valid = λ i s' p.
        let written = get_elem?-set c.sets (set_index c.num_sets k) i s (set_index-lt c k h) in
        elim (Bool-cases (set_index c.num_sets k == i)) [
          | inl same ↦
              let here : s ≡ s' = ground (arith, written, p) in
              (subst (IsValid u) here v, sym (ap (λ (t : CacheSet u). t.elem_per_set) here) ∙ e)
          | inr other ↦ h.valid i s' (sym (rw other at written) ∙ p)
        ];
  }

  pub cached-hit :
      (c : Cache u) (k : Text) (s : CacheSet u)
      → get_elem? c.sets (set_index c.num_sets k) ≡ some s
      → cached u c k ≡ set_cached u s k
  unfolding cached
  cached-hit c k s found = rw found refl

  pub cached-miss :
      (c : Cache u) (k : Text)
      → get_elem? c.sets (set_index c.num_sets k) ≡ none
      → cached u c k ≡ none
  unfolding cached
  cached-miss c k miss = rw miss refl

  -- A write to one set shows at the keys of that set alone.
  cached-with_set :
      (c : Cache u) (k j : Text) (s : CacheSet u)
      → IsCache u c
      → cached u (with_set u c k s) j ≡ (
          if set_index c.num_sets k == set_index c.num_sets j
          then set_cached u s j
          else cached u c j)
  unfolding cached
  cached-with_set c k j s h = ground (
    arith,
    get_elem?-set c.sets (set_index c.num_sets k) (set_index c.num_sets j) s (set_index-lt c k h),
  )

  -- Two keys that are equal have one set.
  cached-set :
      (c : Cache u) (k j : Text) (s : CacheSet u)
      → get_elem? c.sets (set_index c.num_sets k) ≡ some s
      → (set_index c.num_sets k == set_index c.num_sets j) ≡ true
      → cached u c j ≡ set_cached u s j
  unfolding cached
  cached-set c k j s found same = ground (arith, found)

  forget_one :
      (c : Cache u) (k j : Text) (s s' : CacheSet u)
      → IsCache u c
      → get_elem? c.sets (set_index c.num_sets k) ≡ some s
      → (v : Option Text) → set_cached u s' j ≡ (if is_key v j then none else set_cached u s j)
      → (cached u (with_set u c k s') j ≡ none) ⊎ (cached u (with_set u c k s') j ≡ cached u c j)
  forget_one c k j s s' h found v e =
      ground (arith, e, cached-with_set c k j s' h, cached-set c k j s found)

  -- A get at a well-formed cache returns what the cache holds for the key, or the error of a
  -- missing key or of a key that is too long; the cache stays well formed with the same values.
  pub cache_get_lem :
      (c : Cache u) (k : Text)
      → IsCache u c
      → (c' : Cache u) × (get u c k
          ≡ done (
              if ltb max_keylen (length k)
              then (err_keylen, none, c')
              else (status (cached u c k), cached u c k, c')))
        × IsCache u c'
        × ((j : Text) → cached u c' j ≡ cached u c j)
  unfolding get get_cache_set
  cache_get_lem c k h = elim (Bool-cases (ltb max_keylen (length k))) [
    | inl long ↦ (c, rw long refl, h, λ j. refl)
    | inr fits ↦
        let (s, found) = set_of_key c k h in
        let (valid, size) = h.valid (set_index c.num_sets k) s found in
        let (r, value, keep, mark) = set_get u s k in
        let s' = (CacheSet.get u s k).2 in
        (
          with_set u c k s',
          ground (arith, found, r, value, cached-set c k k s found (ground arith)),
          with_set-IsCache c k s' h (get-IsValid u s k valid).0
              ((get-IsValid u s k valid).1 ∙ size),
          λ j. ground (arith, cached-with_set c k j s' h, cached-set c k j s found, keep j),
        )
  ]

  -- A put within the limits at a well-formed cache returns 0 and leaves a well-formed cache with
  -- the value for the key; every other key keeps its value or is forgotten.
  pub cache_put_lem :
      (c : Cache u) (k v : Text)
      → IsCache u c
      → length k ≤ max_keylen
      → length v ≤ max_vallen
      → (c' : Cache u) × (put u c k v ≡ done (pos 0, c'))
        × IsCache u c'
        × (cached u c' k ≡ some v)
        × ((j : Text)
            → str_eq k j ≡ false
            → (cached u c' j ≡ none) ⊎ (cached u c' j ≡ cached u c j))
  unfolding put get_cache_set
  cache_put_lem c k v h fits small =
      let (s, found) = set_of_key c k h in
      let (valid, size) = h.valid (set_index c.num_sets k) s found in
      let s' = (CacheSet.put u s k v).1 in
      (
        with_set u c k s',
        ground (arith, found, (set_put u s k v k valid).0),
        with_set-IsCache c k s' h (put-IsValid u s k v valid).0
            ((put-IsValid u s k v valid).1 ∙ size),
        ground (arith, cached-with_set c k k s' h, (set_put u s k v k valid).1, str_eq_refl k),
        λ j other.
            forget_one c k j s s' h found (evicted_by u s k)
              (rw other at (set_put u s k v j valid).1),
      )

  -- A delete within the limit at a well-formed cache returns 0, or the error of a missing key,
  -- and leaves a well-formed cache without the key and with the values of all other keys.
  pub cache_del_lem :
      (c : Cache u) (k : Text)
      → IsCache u c
      → length k ≤ max_keylen
      → (c' : Cache u) × (del u c k ≡ done (status (cached u c k), c'))
        × IsCache u c'
        × ((j : Text) → cached u c' j ≡ (if str_eq k j then none else cached u c j))
  unfolding del get_cache_set
  cache_del_lem c k h fits =
      let (s, found) = set_of_key c k h in
      let (valid, size) = h.valid (set_index c.num_sets k) s found in
      let s' = (CacheSet.del u s k).1 in
      let (r, gone) = set_del u s k in
      (
        with_set u c k s',
        ground (arith, found, r, cached-set c k k s found (ground arith)),
        with_set-IsCache c k s' h (del-IsValid u s k valid).0 ((del-IsValid u s k valid).1 ∙ size),
        λ j.
            ground
              (arith, cached-with_set c k j s' h, cached-set c k j s found, gone j, str_eq_iff k j),
      )
