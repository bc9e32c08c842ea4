-- ===== src/Kv/Cache.antt =====
-- kvcache_init, get_cache_set, kvcache_get, kvcache_put, kvcache_del, kvcache_getlock and
-- kvcache_clear (group1/kvstore/src/server/kvcache.c): an array of cache sets, chosen by the hash of
-- the key.
pub mod Sets
pub mod Init
use sum.Prelude.{
  ℕ, zero, suc, ◌%◌, ◌^◌, ◌≡◌, Bool, true, false, Option, none, some, List, [], ◌∷◌, ℤ, pos, negsuc,
  ltb, ◌==◌, ◌||◌, if◌then◌else◌, length, get_elem?, set, map, Run, done, fault, ◌>>=◌,
}
use sum.Kv.Text.{Text, hash}
use sum.Kv.Codes.{err_keylen, err_vallen, max_keylen, max_vallen}
use sum.Kv.Memory.{Memory}
use sum.Kv.CacheSet
use sum.Kv.CacheSet.{CacheSet}

-- `kvcache_t`
pub record Cache (u : Memory) : Type 0 where
  pub num_sets : ℕ
  pub elem_per_set : ℕ
  pub sets : List (CacheSet u)

-- The index that get_cache_set computes: the hash is cut to an `int`, and `%` takes it as an
-- `unsigned int` again.
unfoldable pub set_index : ℕ → Text → ℕ
set_index n k = hash k % 2 ^ 32 % n

module _ (u : Memory) where
  -- The loop of kvcache_init: `none` once the initialisation of a set fails.
  unfoldable pub init_sets : ℕ → ℕ → Option (List (CacheSet u))
  init_sets zero n = some []
  init_sets (suc i) n =
      let rest = init_sets i n in
      elim (CacheSet.init u n) [
        | none ↦ none
        | some s ↦ elim rest [ none ↦ none | some ss ↦ some (s ∷ ss) ]
      ]

  -- The cache if the status is 0; `none` for the status -1.
  unfoldable pub init : ℕ → ℕ → Option (Cache u)
  unfolding init_sets
  init num_sets n = if num_sets == 0 || n == 0 then none else elim (init_sets num_sets n) [
    | none ↦ none
    | some ss ↦ some (record { num_sets = num_sets; elem_per_set = n; sets = ss })
  ]

  -- The set of a key; outside the array the behaviour is undefined.
  unfoldable pub get_cache_set : Cache u → Text → Run (CacheSet u)
  unfolding set_index
  get_cache_set c k = elim (get_elem? c.sets (set_index c.num_sets k)) [
    | none ↦ fault
    | some s ↦ done s
  ]

  -- The cache after the set of a key was changed in place.
  abbrev pub with_set : Cache u → Text → CacheSet u → Cache u
  with_set c k s = record c { sets = set c.sets (set_index c.num_sets k) s }

  unfoldable pub get : Cache u → Text → Run (ℤ × Option Text × Cache u)
  get c k =
      if ltb max_keylen (length k)
      then done (err_keylen, none, c)
      else do s ← get_cache_set c k; let r = CacheSet.get u s k; done (r.0, r.1, with_set c k r.2)

  unfoldable pub put : Cache u → Text → Text → Run (ℤ × Cache u)
  put c k v =
      if ltb max_keylen (length k)
      then done (err_keylen, c)
      else if ltb max_vallen (length v)
      then done (err_vallen, c)
      else do s ← get_cache_set c k; let r = CacheSet.put u s k v; done (r.0, with_set c k r.1)

  unfoldable pub del : Cache u → Text → Run (ℤ × Cache u)
  del c k =
      if ltb max_keylen (length k)
      then done (err_keylen, c)
      else do s ← get_cache_set c k; let r = CacheSet.del u s k; done (r.0, with_set c k r.1)

  -- The lock of the key's set, by the index of the set; `none` is the null pointer.
  unfoldable pub getlock : Cache u → Text → Option ℕ
  getlock c k = if ltb max_keylen (length k) then none else some (set_index c.num_sets k)

  unfoldable pub clear : Cache u → Cache u
  clear c = record c { sets = map (CacheSet.clear u) c.sets }
