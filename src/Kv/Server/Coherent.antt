-- ===== src/Kv/Server/Coherent.antt =====
-- A server as one map: the cache agrees with the store, and a get, a put and a delete read and write
-- the values of the store.
use sum.Prelude.{
  ℕ, ◌≤◌, ◌<◌, ◌≡◌, some, List, inl, inr, length, done, arith, ◌∙◌, sym, Option-cases, Bool-cases,
}
use sum.Kv.Text.{Text, hash, str_eq, str_eq_iff}
use sum.Kv.Codes.{max_keylen, max_vallen}
use sum.Kv.Memory.{Memory}
use sum.Kv.Disk.{FileSystem, KvEntry}
use sum.Kv.Cache.{Cache}
use sum.Kv.Cache.Sets
use sum.Kv.Cache.Sets.{IsCache, cached}
use sum.Kv.Store.Find.{Holds, stored, status, put_check_lem, del_check_lem}
use sum.Kv.Store.Find
use sum.Kv.Server.{Server, get, get_store}

-- The cache holds no value but those of the store, and no stored value is too long.
pub record IsServer (u : Memory) (fs : FileSystem) (s : Server u fs) (es : ℕ → List KvEntry)
    : Type 0 where
  pub cache : IsCache u s.cache
  pub store : Holds fs s.disk es
  pub coherent : (k v : Text) → cached u s.cache k ≡ some v → stored es k ≡ some v
  pub small : (k v : Text) → stored es k ≡ some v → length v ≤ max_vallen

module _ (u : Memory) (fs : FileSystem) where
  -- With the cache changed to one that agrees with the store too.
  pub with_cache-IsServer :
      (s : Server u fs) (es : ℕ → List KvEntry) (c : Cache u)
      → IsServer u fs s es
      → IsCache u c
      → ((k v : Text) → cached u c k ≡ some v → stored es k ≡ some v)
      → IsServer u fs (record s { cache = c }) es
  with_cache-IsServer s es c h v co = record {
    cache = v;
    store = h.store;
    coherent = co;
    small = h.small;
  }

  get_store_lem :
      (fuel : ℕ) (s : Server u fs) (es : ℕ → List KvEntry) (k : Text)
      → IsServer u fs s es
      → length k ≤ max_keylen
      → length (es (hash k)) < fuel
      → (c : Cache u) × (get_store u fs fuel s k
          ≡ done (status (stored es k), stored es k, record s { cache = c }))
        × IsServer u fs (record s { cache = c }) es
  unfolding get_store
  get_store_lem fuel s es k h kl f =
      let found = Find.store_get_lem fs fuel s.disk es k h.store kl f in
      elim (Option-cases (stored es k)) [
        | inl miss ↦ (s.cache, ground (arith, found, miss), h)
        | inr (v, hit) ↦
            let (c, made, valid, self, others) =
              Sets.cache_put_lem u s.cache k v h.cache kl (h.small k v hit) in
            (
              c,
              ground (arith, found, hit, made),
              with_cache-IsServer s es c h valid (λ j w p. elim (Bool-cases (str_eq k j)) [
                | inl same ↦ ground (arith, str_eq_iff k j)
                | inr other ↦ ground (arith, others j other, h.coherent j w)
              ]),
            )
      ]

  -- A get within the limit at a well-formed server, with fuel for the chain of the key, returns
  -- the stored value or the error of a missing key, changes only the cache, and leaves the server
  -- well formed with the same values.
  pub server_get_lem :
      (fuel : ℕ) (s : Server u fs) (es : ℕ → List KvEntry) (k : Text)
      → IsServer u fs s es
      → length k ≤ max_keylen
      → length (es (hash k)) < fuel
      → (c : Cache u) × (get u fs fuel s k
          ≡ done (status (stored es k), stored es k, record s { cache = c }))
        × IsServer u fs (record s { cache = c }) es
  unfolding get
  server_get_lem fuel s es k h kl f =
      let (c, looked, valid, keep) = Sets.cache_get_lem u s.cache k h.cache in
      let h' : IsServer u fs (record s { cache = c }) es =
        with_cache-IsServer s es c h valid (λ j w p. h.coherent j w (sym (keep j) ∙ p)) in
      elim (Option-cases (cached u s.cache k)) [
        | inl miss ↦
            let (c', got, v') = get_store_lem fuel (record s { cache = c }) es k h' kl f in
            (c', ground (arith, looked, miss, got), v')
        | inr (v, hit) ↦ (c, ground (arith, looked, hit, h.coherent k v hit), h')
      ]
