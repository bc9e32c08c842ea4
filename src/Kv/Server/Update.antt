-- ===== src/Kv/Server/Update.antt =====
-- What kvserver_put and kvserver_del do to the map that a server holds.
use sum.Prelude.{
  ℕ, ◌+◌, ◌≤◌, ◌<◌, ◌^◌, ◌≡◌, false, none, some, List, pos, inl, inr, ◌⊎◌, ltb, if◌then◌else◌,
  length, done, fault, arith, Bool-cases,
}
use sum.Kv.Text.{Text, hash, str_eq, str_eq_iff, IsText}
use sum.Kv.Codes.{err_keylen, err_vallen, err_filaccess, max_keylen, max_vallen}
use sum.Kv.Memory.{Memory}
use sum.Kv.Disk.{FileSystem, KvEntry, Written, whole, cut, failed}
use sum.Kv.Cache.{Cache, getlock}
use sum.Kv.Cache.Sets
use sum.Kv.Cache.Sets.{IsCache, cached}
use sum.Kv.Store.Find.{put_check_lem}
use sum.Kv.Store.Write
use sum.Kv.Store.Write.{put_at, stored-put_at, WritesWhole, file_opens}
use sum.Kv.Server.{Server, put, put_cache, put_check, del}
use sum.Kv.Server.Coherent.{IsServer}

not_short {ℓ} :
    {A : Type ℓ} {x : Written A} {a b : A} → x ≡ whole a → (x ≡ cut b) ⊎ (x ≡ failed b) → ⊥
not_short all (inl part) = cc
not_short all (inr error) = cc

module _ (u : Memory) (fs : FileSystem) where
  put_cache_lem :
      (s : Server u fs) (k v : Text)
      → IsCache u s.cache
      → length k ≤ max_keylen
      → length v ≤ max_vallen
      → (c : Cache u) × (put_cache u fs s k v ≡ done (pos 0, record s { cache = c }))
        × IsCache u c
        × (cached u c k ≡ some v)
        × ((j : Text)
            → str_eq k j ≡ false
            → (cached u c j ≡ none) ⊎ (cached u c j ≡ cached u s.cache j))
  unfolding put_cache getlock
  put_cache_lem s k v h kl vl =
      let (c, made, valid, self, others) = Sets.cache_put_lem u s.cache k v h kl vl in
      (c, ground (arith, made), valid, self, others)

  -- A put of strings within the limits at a well-formed server, with fuel and room in the chain
  -- of the key, and the entry of the key written whole if its file can be opened, either returns
  -- ERRFILACCESS, since the file cannot be opened, and changes nothing, or returns 0 and leaves a
  -- well-formed server with the new value for the key and the old values for all other keys.
  pub server_put_lem :
      (fuel : ℕ) (s : Server u fs) (es : ℕ → List KvEntry) (k v : Text)
      → IsServer u fs s es
      → IsText k
      → IsText v
      → length k ≤ max_keylen
      → length v ≤ max_vallen
      → length (es (hash k)) < fuel
      → length (es (hash k)) + 1 < 2 ^ 31
      → WritesWhole fs s.disk es k v
      → ((put u fs fuel s k v ≡ done (err_filaccess, s)) × (file_opens fs s.disk es k ≡ false))
        ⊎ ((c : Cache u) × (d : fs.Disk) × (put u fs fuel s k v
              ≡ done (pos 0, record s { cache = c; disk = d }))
            × IsServer u fs (record s { cache = c; disk = d }) (put_at es k v))
  unfolding put put_check
  server_put_lem fuel s es k v h hk hv kl vl f room w =
      let check = put_check_lem fs s.disk es k v h.store in
      elim (Write.store_put_lem fs fuel s.disk es k v h.store hk hv kl vl f room) [
        | inl (shut, fails) ↦ inl (ground (arith, check, fails), shut)
        | inr (inl (d, wrote, made, holds)) ↦
            let s' : Server u fs = record s { disk = d } in
            let (c, filled, valid, self, others) = put_cache_lem s' k v h.cache kl vl in
            inr (
              c,
              d,
              ground (arith, check, made, filled),
              record {
                cache = valid;
                store = holds;
                coherent = λ j w p. elim (Bool-cases (str_eq k j)) [
                  | inl same ↦ ground (arith, self, stored-put_at es k v j hk hv, str_eq_iff k j)
                  | inr other ↦
                      ground (arith, stored-put_at es k v j hk hv, others j other, h.coherent j w)
                ];
                small = λ j w p. ground (arith, stored-put_at es k v j hk hv, h.small j w);
              },
            )
        | inr (inr (d, opened, short, made, rest)) ↦
            let (d', wrote) = w opened in absurd (not_short wrote short)
      ]

  -- A key or a value over the limits is refused, and nothing changes.
  pub server_put_refused :
      (fuel : ℕ) (s : Server u fs) (es : ℕ → List KvEntry) (k v : Text)
      → IsServer u fs s es
      → (max_keylen < length k) ⊎ (max_vallen < length v)
      → put u fs fuel s k v ≡ done (if ltb max_keylen (length k) then err_keylen else err_vallen, s)
  unfolding put put_check
  server_put_refused fuel s es k v h long = ground (arith, put_check_lem fs s.disk es k v h.store)

  -- A delete of a key that is too long takes the lock at a null pointer.
  pub del_long :
      (fuel : ℕ) (s : Server u fs) (k : Text) → max_keylen < length k → del u fs fuel s k ≡ fault
  unfolding del getlock
  del_long fuel s k h = ground arith
