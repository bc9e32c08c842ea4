-- ===== src/Kv/Server.antt =====
-- A server of the store (group1/kvstore/src/server/kvserver.c): kvserver_get, kvserver_put_check,
-- kvserver_put, kvserver_del_check, kvserver_del, the handlers of requests in children, and
-- kvserver_init and kvserver_clean.
pub mod Handle
pub mod Coherent
pub mod Update
pub mod Logged
pub mod Commit
pub mod Decide
pub mod Rebuild
use sum.Prelude.{
  ℕ, zero, suc, ◌≡◌, Bool, true, false, not, Option, none, some, List, [], ◌∷◌, ◌++◌, ℤ, pos,
  negsuc, is_negative, is_zero, ltb, ltb_ℤ, if◌then◌else◌, length, Run, done, fault, spin, ◌>>=◌,
}
use sum.Kv.Text.{Text}
use sum.Kv.Codes.{MsgType, TpcState, tpc_init, err_keylen, max_keylen}
use sum.Kv.Memory.{Memory}
use sum.Kv.Disk.{FileSystem}
use sum.Kv.Cache
use sum.Kv.Cache.{Cache}
use sum.Kv.Store
use sum.Kv.Log
use sum.Kv.Log.{Log}

-- `kvserver_t`. The store and the log are the files of one directory; the socket, the number of
-- threads and the handler are not used below.
pub record Server (u : Memory) (fs : FileSystem) : Type 0 where
  pub cache : Cache u
  pub disk : fs.Disk
  pub log : Log
  pub use_tpc : Bool
  pub state : TpcState
  pub hostname : Text
  pub port : ℕ

module _ (u : Memory) (fs : FileSystem) where
  -- The store is read if the cache does not have the key, and the cache then filled; what the cache
  -- answers to that is not looked at.
  unfoldable pub get_store : ℕ → Server u fs → Text → Run (ℤ × Option Text × Server u fs)
  get_store fuel s k = do
    r ← Store.get fs fuel s.disk k
    let fill = λ (v : Text). Cache.put u s.cache k v
    elim r.1 [
      | none ↦ done (r.0, none, s)
      | some v ↦
          if is_zero r.0
          then (do p ← fill v; done (r.0, some v, record s { cache = p.1 }))
          else done (r.0, some v, s)
    ]

  unfoldable pub get : ℕ → Server u fs → Text → Run (ℤ × Option Text × Server u fs)
  unfolding get_store
  get fuel s k = if ltb max_keylen (length k) then done (err_keylen, none, s) else do
    r ← Cache.get u s.cache k
    let s' : Server u fs = record s { cache = r.2 }
    if is_negative r.0 then get_store fuel s' k else done (r.0, r.1, s')

  unfoldable pub put_check : Server u fs → Text → Text → ℤ
  put_check s k v = Store.put_check fs s.disk k v

  -- The write to the cache, under the lock of the key's set; to take the null pointer's lock is
  -- undefined.
  unfoldable pub put_cache : Server u fs → Text → Text → Run (ℤ × Server u fs)
  put_cache s k v = elim (Cache.getlock u s.cache k) [
    | none ↦ fault
    | some lock ↦ (do p ← Cache.put u s.cache k v; done (p.0, record s { cache = p.1 }))
  ]

  unfoldable pub put : ℕ → Server u fs → Text → Text → Run (ℤ × Server u fs)
  unfolding put_check put_cache
  put fuel s k v =
      if is_negative (put_check s k v)
      then done (put_check s k v, s)
      else (Store.put fs fuel s.disk k v >>= λ r.
          if is_negative r.0
          then done (r.0, record s { disk = r.1 })
          else put_cache (record s { disk = r.1 }) k v)

  unfoldable pub del_check : ℕ → Server u fs → Text → Run ℤ
  del_check fuel s k = Store.del_check fs fuel s.disk k

  -- The store, if the check allows it; `outcome` is that of the cache.
  unfoldable pub del_store : ℕ → Server u fs → Text → ℤ → Run (ℤ × Server u fs)
  unfolding del_check
  del_store fuel s k outcome = del_check fuel s k >>= λ check.
      if is_zero check
      then (do r ← Store.del fs fuel s.disk k; done (r.0, record s { disk = r.1 }))
      else done (outcome, s)

  unfoldable pub del : ℕ → Server u fs → Text → Run (ℤ × Server u fs)
  unfolding del_store
  del fuel s k = elim (Cache.getlock u s.cache k) [
    | none ↦ fault
    | some lock ↦ (do c ← Cache.del u s.cache k; del_store fuel (record s { cache = c.1 }) k c.0)
  ]

  -- The server after its parts were made; `none` if the log was not.
  abbrev made : Cache u → fs.Disk → Text → ℕ → Bool → Option Log → Option (Server u fs)
  made c d hostname port use_tpc none = none
  made c d hostname port use_tpc (some l) = some (record {
    cache = c;
    disk = d;
    log = l;
    use_tpc = use_tpc;
    state = tpc_init;
    hostname = hostname;
    port = port;
  })

  -- kvserver_init: the status, and the server. A positive code of the store or the log is not taken
  -- for a failure; without a directory the log is then not set up.
  unfoldable pub init :
      ℕ → fs.Disk → ℕ → ℕ → Text → ℕ → Bool → Run (ℤ × fs.Disk × Option (Server u fs))
  init fuel d num_sets elem_per_set hostname port use_tpc =
      elim (Cache.init u num_sets elem_per_set) [
        | none ↦ done (negsuc 0, d, none)
        | some c ↦
            let r = Store.init fs d in
            let unused : Log = record { nextid = 0; iterpos = 0 } in
            if is_negative r.0
            then done (r.0, r.1, none)
            else if use_tpc
            then (Log.init fs fuel r.1 >>= λ x.
                if is_negative x.0
                then done (x.0, x.1, none)
                else done (pos 0, x.1, made c x.1 hostname port use_tpc x.2))
            else done (pos 0, r.1, made c r.1 hostname port use_tpc (some unused))
      ]

  unfoldable pub clean : Server u fs → ℤ × Server u fs
  clean s = let r = Store.clean fs s.disk in (r.0, record s { disk = r.1 })
