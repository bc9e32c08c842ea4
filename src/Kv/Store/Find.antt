-- ===== src/Kv/Store/Find.antt =====
-- The store as a map: what find_entry, kvstore_get, kvstore_haskey and the two checks answer.
use sum.Prelude.{
  ℕ, ◌≤◌, ◌<◌, ◌≡◌, refl, true, Option, none, some, List, ℤ, pos, done, is_some, ltb, if◌then◌else◌,
  length, arith, inl, inr, Option-cases, Bool-cases,
}
use sum.Kv.Text.{Text, hash}
use sum.Kv.Codes.{err_keylen, err_vallen, err_nokey, max_keylen, max_vallen}
use sum.Kv.Disk.{FileSystem, KvEntry}
use sum.Kv.Store.{find_entry, get, haskey, put_check, del_check}
use sum.Kv.Store.Chain.{Chain, index_of, value_in, found_at, find_from-Chain}
use sum.Kv.Store.Entries.{IsDistinct, index_of-FoundIn}

-- The directory is there, and its files are the chains `es`, without a double key.
pub record Holds (fs : FileSystem) (d : fs.Disk) (es : ℕ → List KvEntry) : Type 0 where
  pub dir : fs.has_dir d ≡ true
  pub chain : (h : ℕ) → Chain fs d h (es h)
  pub distinct : (h : ℕ) → IsDistinct (es h)

-- The value that the chains hold for a key.
unfoldable pub stored : (ℕ → List KvEntry) → Text → Option Text
stored es k = value_in k (es (hash k))

abbrev pub status : Option Text → ℤ
status none = err_nokey
status (some v) = pos 0

module _ (fs : FileSystem) where
  pub find_entry_lem :
      (fuel : ℕ) (d : fs.Disk) (es : ℕ → List KvEntry) (k : Text)
      → Holds fs d es
      → length k ≤ max_keylen
      → length (es (hash k)) < fuel
      → find_entry fs fuel d k ≡ done (found_at (index_of k (es (hash k))) (stored es k))
  unfolding find_entry stored
  find_entry_lem fuel d es k h fits f =
      ground (arith, h.dir, find_from-Chain fs fuel d k (hash k) (es (hash k)) (h.chain (hash k)) f)

  -- A key that is found has a value, and one that is not found has none.
  index_of-stored :
      (es : ℕ → List KvEntry) (k : Text)
      → is_some (index_of k (es (hash k))) ≡ is_some (stored es k)
  unfolding stored
  index_of-stored es k = elim (Option-cases (index_of k (es (hash k)))) [
    | inl miss ↦ ground (arith, miss, rw miss at (index_of-FoundIn k (es (hash k))))
    | inr (i, hit) ↦ ground (arith, hit, rw hit at (index_of-FoundIn k (es (hash k))))
  ]

  -- A get within the limit, on a disk that holds chains without double keys, with fuel for the
  -- chain of the key, returns the stored value with status 0, or the error of a missing key.
  pub store_get_lem :
      (fuel : ℕ) (d : fs.Disk) (es : ℕ → List KvEntry) (k : Text)
      → Holds fs d es
      → length k ≤ max_keylen
      → length (es (hash k)) < fuel
      → get fs fuel d k ≡ done (status (stored es k), stored es k)
  unfolding get
  store_get_lem fuel d es k h fits f =
      ground (arith, find_entry_lem fuel d es k h fits f, index_of-stored es k)

  pub haskey_lem :
      (fuel : ℕ) (d : fs.Disk) (es : ℕ → List KvEntry) (k : Text)
      → Holds fs d es
      → length k ≤ max_keylen
      → length (es (hash k)) < fuel
      → haskey fs fuel d k ≡ done (is_some (stored es k))
  unfolding haskey
  haskey_lem fuel d es k h fits f =
      ground (arith, find_entry_lem fuel d es k h fits f, index_of-stored es k)

  -- The two checks answer for every key and value.
  pub put_check_lem :
      (d : fs.Disk) (es : ℕ → List KvEntry) (k v : Text)
      → Holds fs d es
      → put_check fs d k v ≡ (
          if ltb max_keylen (length k)
          then err_keylen
          else if ltb max_vallen (length v)
          then err_vallen
          else pos 0)
  unfolding put_check
  put_check_lem d es k v h = ground (arith, h.dir)

  -- With fuel for the chain of the key, the check of a delete answers for every key: the error of
  -- a key that is too long, that of a missing key, or 0.
  pub del_check_lem :
      (fuel : ℕ) (d : fs.Disk) (es : ℕ → List KvEntry) (k : Text)
      → Holds fs d es
      → length (es (hash k)) < fuel
      → del_check fs fuel d k
        ≡ done (if ltb max_keylen (length k) then err_keylen else status (stored es k))
  unfolding del_check
  del_check_lem fuel d es k h f = elim (Bool-cases (ltb max_keylen (length k))) [
    | inl long ↦ rw long refl
    | inr fits ↦ ground (arith, h.dir, haskey_lem fuel d es k h (ground arith) f)
  ]
