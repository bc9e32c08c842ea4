-- ===== src/Kv/CacheSet.antt =====
-- kvcacheset_init, kvcacheset_get, kvcacheset_put, kvcacheset_del, kvcacheset_clear and
-- kvcacheset_ref (group1/kvstore/src/server/kvcacheset.c). Each returns its status, and the new set.
pub mod Keys
pub mod Valid
pub mod Evict
pub mod Put
pub mod Clear
use sum.Prelude.{
  ℕ, zero, suc, ◌+◌, ◌-◌, ◌%◌, ◌^◌, ◌≡◌, Bool, true, false, Option, none, some, List, [], ◌∷◌, ℤ,
  pos, negsuc, ltb, if◌then◌else◌, head?, length,
}
use sum.Kv.Text.{Text, str_eq}
use sum.Kv.Codes.{err_nokey}
use sum.Kv.Memory.{Memory, Entry}

-- `kvcacheset_t`; `num_entries` is the bit pattern of an `int`.
pub record CacheSet (u : Memory) : Type 0 where
  pub elem_per_set : ℕ
  pub num_entries : ℕ
  pub list : u.DList
  pub table : u.Table

-- `elt->next`: what follows a key in the list.
unfoldable pub next_of : Text → List Text → Option Text
next_of k [] = none
next_of k (j ∷ l) = if str_eq k j then head? l else next_of k l

module _ (u : Memory) where
  -- The status, and the set if it is 0. The lock's initialisation succeeds.
  unfoldable pub init : ℕ → Option (CacheSet u)
  init n =
      if ltb n 2
      then none
      else some
          (record { elem_per_set = n; num_entries = 0; list = u.null_list; table = u.null_table })

  unfoldable pub get : CacheSet u → Text → ℤ × Option Text × CacheSet u
  get s k = elim (u.find s.table k) [
    | none ↦ (err_nokey, none, s)
    | some e ↦
        (pos 0, some e.value, record s { table = u.store s.table k (record e { refbit = true }) })
  ]

  -- The body of DL_FOREACH_SAFE: `elt` is the entry at hand, and `tmp` is read before the list
  -- changes. The `break` is the branch without a recursive call.
  unfoldable pub evict : ℕ → CacheSet u → Option Text → CacheSet u
  evict zero s elt = s
  evict (suc fuel) s none = s
  evict (suc fuel) s (some k) =
      let tmp = next_of k (u.items s.list) in
      let list' = u.delete s.list k in
      elim (u.find s.table k) [
        | none ↦ s
        | some e ↦
            let rest =
              evict fuel
                (record s {
                  list = u.append list' k;
                  table = u.store s.table k (record e { refbit = false });
                })
                tmp in
            if e.refbit then rest else record s { list = list'; table = u.del s.table k }
      ]

  -- The loop passes each entry at most twice.
  unfoldable pub make_room : CacheSet u → CacheSet u
  unfolding evict
  make_room s =
      if ltb s.num_entries s.elem_per_set
      then record s { num_entries = (s.num_entries + 1) % 2 ^ 32 }
      else evict (length (u.items s.list) + 1) s (head? (u.items s.list))

  unfoldable pub put : CacheSet u → Text → Text → ℤ × CacheSet u
  put s k v = elim (u.find s.table k) [
    | some e ↦ (pos 0, record s { table = u.store s.table k (record { value = v; refbit = true }) })
    | none ↦
        let s' = make_room s in
        (
          pos 0,
          record s' {
            list = u.append s'.list k;
            table = u.add s'.table k (record { value = v; refbit = false });
          },
        )
  ]

  unfoldable pub del : CacheSet u → Text → ℤ × CacheSet u
  del s k = elim (u.find s.table k) [
    | none ↦ (err_nokey, s)
    | some e ↦ (
      pos 0,
      record s {
        table = u.del s.table k;
        list = u.delete s.list k;
        num_entries = (s.num_entries + 2 ^ 32 - 1) % 2 ^ 32;
      },
    )
  ]

  -- The body of HASH_ITER, over the keys that are left to visit.
  unfoldable pub clear_keys : List Text → CacheSet u → CacheSet u
  clear_keys [] s = s
  clear_keys (k ∷ ks) s =
      clear_keys ks (record s { table = u.del s.table k; list = u.delete s.list k })

  unfoldable pub clear : CacheSet u → CacheSet u
  unfolding clear_keys
  clear s = clear_keys (u.iter s.table) s

  unfoldable pub ref : CacheSet u → Text → ℤ
  ref s k = elim (u.find s.table k) [
    | none ↦ err_nokey
    | some e ↦ if e.refbit then pos 1 else pos 0
  ]
