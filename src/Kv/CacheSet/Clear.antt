-- ===== src/Kv/CacheSet/Clear.antt =====
-- kvcacheset_clear (group1/kvstore/src/server/kvcacheset.c): it frees every entry and leaves
-- `num_entries` as it was.
use sum.Prelude.{◌<◌, ◌≡◌, refl, false, none, List, [], ◌∷◌, arith, if◌then◌else◌, length, ap}
use sum.Kv.Text.{Text, str_eq, str_eq_iff, str_eq_refl}
use sum.Kv.Memory.{Memory, memb}
use sum.Kv.CacheSet.{CacheSet, clear, clear_keys}
use sum.Kv.CacheSet.Valid.{IsLinked, IsValid, cached, del-IsLinked}

module _ (u : Memory) where
  abbrev dropped : CacheSet u → Text → CacheSet u
  dropped s k = record s { table = u.del s.table k; list = u.delete s.list k }

  cached-dropped :
      (s : CacheSet u) (k j : Text)
      → cached u (dropped s k) j ≡ (if str_eq k j then none else cached u s j)
  unfolding cached
  cached-dropped s k j = ground (arith, u.find-del s.table k j)

  clear_keys_lem :
      (ks : List Text) (s : CacheSet u)
      → IsLinked u s
      → IsLinked u (clear_keys u ks s)
        × ((j : Text) → cached u (clear_keys u ks s) j ≡ (if memb j ks then none else cached u s j))
        × ((clear_keys u ks s).num_entries ≡ s.num_entries)
        × ((clear_keys u ks s).elem_per_set ≡ s.elem_per_set)
  unfolding clear_keys memb
  clear_keys_lem [] s l = (l, λ j. refl, refl, refl)
  clear_keys_lem (k ∷ ks) s l =
      let (l', values, count, size) = clear_keys_lem ks (dropped s k) (del-IsLinked u s k l) in
      (
        l',
        λ j. ground (arith, values j, cached-dropped s k j, str_eq_iff j k, str_eq_iff k j),
        count,
        size,
      )

  -- No key lies in a list with the same members as an empty table.
  empty_of_memb : (l : List Text) → ((j : Text) → memb j l ≡ false) → l ≡ []
  unfolding memb
  empty_of_memb [] h = refl
  empty_of_memb (k ∷ l) h = absurd (ground (arith, h k, str_eq_refl k))

  -- After a clear the set holds no entry; its count of entries is what it was before.
  pub clear_lem :
      (s : CacheSet u)
      → IsLinked u s
      → ((j : Text) → cached u (clear u s) j ≡ none)
        × (u.items (clear u s).list ≡ [])
        × ((clear u s).num_entries ≡ s.num_entries)
  unfolding clear
  clear_lem s l =
      let (l', values, count, size) = clear_keys_lem (u.iter s.table) s l in
      let gone : (j : Text) → cached u (clear u s) j ≡ none =
        λ j. unfold cached in ground (arith, values j, u.memb-iter s.table j) in
      (gone, empty_of_memb _ (λ j. unfold cached in ground (arith, l'.agree j, gone j)), count)

  -- A clear of a well-formed set that held something leaves a set that is not well formed.
  pub clear_stale : (s : CacheSet u) → IsValid u s → 0 < s.num_entries → ¬ IsValid u (clear u s)
  clear_stale s h some_entry v =
      let (gone, empty, count) = clear_lem s h.linked in
      omega (arith, v.counted, count, ap length empty)
