-- ===== src/Kv/CacheSet/Put.antt =====
-- What kvcacheset_put does to the values that a set holds, and that it keeps the set well formed.
use sum.Prelude.{
  ◌+◌, ◌≤◌, ◌≡◌, refl, Bool, true, false, Option, none, some, [], ◌∷◌, arith, is_some,
  if◌then◌else◌, ltb, length, length-append, pos, inl, inr, Option-cases, Bool-cases, ap, ◌∙◌,
}
use sum.Kv.Text.{Text, str_eq, str_eq_iff}
use sum.Kv.Memory.{Memory, memb}
use sum.Kv.CacheSet.{CacheSet, make_room, put}
use sum.Kv.CacheSet.Keys.{memb-append, IsDistinct-append_one}
use sum.Kv.CacheSet.Valid.{IsLinked, IsValid, cached}
use sum.Kv.CacheSet.Evict.{victim, evict_lem}

-- Whether a key is the evicted one.
abbrev pub is_key : Option Text → Text → Bool
is_key none j = false
is_key (some v) j = str_eq v j

module _ (u : Memory) where
  -- The key that a put evicts, if it evicts one.
  pub evicted_by : CacheSet u → Text → Option Text
  evicted_by s k = elim (u.find s.table k) [
    | some e ↦ none
    | none ↦ if ltb s.num_entries s.elem_per_set then none else victim u s.table (u.items s.list)
  ]

  -- The set with room for one more entry, which is already counted.
  record HasRoom (s s' : CacheSet u) (v : Option Text) : Type 0 where
    gone : (j : Text) → cached u s' j ≡ (if is_key v j then none else cached u s j)
    linked : IsLinked u s'
    counted : s'.num_entries ≡ length (u.items s'.list) + 1
    bounded : s'.num_entries ≤ s'.elem_per_set
    same_size : s'.elem_per_set ≡ s.elem_per_set

  make_room_lem :
      (s : CacheSet u) (k : Text)
      → IsValid u s
      → u.find s.table k ≡ none
      → HasRoom s (make_room u s) (evicted_by s k)
  unfolding make_room evicted_by cached
  make_room_lem s k h miss = elim (Bool-cases (ltb s.num_entries s.elem_per_set)) [
    | inl room ↦
        rw (miss, evicted_by, room)
          (record {
            gone = λ j. refl;
            linked = record { distinct = h.linked.distinct; agree = h.linked.agree };
            counted = ground arith;
            bounded = ground arith;
            same_size = refl;
          })
    | inr full ↦
        let (v, chosen, x) = evict_lem u s h.linked (ground arith) in
        rw (miss, evicted_by, full, chosen)
          (record {
            gone = x.gone;
            linked = x.linked;
            counted = ground arith;
            bounded = ground arith;
            same_size = x.same_size;
          })
  ]

  missing_of_gone :
      (s s' : CacheSet u) (k : Text) (v : Option Text)
      → HasRoom s s' v
      → u.find s.table k ≡ none
      → u.find s'.table k ≡ none
  unfolding cached
  missing_of_gone s s' k v x miss = ground (arith, x.gone k)

  -- A put at a well-formed set returns 0; the key then has its new value, the key that
  -- `evicted_by` names has none, and every other key has the value it had.
  pub put_lem :
      (s : CacheSet u) (k v j : Text)
      → IsValid u s
      → ((put u s k v).0 ≡ pos 0)
        × (cached u (put u s k v).1 j ≡ (
            if str_eq k j
            then some v
            else if is_key (evicted_by s k) j
            then none
            else cached u s j))
  unfolding put evicted_by cached
  put_lem s k v j h = elim (Option-cases (u.find s.table k)) [
    | inr (e, hit) ↦
        rw (hit, put, evicted_by)
          (
            refl,
            ground (arith, u.find-store s.table k j (record { value = v; refbit = true }), hit),
          )
    | inl miss ↦
        let x = make_room_lem s k h miss in
        let gone = missing_of_gone s (make_room u s) k (evicted_by s k) x miss in
        rw (miss, put)
          (
            refl,
            ground (
              arith,
              u.find-add (make_room u s).table k j (record { value = v; refbit = false }) gone,
              x.gone j,
            ),
          )
  ]

  -- A put keeps a set well formed (list and table with the same keys, each once, counted right
  -- and within the capacity), and never changes its capacity.
  pub put-IsValid :
      (s : CacheSet u) (k v : Text)
      → IsValid u s
      → IsValid u (put u s k v).1 × ((put u s k v).1.elem_per_set ≡ s.elem_per_set)
  unfolding put memb
  put-IsValid s k v h = elim (Option-cases (u.find s.table k)) [
    | inr (e, hit) ↦
        rw (hit, put)
          (
            record {
              linked = record {
                distinct = h.linked.distinct;
                agree = λ j. ground (
                  arith,
                  u.find-store s.table k j (record { value = v; refbit = true }),
                  hit,
                  h.linked.agree j,
                  str_eq_iff k j,
                );
              };
              counted = h.counted;
              bounded = h.bounded;
              two = h.two;
              fits = h.fits;
            },
            refl,
          )
    | inl miss ↦
        let s' = make_room u s in
        let x = make_room_lem s k h miss in
        let gone = missing_of_gone s s' k (evicted_by s k) x miss in
        let fresh : memb k (u.items s'.list) ≡ false = x.linked.agree k ∙ ap is_some gone in
        rw (miss, put)
          (
            record {
              linked = record {
                distinct =
                    rw u.items-append
                      (IsDistinct-append_one k (u.items s'.list) x.linked.distinct fresh);
                agree = λ j. ground (
                  arith,
                  u.items-append s'.list k,
                  memb-append j (u.items s'.list) (k ∷ []),
                  u.find-add s'.table k j (record { value = v; refbit = false }) gone,
                  x.linked.agree j,
                  str_eq_iff k j,
                  str_eq_iff j k,
                );
              };
              counted = ground (
                arith,
                u.items-append s'.list k,
                length-append (u.items s'.list) (k ∷ []),
                x.counted,
              );
              bounded = x.bounded;
              two = omega (arith, x.same_size);
              fits = omega (arith, x.same_size);
            },
            x.same_size,
          )
  ]
