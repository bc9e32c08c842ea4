-- ===== src/Kv/CacheSet/Valid.antt =====
-- When a cache set is well formed: the list and the table hold the same entries, each once, and the
-- count of them is right and within bounds. What init, get and del do to it.
use sum.Prelude.{
  ℕ, ◌≤◌, ◌<◌, ◌^◌, ◌≡◌, refl, Bool, true, Option, none, some, arith, is_some, if◌then◌else◌,
  length, ℤ, pos, inl, inr, Option-cases, ap, ◌∙◌,
}
use sum.Kv.Text.{Text, str_eq, str_eq_iff, str_eq_refl}
use sum.Kv.Codes.{err_nokey}
use sum.Kv.Memory.{Memory, Entry, memb}
use sum.Kv.CacheSet.{CacheSet, init, get, del, ref}
use sum.Kv.CacheSet.Keys.{IsDistinct, memb-without, IsDistinct-without, length-without}

-- The list and the table hold the same keys, each once.
pub record IsLinked (u : Memory) (s : CacheSet u) : Type 0 where
  pub distinct : IsDistinct (u.items s.list)
  pub agree : (j : Text) → memb j (u.items s.list) ≡ is_some (u.find s.table j)

pub record IsValid (u : Memory) (s : CacheSet u) : Type 0 where
  pub linked : IsLinked u s
  pub counted : s.num_entries ≡ length (u.items s.list)
  pub bounded : s.num_entries ≤ s.elem_per_set
  pub two : 2 ≤ s.elem_per_set
  pub fits : s.elem_per_set < 2 ^ 32

-- The value that the set holds for a key.
abbrev pub value_of : Option Entry → Option Text
value_of none = none
value_of (some e) = some e.value

unfoldable pub cached : (u : Memory) → CacheSet u → Text → Option Text
cached u s j = value_of (u.find s.table j)

-- The status of an operation that needs the key to be there.
abbrev pub status : Option Text → ℤ
status none = err_nokey
status (some v) = pos 0

-- What kvcacheset_ref returns right after a get.
abbrev pub mark : Option Text → ℤ
mark none = err_nokey
mark (some v) = pos 1

module _ (u : Memory) where
  pub init-IsValid :
      (n : ℕ) (s : CacheSet u)
      → n < 2 ^ 32
      → init u n ≡ some s
      → IsValid u s × (s.elem_per_set ≡ n) × ((j : Text) → cached u s j ≡ none)
  unfolding init memb cached
  init-IsValid n s h e = (
    record {
      linked = record {
        distinct = ground (arith, u.items-null);
        agree = λ j. ground (arith, u.items-null, u.find-null j);
      };
      counted = ground (arith, u.items-null);
      bounded = ground arith;
      two = ground arith;
      fits = ground arith;
    },
    ground arith,
    λ j. ground (arith, u.find-null j),
  )

  pub find-mark :
      (s : CacheSet u) (k j : Text) (e : Entry) (b : Bool)
      → u.find s.table k ≡ some e
      → u.find (u.store s.table k (record e { refbit = b })) j
        ≡ (if str_eq k j then some (record e { refbit = b }) else u.find s.table j)
  find-mark s k j e b h = u.find-store s.table k j (record e { refbit = b }) (ap is_some h)

  -- A get returns the value of the key with status 0, or the error of a missing key; no value
  -- changes, and a key that was found is marked as used.
  pub get_lem :
      (s : CacheSet u) (k : Text)
      → ((get u s k).0 ≡ status (cached u s k))
        × ((get u s k).1 ≡ cached u s k)
        × ((j : Text) → cached u (get u s k).2 j ≡ cached u s j)
        × (ref u (get u s k).2 k ≡ mark (cached u s k))
  unfolding get cached ref
  get_lem s k = elim (Option-cases (u.find s.table k)) [
    | inl miss ↦ rw (miss, get) (refl, refl, λ j. refl, rw (miss, ref))
    | inr (e, hit) ↦
        rw (hit, get)
          (
            refl,
            refl,
            λ j. ground (arith, find-mark s k j e true hit, str_eq_iff k j),
            ground (arith, find-mark s k k e true hit, str_eq_refl k),
          )
  ]

  pub get-IsValid :
      (s : CacheSet u) (k : Text)
      → IsValid u s
      → IsValid u (get u s k).2 × ((get u s k).2.elem_per_set ≡ s.elem_per_set)
  unfolding get
  get-IsValid s k h = elim (Option-cases (u.find s.table k)) [
    | inl miss ↦ rw (miss, get) (h, refl)
    | inr (e, hit) ↦
        rw (hit, get)
          (
            record {
              linked = record {
                distinct = h.linked.distinct;
                agree = λ j.
                    ground (arith, find-mark s k j e true hit, h.linked.agree j, str_eq_iff k j);
              };
              counted = h.counted;
              bounded = h.bounded;
              two = h.two;
              fits = h.fits;
            },
            refl,
          )
  ]

  pub del-IsLinked :
      (s : CacheSet u) (k : Text)
      → IsLinked u s
      → IsLinked u (record s { table = u.del s.table k; list = u.delete s.list k })
  del-IsLinked s k h = record {
    distinct = rw u.items-delete (IsDistinct-without k (u.items s.list) h.distinct);
    agree = λ j. ground (
      arith,
      u.items-delete s.list k,
      u.find-del s.table k j,
      memb-without k j (u.items s.list) h.distinct,
      h.agree j,
    );
  }

  -- A delete keeps a set well formed, its count included, and never changes its capacity.
  pub del-IsValid :
      (s : CacheSet u) (k : Text)
      → IsValid u s
      → IsValid u (del u s k).1 × ((del u s k).1.elem_per_set ≡ s.elem_per_set)
  unfolding del
  del-IsValid s k h = elim (Option-cases (u.find s.table k)) [
    | inl miss ↦ rw (miss, del) (h, refl)
    | inr (e, hit) ↦
        let shorter = length-without k (u.items s.list) (h.linked.agree k ∙ ap is_some hit) in
        rw (hit, del)
          (
            record {
              linked = record {
                distinct = (del-IsLinked s k h.linked).distinct;
                agree = (del-IsLinked s k h.linked).agree;
              };
              counted = rw u.items-delete (omega arith);
              bounded = omega arith;
              two = h.two;
              fits = h.fits;
            },
            refl,
          )
  ]

  -- After a delete exactly the deleted key is gone, and the status says whether it was there.
  pub del_lem :
      (s : CacheSet u) (k : Text)
      → ((del u s k).0 ≡ status (cached u s k))
        × ((j : Text) → cached u (del u s k).1 j ≡ (if str_eq k j then none else cached u s j))
  unfolding del cached
  del_lem s k = elim (Option-cases (u.find s.table k)) [
    | inl miss ↦ rw (miss, del) (refl, λ j. ground (arith, str_eq_iff k j))
    | inr (e, hit) ↦ rw (hit, del) (refl, λ j. ground (arith, u.find-del s.table k j))
  ]
