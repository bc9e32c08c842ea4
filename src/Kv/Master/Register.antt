-- ===== src/Kv/Master/Register.antt =====
-- Registration at the master: the bound on the number of slaves, and the place and the identity of
-- what is inserted.
use sum.Prelude.{
  ℕ, suc, ◌+◌, ◌≤◌, ◌<◌, ◌^◌, ◌≡◌, refl, false, none, some, List, [], ◌∷◌, ◌++◌, ltb, if◌then◌else◌,
  length, get_elem?, done, arith,
}
use sum.Kv.Text.{Text, hash_64_bit}
use sum.Kv.Codes.{Message, resp, register, success, generic_error}
use sum.Kv.Memory.{Memory}
use sum.Kv.Master
use sum.Kv.Master.{Master, Slave, key_of, lt_64, seen, insert_behind, insert}
use sum.Kv.Master.Ring.{IsSorted}

-- The count is that of the list, and within the capacity.
pub record IsCounted (u : Memory) (m : Master u) : Type 0 where
  pub counted : m.slave_count ≡ length m.slaves
  pub bounded : m.slave_count ≤ m.slave_capacity
  pub fits : m.slave_capacity < 2 ^ 32

-- The loop goes on only past smaller ids, so that it never sees the id that it looks for.
never_seen : (h : ℕ) (ss : List Slave) → seen h false ss ≡ false
unfolding seen
never_seen h [] = refl
never_seen h (s ∷ []) = refl
never_seen h (s ∷ t ∷ r) = ground (arith, never_seen h (t ∷ r))

length-insert_behind :
    (n s : Slave) (r : List Slave) → length (insert_behind n (s ∷ r)) ≡ length r + 2
unfolding insert_behind
length-insert_behind n s [] = omega arith
length-insert_behind n s (t ∷ r) = ground (arith, length-insert_behind n t r)

behind_all :
    (n s : Slave) (r : List Slave)
    → ((j : ℕ) (t : Slave) → get_elem? (s ∷ r) j ≡ some t → key_of t.id < key_of n.id)
    → insert_behind n (s ∷ r) ≡ s ∷ (r ++ n ∷ [])
unfolding insert_behind
behind_all n s [] h = refl
behind_all n s (t ∷ r) h = ground (arith, h 0 s refl, behind_all n t r (λ j v p. h (suc j) v p))

-- Every registration adds an entry to the list, also that of a slave that is registered already:
-- no id is taken for one that exists.
pub insert_adds :
    (n : Slave) (ss : List Slave)
    → ((insert n ss).0 ≡ false) × (length (insert n ss).1 ≡ length ss + 1)
unfolding insert
insert_adds n [] = (refl, refl)
insert_adds n (s ∷ r) = ground (arith, never_seen n.id (s ∷ r), length-insert_behind n s r)

-- The slave that a request registers.
abbrev pub registered : (Text → ℕ) → Text → Text → Slave
registered atoi key value = record {
  id = hash_64_bit (value ++ (b':' ∷ key));
  host = key;
  port = atoi value;
}

module _ (u : Memory) (atoi : Text → ℕ) (m : Master u) (reply : Message) (key value : Text) where
  abbrev pub request : Message
  request = record { type = register; key = some key; value = some value; message = none }

  -- At a master whose count is right and within the capacity: with room left a registration
  -- succeeds and adds one slave; without, it is refused and changes nothing. The count stays that
  -- of the list and within the capacity.
  pub register_lem :
      IsCounted u m
      → (Master.register u atoi m request reply
          ≡ done (
              if ltb m.slave_count m.slave_capacity
              then (
                record m {
                  slaves = (insert (registered atoi key value) m.slaves).1;
                  slave_count = m.slave_count + 1;
                },
                record { type = resp; key = none; value = none; message = some success },
              )
              else (m, record reply { message = some generic_error })))
        × (m.slave_count < m.slave_capacity
            → IsCounted u (record m {
              slaves = (insert (registered atoi key value) m.slaves).1;
              slave_count = m.slave_count + 1;
            }))
  unfolding Master.register
  register_lem h =
      let (fresh, longer) = insert_adds (registered atoi key value) m.slaves in
      (
        ground (arith, fresh),
        λ room. record {
          counted = omega (arith, longer, h.counted);
          bounded = omega arith;
          fits = h.fits;
        },
      )

-- An id that lies between those of the first two slaves is inserted behind the second of them,
-- which leaves the list out of order.
pub insert_unsorted :
    (n s t : Slave) (r : List Slave)
    → key_of s.id < key_of n.id
    → key_of n.id < key_of t.id
    → ¬ IsSorted (insert n (s ∷ t ∷ r)).1
unfolding insert insert_behind
insert_unsorted n s t [] lo hi sorted =
    ground (arith, never_seen n.id (s ∷ t ∷ []), sorted.order 1 2 t n (omega arith))
insert_unsorted n s t (v ∷ r) lo hi sorted =
    ground (arith, never_seen n.id (s ∷ t ∷ v ∷ r), sorted.order 1 2 t n (omega arith))

-- An id above all others is put at the end, and one below the head in front.
pub insert_ends :
    (n s : Slave) (r : List Slave)
    → (key_of n.id < key_of s.id → (insert n (s ∷ r)).1 ≡ n ∷ s ∷ r)
      × (((j : ℕ) (t : Slave) → get_elem? (s ∷ r) j ≡ some t → key_of t.id < key_of n.id)
          → (insert n (s ∷ r)).1 ≡ (s ∷ r) ++ n ∷ [])
unfolding insert
insert_ends n s r = (
  λ low. ground arith,
  λ high. ground (arith, never_seen n.id (s ∷ r), behind_all n s r high, high 0 s refl),
)
