-- ===== src/Kv/Master.antt =====
-- The master of the commit protocol (group1/kvstore/src/server/tpcmaster.c): tpcmaster_init,
-- tpcmaster_register, tpcmaster_get_primary and tpcmaster_get_successor; the requests stand in
-- children. The linked list of slaves is a list, and a pointer into it a place in the list.
pub mod Ring
pub mod Register
pub mod Request
pub mod Decision
pub mod Replicas
use sum.Prelude.{
  ℕ, zero, suc, ◌+◌, ◌%◌, ◌^◌, ◌≡◌, Bool, true, false, not, ◌||◌, Option, none, some, List, [], ◌∷◌,
  ◌++◌, ℤ, pos, negsuc, is_negative, is_zero, ltb, leb, ◌==◌, if◌then◌else◌, length, head?, Run,
  done, fault, spin, ◌>>=◌,
}
use sum.Kv.Text.{Text, hash_64_bit}
use sum.Kv.Codes.{MsgType, Message, resp, success, generic_error}
use sum.Kv.Memory.{Memory}
use sum.Kv.Cache
use sum.Kv.Cache.{Cache}

-- `tpcslave_t`; `id` is the bit pattern of an `int64_t`.
pub record Slave : Type 0 where
  pub id : ℕ
  pub host : Text
  pub port : ℕ

-- The order of the `int64_t` with these patterns: that of the patterns with the sign bit flipped.
abbrev pub key_of : ℕ → ℕ
key_of a = (a + 2 ^ 63) % 2 ^ 64

abbrev pub lt_64 : ℕ → ℕ → Bool
lt_64 a b = ltb (key_of a) (key_of b)

abbrev pub le_64 : ℕ → ℕ → Bool
le_64 a b = leb (key_of a) (key_of b)

-- `tpcmaster_t`; `slaves` is the list from `slaves_head` on.
pub record Master (u : Memory) : Type 0 where
  pub slave_capacity : ℕ
  pub slave_count : ℕ
  pub redundancy : ℕ
  pub slaves : List Slave
  pub cache : Cache u

-- The `for` loop of tpcmaster_register: it stops at a slave, tells whether it saw the id, and the
-- new slave is then put behind the slave where it stopped.
unfoldable pub seen : ℕ → Bool → List Slave → Bool
seen h found [] = found
seen h found (s ∷ []) = found
seen h found (s ∷ t ∷ r) =
    if lt_64 s.id h then seen h (if s.id == h then true else found) (t ∷ r) else found

unfoldable pub insert_behind : Slave → List Slave → List Slave
insert_behind n [] = []
insert_behind n (s ∷ []) = s ∷ n ∷ []
insert_behind n (s ∷ t ∷ r) = if lt_64 s.id n.id then s ∷ insert_behind n (t ∷ r) else s ∷ n ∷ t ∷ r

-- Whether the id is taken for one that exists, and the list after the registration.
unfoldable pub insert : Slave → List Slave → Bool × List Slave
unfolding seen insert_behind
insert n [] = (false, n ∷ [])
insert n (s ∷ r) =
    if lt_64 n.id s.id
    then (false, n ∷ s ∷ r)
    else if seen n.id false (s ∷ r)
    then (true, s ∷ r)
    else (false, insert_behind n (s ∷ r))

-- The loop of tpcmaster_get_primary from a place of the list on, with the test behind it.
unfoldable pub primary_from : ℕ → ℕ → List Slave → Run ℕ
primary_from h i [] = fault
primary_from h i (s ∷ []) = if le_64 s.id h then done 0 else done i
primary_from h i (s ∷ t ∷ r) =
    let rest = primary_from h (i + 1) (t ∷ r) in if le_64 s.id h then rest else done i

module _ (u : Memory) where
  unfoldable pub init : ℕ → ℕ → ℕ → ℕ → Option (Master u)
  init slave_capacity redundancy num_sets elem_per_set = elim (Cache.init u num_sets elem_per_set) [
    | none ↦ none
    | some c ↦ some (record {
      slave_capacity = slave_capacity;
      slave_count = 0;
      redundancy = if ltb slave_capacity redundancy then slave_capacity else redundancy;
      slaves = [];
      cache = c;
    })
  ]

  -- `atoi` is the C library's.
  unfoldable pub register : (Text → ℕ) → Master u → Message → Message → Run (Master u × Message)
  unfolding insert
  register atoi m req reply = elim req.value [
    | none ↦ fault
    | some value ↦ elim req.key [
      | none ↦ fault
      | some key ↦
          let n : Slave = record {
            id = hash_64_bit (value ++ (b':' ∷ key));
            host = key;
            port = atoi value;
          } in
          let r = insert n m.slaves in
          if leb m.slave_capacity m.slave_count
          then done (m, record reply { message = some generic_error })
          else done (
            record m {
              slaves = r.1;
              slave_count = if r.0 then m.slave_count else (m.slave_count + 1) % 2 ^ 32;
            },
            record { type = resp; key = none; value = none; message = some success },
          )
    ]
  ]

  unfoldable pub get_primary : Master u → Text → Run ℕ
  unfolding primary_from
  get_primary m k = primary_from (hash_64_bit k) 0 m.slaves

  unfoldable pub get_successor : Master u → ℕ → ℕ
  get_successor m i = if i + 1 == length m.slaves then 0 else i + 1

  unfoldable pub clear_cache : Master u → Master u
  clear_cache m = record m { cache = Cache.clear u m.cache }
