-- ===== src/Kv/Tests/Masters.antt =====
-- The theorems on the master at a ring of two slaves.
use sum.Prelude.{
  ℕ, zero, suc, ◌≤◌, ◌<◌, ◌≡◌, refl, true, Option, none, some, [], ◌∷◌, ◌==◌, if◌then◌else◌, length,
  get_elem?, done, ◌⊎◌, arith,
}
use sum.Kv.Cache.{Cache}
use sum.Kv.Cache.Sets.{cached}
use sum.Kv.Codes.{Message, getreq, ack, vote_abort, vote_commit, putreq}
use sum.Kv.Master.{Master, Slave, get_primary, key_of, primary_from}
use sum.Kv.Master.Replicas.{IsFirst, replica, handle_get_lem}
use sum.Kv.Master.Request.{Network, answered, handle_get}
use sum.Kv.Master.Ring.{get_primary_lem, IsSorted}
use sum.Kv.Tests.Fixtures.{key_a, key_b, value_x, empty_cache, empty_cache-IsCache, empty_reply}
use sum.Kv.Tests.Tables.{rows}
use sum.Kv.Text.{Text, hash_64_bit}

abbrev low : Slave
low = record { id = 10; host = key_a; port = 9000 }

abbrev high : Slave
high = record { id = 30; host = key_b; port = 9001 }

abbrev middle : Slave
middle = record { id = 20; host = key_b; port = 9002 }

abbrev ring : Master rows
ring = record {
  slave_capacity = 3;
  slave_count = 2;
  redundancy = 2;
  slaves = low ∷ high ∷ [];
  cache = empty_cache;
}

ring-IsSorted : IsSorted ring.slaves
ring-IsSorted = record { order = λ i j s t le p q. in_order i j s t le p q }
  where
    in_order :
        (i j : ℕ) (s t : Slave)
        → i ≤ j
        → get_elem? (low ∷ high ∷ []) i ≡ some s
        → get_elem? (low ∷ high ∷ []) j ≡ some t
        → key_of s.id ≤ key_of t.id
    in_order zero zero s t le p q = ground arith
    in_order zero (suc zero) s t le p q = ground arith
    in_order zero (suc (suc j)) s t le p q = cc
    in_order (suc i) zero s t le p q = absurd (omega arith)
    in_order (suc zero) (suc zero) s t le p q = ground arith
    in_order (suc zero) (suc (suc j)) s t le p q = cc
    in_order (suc (suc i)) (suc j) s t le p q = cc

-- The second slave votes to abort, and each acknowledges the second decision message.
abbrev network : Network
network = record {
  reply = λ n i k. none;
  up_first = λ i. true;
  up_second = λ i. i == 0;
  vote = λ i. if i == 1 then some vote_abort else some vote_commit;
  answer = λ i n. if n == 1 then some ack else none;
}

abbrev put_request : Message
put_request = record { type = putreq; key = some key_a; value = some value_x; message = none }

abbrev lone : Master rows
lone = record ring { slave_count = 1; redundancy = 1; slaves = low ∷ [] }

lone-primary : get_primary rows lone key_a ≡ done 0
unfolding get_primary primary_from
lone-primary = ground arith

abbrev get_request : Message
get_request = record { type = getreq; key = some key_a; value = none; message = none }

abbrev port_of : Text → ℕ
port_of t = length t

handle_get_lem_example :
    (c : Cache rows) × (o : Option (Option Text)) × (handle_get rows network lone get_request
        empty_reply
      ≡ done (record lone { cache = c }, answered empty_reply key_a o))
    × (((v : Text) × (cached rows lone.cache key_a ≡ some v) × (o ≡ some (some v)))
        ⊎ ((cached rows lone.cache key_a ≡ none)
            × IsFirst (replica rows network lone key_a 0) 0 lone.redundancy o))
    × ((j : Text) → cached rows c j ≡ cached rows lone.cache j)
handle_get_lem_example =
    handle_get_lem rows network lone get_request empty_reply key_a 0 refl empty_cache-IsCache
      (omega arith) lone-primary (omega arith) (omega arith)

get_primary_lem_example :
    (i : ℕ) × (s : Slave) × (get_primary rows ring key_a ≡ done i)
    × (get_elem? ring.slaves i ≡ some s)
    × (((key_of (hash_64_bit key_a) < key_of s.id)
          × ((j : ℕ) (t : Slave)
              → get_elem? ring.slaves j ≡ some t
              → key_of (hash_64_bit key_a) < key_of t.id
              → key_of s.id ≤ key_of t.id))
        ⊎ ((i ≡ 0)
            × ((j : ℕ) (t : Slave)
                → get_elem? ring.slaves j ≡ some t
                → key_of t.id ≤ key_of (hash_64_bit key_a))))
get_primary_lem_example = get_primary_lem rows ring key_a (omega arith) ring-IsSorted
