-- ===== src/Kv/Master/Replicas.antt =====
-- Which replica answers a GETREQ that missed the cache of the master (tpcmaster_handle_get of
-- group1/kvstore/src/server/tpcmaster.c).
use native.Mathlib.Nat.{mod-eq_of_lt}
use sum.Prelude.{
  ℕ, zero, suc, ◌+◌, ◌-◌, ◌%◌, ◌≤◌, ◌<◌, ◌≡◌, refl, Option, none, some, length, done, arith, ap,
  ◌∙◌, sym, ◌⊎◌, inl, inr, Option-cases, Bool-cases, ◌==◌, subst,
}
use sum.Kv.Text.{Text}
use sum.Kv.Codes.{Message, max_keylen}
use sum.Kv.Memory.{Memory}
use sum.Kv.Cache.{Cache}
use sum.Kv.Cache.Sets
use sum.Kv.Cache.Sets.{IsCache, cached}
use sum.Kv.Master.{Master, get_primary, get_successor}
use sum.Kv.Master.Ring.{steps, steps_lem}
use sum.Kv.Master.Request.{Network, send_get, ask_next, answered, handle_get}

-- The first answer among the `r` tries from the `a`-th on, if there is one.
abbrev pub IsFirst : (ℕ → Option (Option Text)) → ℕ → ℕ → Option (Option Text) → Type 0
IsFirst f a r none = (n : ℕ) → a ≤ n → n < a + r → f n ≡ none
IsFirst f a r (some v) =
    (n : ℕ) × (a ≤ n) × (n < a + r) × (f n ≡ some v) × ((j : ℕ) → a ≤ j → j < n → f j ≡ none)

IsFirst-here :
    (f : ℕ → Option (Option Text)) (a r : ℕ) (v : Option Text)
    → f a ≡ some v
    → IsFirst f a (suc r) (some v)
IsFirst-here f a r v h = (a, omega arith, omega arith, h, λ j lo hi. absurd (omega arith))

IsFirst-later :
    (f : ℕ → Option (Option Text)) (a r : ℕ) (o : Option (Option Text))
    → f a ≡ none
    → IsFirst f (a + 1) r o
    → IsFirst f a (suc r) o
IsFirst-later f a r none h later = λ n lo hi. elim (Bool-cases (a == n)) [
  | inl same ↦ subst (λ x. f x ≡ none) (ground arith) h
  | inr other ↦ later n (ground arith) (omega arith)
]
IsFirst-later f a r (some v) h (n, lo, hi, hit, before) = (
  n,
  omega arith,
  omega arith,
  hit,
  λ j low high. elim (Bool-cases (a == j)) [
    | inl same ↦ subst (λ x. f x ≡ none) (ground arith) h
    | inr other ↦ before j (ground arith) high
  ],
)

module _ (u : Memory) (net : Network) (m : Master u) (k : Text) where
  -- What the `n`-th replica answers, for the primary `i`.
  abbrev pub replica : ℕ → ℕ → Option (Option Text)
  replica i n = send_get net n ((i + n) % length m.slaves) k

  successor_lem :
      (i n : ℕ)
      → i < length m.slaves
      → get_successor u m ((i + n) % length m.slaves) ≡ (i + (n + 1)) % length m.slaves
  unfolding steps
  successor_lem i n h =
      ap (get_successor u m) (sym (steps_lem u m n i h))
      ∙ steps_lem u m (suc n) i h
      ∙ ap (λ x. x % length m.slaves) (omega arith)

  ask_next-hit :
      (left n p : ℕ) (v : Option Text)
      → send_get net n (get_successor u m p) k ≡ some v
      → ask_next u net (suc left) n m p k ≡ some v
  unfolding ask_next
  ask_next-hit left n p v h = ground (arith, h)

  ask_next-miss :
      (left n p : ℕ)
      → send_get net n (get_successor u m p) k ≡ none
      → ask_next u net (suc left) n m p k ≡ ask_next u net left (n + 1) m (get_successor u m p) k
  unfolding ask_next
  ask_next-miss left n p h = ground (arith, h)

  ask_next-IsFirst :
      (left i n : ℕ)
      → i < length m.slaves
      → IsFirst
          (replica i)
          (n + 1)
          left
          (ask_next u net left (n + 1) m ((i + n) % length m.slaves) k)
  unfolding ask_next
  ask_next-IsFirst zero i n h = λ j lo hi. absurd (omega arith)
  ask_next-IsFirst (suc left) i n h =
      let p = (i + n) % length m.slaves in
      let next = successor_lem i n h in
      let same : send_get net (n + 1) (get_successor u m p) k ≡ replica i (n + 1) =
        ap (λ j. send_get net (n + 1) j k) next in
      elim (Option-cases (replica i (n + 1))) [
        | inr (v, hit) ↦
            subst (IsFirst (replica i) (n + 1) (suc left))
              (sym (ask_next-hit left (n + 1) p v (same ∙ hit)))
              (IsFirst-here (replica i) (n + 1) left v hit)
        | inl miss ↦
            subst (IsFirst (replica i) (n + 1) (suc left))
              (sym (
                ask_next-miss left (n + 1) p (same ∙ miss)
                ∙ ap (λ j. ask_next u net left (n + 1 + 1) m j k) next))
              (IsFirst-later (replica i) (n + 1) left _ miss (ask_next-IsFirst left i (n + 1) h))
      ]

  -- The primary, and then its successors.
  asks-IsFirst :
      (i r : ℕ)
      → i < length m.slaves
      → 0 < r
      → (o : Option (Option Text)) × ((elim (send_get net 0 i k) [
        | some v ↦ some v
        | none ↦ ask_next u net (r - 1) 1 m i k
      ])
          ≡ o)
        × IsFirst (replica i) 0 r o
  asks-IsFirst i r h some_try =
      let start : (i + 0) % length m.slaves ≡ i =
        ap (λ x. x % length m.slaves) (omega arith) ∙ mod-eq_of_lt h in
      let first : replica i 0 ≡ send_get net 0 i k = ap (λ j. send_get net 0 j k) start in
      let tries : suc (r - 1) ≡ r = omega arith in
      let later : IsFirst (replica i) (0 + 1) (r - 1) (ask_next u net (r - 1) 1 m i k) =
        subst (λ j. IsFirst (replica i) (0 + 1) (r - 1) (ask_next u net (r - 1) (0 + 1) m j k))
          start (ask_next-IsFirst (r - 1) i 0 h) in
      elim (Option-cases (send_get net 0 i k)) [
        | inr (v, hit) ↦ (
          some v,
          rw hit refl,
          subst (λ n. IsFirst (replica i) 0 n (some v)) tries
              (IsFirst-here (replica i) 0 (r - 1) v (first ∙ hit)),
        )
        | inl miss ↦ (
          ask_next u net (r - 1) 1 m i k,
          rw miss refl,
          subst (λ n. IsFirst (replica i) 0 n (ask_next u net (r - 1) 1 m i k)) tries
              (IsFirst-later (replica i) 0 (r - 1) _ (first ∙ miss) later),
        )
      ]

-- A GETREQ with a key within the limit at a master with a well-formed cache, a primary for the
-- key and a redundancy of one at least: the reply is the cached value, if there is one; else it
-- is that of the first slave that answers, of as many as the redundancy says, from the primary on
-- in the order of the ring, or the error of a missing key if none of them answers. The values of
-- the cache stay.
pub handle_get_lem :
    (u : Memory) (net : Network) (m : Master u) (req reply : Message) (k : Text) (i : ℕ)
    → req.key ≡ some k
    → IsCache u m.cache
    → length k ≤ max_keylen
    → get_primary u m k ≡ done i
    → i < length m.slaves
    → 0 < m.redundancy
    → (c : Cache u) × (o : Option (Option Text)) × (handle_get u net m req reply
        ≡ done (record m { cache = c }, answered reply k o))
      × (((v : Text) × (cached u m.cache k ≡ some v) × (o ≡ some (some v)))
          ⊎ ((cached u m.cache k ≡ none) × IsFirst (replica u net m k i) 0 m.redundancy o))
      × ((j : Text) → cached u c j ≡ cached u m.cache j)
unfolding handle_get get_primary
handle_get_lem u net m req reply k i asked h kl primary within some_try =
    let (c, looked, valid, keep) = Sets.cache_get_lem u m.cache k h in
    let m' : Master u = record m { cache = c } in
    let (o, asks, first) = asks-IsFirst u net m' k i m.redundancy within some_try in
    elim (Option-cases (cached u m.cache k)) [
      | inr (v, hit) ↦
          (c, some (some v), ground (arith, asked, looked, hit), inl (v, hit, refl), keep)
      | inl miss ↦
          (c, o, ground (arith, asked, looked, miss, primary, asks), inr (miss, first), keep)
    ]
