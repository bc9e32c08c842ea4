-- ===== src/Kv/Master/Ring.antt =====
-- The ring of slaves: tpcmaster_get_primary finds the place of a key, and tpcmaster_get_successor
-- goes round.
use native.Mathlib.Nat.{
  add-zero, zero-add, add-suc, mod-eq_of_lt, mod-eq-sub-mod, suc-mod, mod-lt, mod_self,
}
use native.Mathlib.Numerals.{add-one}
use sum.Prelude.{
  ℕ, zero, suc, ◌+◌, ◌-◌, ◌%◌, ◌≤◌, ◌<◌, ◌≡◌, ◌≢◌, refl, Option, none, some, List, [], ◌∷◌, ltb,
  ◌==◌, if◌then◌else◌, length, get_elem?, get_elem?-some, done, fault, ◌⊎◌, inl, inr, arith, ap,
  ◌∙◌, sym, Bool-cases, Option-cases,
}
use sum.Kv.Text.{Text, hash_64_bit}
use sum.Kv.Memory.{Memory}
use sum.Kv.Master.{Master, Slave, key_of, primary_from, get_primary, get_successor}

-- The place of the first slave with an id above the hash.
first_above : ℕ → List Slave → Option ℕ
first_above h [] = none
first_above h (s ∷ r) =
    if ltb (key_of h) (key_of s.id)
    then some 0
    else elim (first_above h r) [ none ↦ none | some i ↦ some (suc i) ]

-- What such a place says of the list.
abbrev Above : ℕ → List Slave → Option ℕ → Type 0
Above h ss none = (j : ℕ) (t : Slave) → get_elem? ss j ≡ some t → key_of t.id ≤ key_of h
Above h ss (some i) =
    (s : Slave) × (get_elem? ss i ≡ some s)
    × (key_of h < key_of s.id)
    × ((j : ℕ) (t : Slave) → j < i → get_elem? ss j ≡ some t → key_of t.id ≤ key_of h)

Above-step :
    (h : ℕ) (s : Slave) (r : List Slave) (o : Option ℕ)
    → key_of s.id ≤ key_of h
    → Above h r o
    → Above h (s ∷ r) (elim o [ none ↦ none | some i ↦ some (suc i) ])
Above-step h s r none le a = λ j t p. below j t p
  where
    below : (j : ℕ) (t : Slave) → get_elem? (s ∷ r) j ≡ some t → key_of t.id ≤ key_of h
    below zero t p = ground arith
    below (suc j) t p = a j t p
Above-step h s r (some i) le (t, at, above, before) = (t, at, above, below)
  where
    below : (j : ℕ) (v : Slave) → j < suc i → get_elem? (s ∷ r) j ≡ some v → key_of v.id ≤ key_of h
    below zero v lt p = ground arith
    below (suc j) v lt p = before j v (omega arith) p

first_above_lem : (h : ℕ) (ss : List Slave) → Above h ss (first_above h ss)
unfolding first_above
first_above_lem h [] = λ j t p. cc
first_above_lem h (s ∷ r) = elim (Bool-cases (ltb (key_of h) (key_of s.id))) [
  | inl above ↦ rw above (s, refl, ground arith, λ j t lt p. elim lt [ ])
  | inr other ↦ rw other (Above-step h s r (first_above h r) (ground arith) (first_above_lem h r))
]

abbrev place : ℕ → Option ℕ → ℕ
place n none = 0
place n (some i) = n + i

primary_from_lem :
    (h n : ℕ) (s : Slave) (r : List Slave)
    → primary_from h n (s ∷ r) ≡ done (place n (first_above h (s ∷ r)))
unfolding primary_from first_above
primary_from_lem h n s [] = ground arith
primary_from_lem h n s (t ∷ r) = elim (Option-cases (first_above h (t ∷ r))) [
  | inl miss ↦ ground (arith, primary_from_lem h (n + 1) t r, miss)
  | inr (i, hit) ↦ ground (arith, primary_from_lem h (n + 1) t r, hit)
]

primary-place :
    (ss : List Slave) (h : ℕ)
    → 0 < length ss
    → primary_from h 0 ss ≡ done (place 0 (first_above h ss))
primary-place [] h pos = elim pos [ ]
primary-place (s ∷ r) h pos = primary_from_lem h 0 s r

-- A number below twice the modulus.
wrapped : (a l : ℕ) → a < l + l → a % l ≡ (if ltb a l then a else a - l)
wrapped a l h = elim (Bool-cases (ltb a l)) [
  | inl low ↦ rw low (mod-eq_of_lt (ground arith))
  | inr high ↦ rw high (mod-eq-sub-mod (ground arith) ∙ mod-eq_of_lt (ground arith))
]

-- The slaves stand in the order of their ids.
pub record IsSorted (ss : List Slave) : Type 0 where
  pub order :
      (i j : ℕ) (s t : Slave)
      → i ≤ j
      → get_elem? ss i ≡ some s
      → get_elem? ss j ≡ some t
      → key_of s.id ≤ key_of t.id

module _ (u : Memory) (m : Master u) where
  -- On a sorted ring with a slave the primary of a key is a slave with the least id above the
  -- hash of the key, or the head if no id is above it; ids compare as signed 64-bit numbers.
  pub get_primary_lem :
      (k : Text)
      → 0 < length m.slaves
      → IsSorted m.slaves
      → (i : ℕ) × (s : Slave) × (get_primary u m k ≡ done i)
        × (get_elem? m.slaves i ≡ some s)
        × (((key_of (hash_64_bit k) < key_of s.id)
              × ((j : ℕ) (t : Slave)
                  → get_elem? m.slaves j ≡ some t
                  → key_of (hash_64_bit k) < key_of t.id
                  → key_of s.id ≤ key_of t.id))
            ⊎ ((i ≡ 0)
                × ((j : ℕ) (t : Slave)
                    → get_elem? m.slaves j ≡ some t
                    → key_of t.id ≤ key_of (hash_64_bit k))))
  unfolding get_primary
  get_primary_lem k h sorted =
      let ss = m.slaves in
      let found = first_above_lem (hash_64_bit k) ss in
      elim (Option-cases (first_above (hash_64_bit k) ss)) [
        | inr (i, hit) ↦
            let (s, at, above, before) = (rw hit at found) in
            (
              i,
              s,
              primary-place ss (hash_64_bit k) h ∙ ap done (rw hit (zero-add i)),
              at,
              inl (
                above,
                λ j t there higher. elim (Bool-cases (ltb j i)) [
                  | inl lower ↦ absurd (ground (arith, before j t (ground arith) there))
                  | inr later ↦ sorted.order i j s t (ground arith) at there
                ],
              ),
            )
        | inl miss ↦
            let (s, at) = get_elem?-some ss 0 h in
            (
              0,
              s,
              primary-place ss (hash_64_bit k) h ∙ ap done (rw miss refl),
              at,
              inr (refl, rw miss at found),
            )
      ]

  -- Without a slave there is no primary: the null head is read.
  pub get_primary_empty : (k : Text) → m.slaves ≡ [] → get_primary u m k ≡ fault
  unfolding get_primary primary_from
  get_primary_empty k h = rw h refl

  -- `n` steps along the ring.
  unfoldable pub steps : ℕ → ℕ → ℕ
  steps zero i = i
  steps (suc n) i = get_successor u m (steps n i)

  -- From a slave of the ring, `n` steps to the successor lead to the slave `n` places on, round
  -- the end.
  pub steps_lem : (n i : ℕ) → i < length m.slaves → steps n i ≡ (i + n) % length m.slaves
  unfolding steps get_successor
  steps_lem zero i h = rw add-zero (sym (mod-eq_of_lt h))
  steps_lem (suc n) i h =
      let l = length m.slaves in
      let here = steps_lem n i h in
      let next : (i + suc n) % l ≡ suc ((i + n) % l) % l = rw add-suc (suc-mod (i + n) l) in
      let below : (i + n) % l < l = mod-lt (i + n) (omega arith) in
      elim (Bool-cases (steps n i + 1 == l)) [
        | inl last ↦
            let full : suc ((i + n) % l) ≡ l = ground (arith, here) in
            rw last (sym (next ∙ ap (λ x. x % l) full ∙ mod_self l))
        | inr more ↦
            let room : suc ((i + n) % l) < l = ground (arith, here, below) in
            rw more (rw here (add-one _ ∙ sym (next ∙ mod-eq_of_lt room)))
      ]

  -- No slave comes up twice among the successors of a slave within one round.
  pub steps_distinct :
      (n n' i : ℕ) → i < length m.slaves → n < n' → n' < length m.slaves → steps n i ≢ steps n' i
  steps_distinct n n' i h lt fits e =
      let l = length m.slaves in
      let same : (i + n) % l ≡ (i + n') % l = sym (steps_lem n i h) ∙ e ∙ steps_lem n' i h in
      ground (arith, same, wrapped (i + n) l (omega arith), wrapped (i + n') l (omega arith))
