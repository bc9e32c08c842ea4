-- ===== src/Kv/Store/Chain.antt =====
-- The chain of files of one hash as a list of entries, and the loops over it as functions of that
-- list.
use native.Mathlib.Nat.{add-zero, zero-add}
use sum.Prelude.{
  ℕ, zero, suc, ◌+◌, ◌≤◌, ◌<◌, ◌^◌, ◌≡◌, Option, none, some, List, [], ◌∷◌, ◌++◌, ℤ, pos,
  if◌then◌else◌, length, get_elem?, head?, drop, done, arith, ap, ◌∙◌, sym, get_elem?-drop,
  length-drop, inl, inr, Option-cases,
}
use sum.Kv.Text.{Text, str_eq, IsText, c_str-terminated, drop-terminated}
use sum.Kv.Codes.{err_nokey}
use sum.Kv.Disk.{FileSystem, Node, absent, file, KvEntry}
use sum.Kv.Store.{entry_key, entry_value, make_entry, next, find_from, end_from}

abbrev pub node_of : Option KvEntry → Node KvEntry
node_of none = absent
node_of (some e) = file e

-- The files of the chain of a hash hold the entries of a list, in order, and nothing comes after.
pub record Chain (fs : FileSystem) (d : fs.Disk) (h : ℕ) (es : List KvEntry) : Type 0 where
  pub at : (i : ℕ) → fs.entry_at d h i ≡ node_of (get_elem? es i)
  pub short : length es < 2 ^ 31

-- What find_entry finds in a list of entries: the place of the first entry with the key.
unfoldable pub index_of : Text → List KvEntry → Option ℕ
index_of k [] = none
index_of k (e ∷ es) =
    if str_eq k (entry_key e)
    then some 0
    else elim (index_of k es) [ none ↦ none | some i ↦ some (suc i) ]

unfoldable pub value_in : Text → List KvEntry → Option Text
value_in k [] = none
value_in k (e ∷ es) = if str_eq k (entry_key e) then some (entry_value e) else value_in k es

-- The result of find_entry for a key at a place.
abbrev pub found_at : Option ℕ → Option Text → ℤ × Option Text
found_at none v = (err_nokey, none)
found_at (some i) v = (pos i, v)

-- An entry that was made of two strings is read back: its key, and its value.
pub make_entry_roundtrip :
    (k v : Text)
    → IsText k
    → IsText v
    → (entry_key (make_entry k v) ≡ k) × (entry_value (make_entry k v) ≡ v)
unfolding entry_key entry_value make_entry
make_entry_roundtrip k v hk hv =
    let key = c_str-terminated k (v ++ 0 ∷ []) hk in
    (key, rw key (rw drop-terminated (c_str-terminated v [] hv)))

-- What a place says of the list: the key stands there, with the value that a search finds.
abbrev pub FoundIn : Text → List KvEntry → Option ℕ → Type 0
FoundIn k es none = value_in k es ≡ none
FoundIn k es (some i) =
    (i < length es)
    × (e : KvEntry) × (get_elem? es i ≡ some e)
    × (entry_key e ≡ k)
    × (value_in k es ≡ some (entry_value e))

module _ (fs : FileSystem) where
  shifted : ℕ → Option ℕ → Option ℕ
  shifted n none = none
  shifted n (some i) = some (n + i)

  -- The files from a place of the chain on.
  abbrev From : fs.Disk → ℕ → ℕ → List KvEntry → Type 0
  From d h n es = (i : ℕ) → fs.entry_at d h (n + i) ≡ node_of (get_elem? es i)

  here :
      (d : fs.Disk) (h n : ℕ) (es : List KvEntry)
      → From d h n es
      → fs.entry_at d h n ≡ node_of (head? es)
  here d h n [] at = rw add-zero at (at 0)
  here d h n (e ∷ es) at = rw add-zero at (at 0)

  there :
      (d : fs.Disk) (h n : ℕ) (e : KvEntry) (es : List KvEntry)
      → From d h n (e ∷ es)
      → n + 1 < 2 ^ 32
      → From d h (next n) es
  there d h n e es at b i =
      let step : next n + i ≡ n + suc i = omega arith in ap (fs.entry_at d h) step ∙ at (suc i)

  find_from_lem :
      (fuel : ℕ) (d : fs.Disk) (k : Text) (h n : ℕ) (es : List KvEntry)
      → From d h n es
      → n + length es < 2 ^ 31
      → length es < fuel
      → find_from fs fuel d k h n ≡ done (found_at (shifted n (index_of k es)) (value_in k es))
  unfolding find_from index_of value_in shifted
  find_from_lem zero d k h n es at short f = elim f [ ]
  find_from_lem (suc fuel) d k h n [] at short f = ground (arith, here d h n [] at)
  find_from_lem (suc fuel) d k h n (e ∷ es) at short f =
      let rest =
        find_from_lem fuel d k h (next n) es (there d h n e es at (omega arith)) (omega arith)
          (omega arith) in
      let step : next n ≡ suc n = omega arith in
      let first = here d h n (e ∷ es) at in
      elim (Option-cases (index_of k es)) [
        | inl miss ↦ ground (arith, first, rest, miss)
        | inr (i, hit) ↦ ground (arith, first, rest, hit)
      ]

  end_from_lem :
      (fuel : ℕ) (d : fs.Disk) (h n : ℕ) (es : List KvEntry)
      → From d h n es
      → n + length es < 2 ^ 31
      → length es < fuel
      → end_from fs fuel d h n ≡ done (n + length es)
  unfolding end_from
  end_from_lem zero d h n es at short f = elim f [ ]
  end_from_lem (suc fuel) d h n [] at short f = ground (arith, here d h n [] at)
  end_from_lem (suc fuel) d h n (e ∷ es) at short f = ground (
    arith,
    here d h n (e ∷ es) at,
    end_from_lem fuel d h (next n) es (there d h n e es at (omega arith)) (omega arith)
        (omega arith),
  )

  -- On a chain, and with fuel for its length, find_entry's loop returns the place of the key and its
  -- value, or the error.
  pub find_from-Chain :
      (fuel : ℕ) (d : fs.Disk) (k : Text) (h : ℕ) (es : List KvEntry)
      → Chain fs d h es
      → length es < fuel
      → find_from fs fuel d k h 0 ≡ done (found_at (index_of k es) (value_in k es))
  unfolding shifted
  find_from-Chain fuel d k h es c f =
      let all : From d h 0 es = λ i. rw zero-add (c.at i) in
      elim (Option-cases (index_of k es)) [
        | inl miss ↦
            ground (arith, miss, find_from_lem fuel d k h 0 es all (omega (arith, c.short)) f)
        | inr (i, hit) ↦
            ground (arith, hit, find_from_lem fuel d k h 0 es all (omega (arith, c.short)) f)
      ]

  -- The search for the end of a chain, from a place in it or behind its last file.
  pub end_from-Chain :
      (fuel : ℕ) (d : fs.Disk) (h n : ℕ) (es : List KvEntry)
      → Chain fs d h es
      → n ≤ length es
      → length es < fuel
      → end_from fs fuel d h n ≡ done (length es)
  end_from-Chain fuel d h n es c below f =
      let rest : From d h n (drop n es) =
        λ i. c.at (n + i) ∙ ap node_of (sym (get_elem?-drop n es i)) in
      let size : n + length (drop n es) ≡ length es = omega (arith, length-drop n es) in
      end_from_lem fuel d h n (drop n es) rest (omega arith) (omega arith) ∙ ap done size
