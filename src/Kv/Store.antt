-- ===== src/Kv/Store.antt =====
-- The store on disk (group1/kvstore/src/server/kvstore.c): find_entry, kvstore_haskey, kvstore_get,
-- kvstore_put_check, kvstore_put, kvstore_del_check, kvstore_del, kvstore_init and kvstore_clean.
-- The entries of one hash form a chain of files, `hash-0.entry`, `hash-1.entry` and so on. A loop
-- over a chain takes fuel.
pub mod Chain
pub mod Entries
pub mod Swap
pub mod Find
pub mod Write
use sum.Prelude.{
  ℕ, zero, suc, ◌+◌, ◌-◌, ◌%◌, ◌^◌, Bool, not, Option, none, some, [], ◌∷◌, ◌++◌, ℤ, pos, negsuc,
  is_negative, to_int, ltb, ◌==◌, if◌then◌else◌, length, drop, Run, done, spin, ◌>>=◌,
}
use sum.Kv.Text.{Text, hash, str_eq, c_str}
use sum.Kv.Codes.{err_keylen, err_vallen, err_nokey, err_filaccess, max_keylen, max_vallen}
use sum.Kv.Disk.{FileSystem, absent, locked, file, KvEntry, after}

-- The key and the value in the bytes of an entry: `entry->data`, and what follows its NUL.
unfoldable pub entry_key : KvEntry → Text
entry_key e = c_str e.bytes

unfoldable pub entry_value : KvEntry → Text
entry_value e = c_str (drop (suc (length (c_str e.bytes))) e.bytes)

-- The entry that kvstore_put writes.
unfoldable pub make_entry : Text → Text → KvEntry
make_entry k v = record { length = length k + length v + 2; bytes = k ++ (0 ∷ (v ++ 0 ∷ [])) }

-- `counter + 1` in an `unsigned int`.
abbrev pub next : ℕ → ℕ
next i = (i + 1) % 2 ^ 32

module _ (fs : FileSystem) where
  -- The loop of find_entry, from a place of the chain on.
  unfoldable pub find_from : ℕ → fs.Disk → Text → ℕ → ℕ → Run (ℤ × Option Text)
  find_from zero d k h i = spin
  find_from (suc fuel) d k h i = elim (fs.entry_at d h i) [
    | absent ↦ done (err_nokey, none)
    | locked ↦ done (err_filaccess, none)
    | file e ↦
        let rest = find_from fuel d k h (next i) in
        if str_eq k (entry_key e) then done (to_int i, some (entry_value e)) else rest
  ]

  -- The place of the key in its chain or an error, and the value if the key was found.
  unfoldable pub find_entry : ℕ → fs.Disk → Text → Run (ℤ × Option Text)
  find_entry fuel d k =
      if ltb max_keylen (length k)
      then done (err_keylen, none)
      else if not (fs.has_dir d)
      then done (err_filaccess, none)
      else find_from fuel d k (hash k) 0

  unfoldable pub haskey : ℕ → fs.Disk → Text → Run Bool
  haskey fuel d k = do r ← find_entry fuel d k; done (not (is_negative r.0))

  unfoldable pub get : ℕ → fs.Disk → Text → Run (ℤ × Option Text)
  get fuel d k = do
    r ← find_entry fuel d k
    done (if is_negative r.0 then (r.0, r.1) else (pos 0, r.1))

  unfoldable pub put_check : fs.Disk → Text → Text → ℤ
  put_check d k v =
      if ltb max_keylen (length k)
      then err_keylen
      else if ltb max_vallen (length v)
      then err_vallen
      else if not (fs.has_dir d)
      then err_filaccess
      else pos 0

  -- `while (stat(filename, &st) != -1)`: the first free place of the chain from `i` on.
  unfoldable pub end_from : ℕ → fs.Disk → ℕ → ℕ → Run ℕ
  end_from zero d h i = spin
  end_from (suc fuel) d h i =
      let rest = end_from fuel d h (next i) in
      elim (fs.entry_at d h i) [ absent ↦ done i | locked ↦ rest | file e ↦ rest ]

  -- The place where kvstore_put writes: that of the key, or the end of the chain.
  unfoldable pub place : ℕ → fs.Disk → Text → ℤ → Run ℕ
  unfolding end_from
  place fuel d k (pos i) = done i
  place fuel d k (negsuc e) = end_from fuel d (hash k) 0

  -- Whether the entry was written whole is not looked at.
  unfoldable pub put : ℕ → fs.Disk → Text → Text → Run (ℤ × fs.Disk)
  unfolding put_check
  put fuel d k v = if is_negative (put_check d k v) then done (put_check d k v, d) else do
    r ← find_entry fuel d k
    i ← place fuel d k r.0
    if fs.can_create d (hash k) i
        then done (pos 0, after (fs.write_entry d (hash k) i (make_entry k v)))
        else done (err_filaccess, d)

  unfoldable pub del_check : ℕ → fs.Disk → Text → Run ℤ
  del_check fuel d k =
      if ltb max_keylen (length k)
      then done err_keylen
      else if not (fs.has_dir d)
      then done err_filaccess
      else do has ← haskey fuel d k; done (if has then pos 0 else err_nokey)

  -- The change on disk that a delete makes: the file goes if it is the last of the chain, and else
  -- the last file takes its place. `last` is the place behind the chain.
  unfoldable pub unlink : fs.Disk → ℕ → ℕ → ℕ → Option fs.Disk
  unlink d h i last =
      if last == next i then fs.remove_entry d h i else fs.rename_entry d h (last - 1) i

  unfoldable pub del_at : ℕ → fs.Disk → Text → ℤ → Run (ℤ × fs.Disk)
  unfolding unlink
  del_at fuel d k (negsuc e) = done (negsuc e, d)
  del_at fuel d k (pos i) = do
    last ← end_from fuel d (hash k) (next i)
    elim (unlink d (hash k) i last) [
      | none ↦ done (pos (fs.errno d), d)
      | some d' ↦ done (pos 0, d')
    ]

  unfoldable pub del : ℕ → fs.Disk → Text → Run (ℤ × fs.Disk)
  del fuel d k = do r ← find_entry fuel d k; del_at fuel d k r.0

  -- The status, and the directory made if it was not there.
  unfoldable pub init : fs.Disk → ℤ × fs.Disk
  init d =
      if fs.has_dir d
      then (pos 0, d)
      else elim (fs.make_dir d) [ none ↦ (pos (fs.errno d), d) | some d' ↦ (pos 0, d') ]

  unfoldable pub clean : fs.Disk → ℤ × fs.Disk
  clean d = (pos 0, if fs.has_dir d then fs.clean d else d)
