-- ===== src/Kv/Store/Write.antt =====
-- The store as a map: what kvstore_put and kvstore_del change, and that they keep the chains whole.
use sum.Prelude.{
  ℕ, refl, ap, sym, Bool, true, ◌&&◌, ◌+◌, ◌≤◌, ◌<◌, ◌≡◌, ◌^◌, false, Option, none, some, List, pos,
  done, ◌⊎◌, ltb, ◌==◌, if◌then◌else◌, length, arith, ◌∙◌, inl, inr, Option-cases, Bool-cases,
}
use sum.Kv.Text.{Text, hash, str_eq, str_eq_iff, IsText}
use sum.Kv.Codes.{err_keylen, err_vallen, err_filaccess, max_keylen, max_vallen}
use sum.Kv.Disk.{FileSystem, KvEntry, Written, whole, cut, failed, after}
use sum.Kv.Store.{make_entry, put, place, put_check}
use sum.Kv.Store.Chain.{Chain, index_of, found_at, end_from-Chain, make_entry_roundtrip}
use sum.Kv.Store.Entries.{
  IsDistinct, index_of-FoundIn, put_in, place_of, get_elem?-put_in, length-put_in-le,
  value_in-put_in, IsDistinct-put_in,
}
use sum.Kv.Store.Swap.{swap_remove, value_in-swap_remove}
use sum.Kv.Store.Find.{Holds, stored, find_entry_lem, put_check_lem}

Written-cases {ℓ} :
    {A : Type ℓ} (x : Written A)
    → ((a : A) × (x ≡ whole a)) ⊎ ((a : A) × ((x ≡ cut a) ⊎ (x ≡ failed a)))
Written-cases (failed a) = inr (a, inr refl)
Written-cases (cut a) = inr (a, inl refl)
Written-cases (whole a) = inl (a, refl)

abbrev pub Chains : Type 0
Chains = ℕ → List KvEntry

-- The chains after a put.
unfoldable pub put_at : Chains → Text → Text → Chains
put_at es k v h = if hash k == h then put_in (make_entry k v) k (es h) else es h

abbrev removed : Option ℕ → List KvEntry → List KvEntry
removed none es = es
removed (some i) es = swap_remove i es

-- The chains after a delete.
unfoldable pub del_from : Chains → Text → Chains
del_from es k h = if hash k == h then removed (index_of k (es h)) (es h) else es h

-- In the chains after a put of strings the key has its value, and every other key the value it
-- had.
pub stored-put_at :
    (es : Chains) (k v j : Text)
    → IsText k
    → IsText v
    → stored (put_at es k v) j ≡ (if str_eq k j then some v else stored es j)
unfolding stored put_at
stored-put_at es k v j hk hv =
    let (key, value) = make_entry_roundtrip k v hk hv in
    ground (arith, value, value_in-put_in (make_entry k v) k j (es (hash j)) key, str_eq_iff k j)

-- In the chains after a delete from a chain without double keys the key is gone, and every other
-- key has the value it had.
pub stored-del_from :
    (es : Chains) (k j : Text)
    → IsDistinct (es (hash k))
    → stored (del_from es k) j ≡ (if str_eq k j then none else stored es j)
unfolding stored del_from
stored-del_from es k j d = elim (Option-cases (index_of k (es (hash k)))) [
  | inl miss ↦ ground (arith, miss, rw miss at (index_of-FoundIn k (es (hash k))), str_eq_iff k j)
  | inr (i, hit) ↦
      let (lt, e, at, key, value) = (rw hit at (index_of-FoundIn k (es (hash k)))) in
      ground (arith, hit, key, value_in-swap_remove i (es (hash k)) e j d at, str_eq_iff k j)
]

module _ (fs : FileSystem) where
  -- The place where a put writes.
  place_lem :
      (fuel : ℕ) (d : fs.Disk) (es : Chains) (k : Text)
      → Holds fs d es
      → length (es (hash k)) < fuel
      → place fs fuel d k (found_at (index_of k (es (hash k))) (stored es k)).0
        ≡ done (place_of k (es (hash k)))
  unfolding place place_of
  place_lem fuel d es k h f = elim (Option-cases (index_of k (es (hash k)))) [
    | inl miss ↦ ground (
      arith,
      miss,
      end_from-Chain fs fuel d (hash k) 0 (es (hash k)) (h.chain (hash k)) (omega arith) f,
    )
    | inr (i, hit) ↦ ground (arith, hit)
  ]

  put-Holds :
      (d d' : fs.Disk) (es : Chains) (k v : Text)
      → Holds fs d es
      → IsText k
      → IsText v
      → length (es (hash k)) + 1 < 2 ^ 31
      → fs.write_entry d (hash k) (place_of k (es (hash k))) (make_entry k v) ≡ whole d'
      → Holds fs d' (put_at es k v)
  unfolding put_at
  put-Holds d d' es k v h hk hv room w =
      let n = make_entry k v in
      record {
        dir =
            ap (λ x. fs.has_dir (after x)) (sym w)
            ∙ fs.has_dir-write d (hash k) (place_of k (es (hash k))) n
            ∙ h.dir;
        chain = λ g. record {
          at = λ i. ground (
            arith,
            fs.entry_at-write d d' (hash k) (place_of k (es (hash k))) g i n w,
            get_elem?-put_in n k (es g) i,
            (h.chain g).at i,
          );
          short = ground (arith, length-put_in-le n k (es g), (h.chain g).short);
        };
        distinct = λ g. elim (Bool-cases (hash k == g)) [
          | inl same ↦
              rw same
                (IsDistinct-put_in n k (es g) (make_entry_roundtrip k v hk hv).0 (h.distinct g))
          | inr other ↦ rw other (h.distinct g)
        ];
      }

  -- The file that a put writes, and its entry.
  abbrev pub file_opens : fs.Disk → Chains → Text → Bool
  file_opens d es k = fs.can_create d (hash k) (place_of k (es (hash k)))

  abbrev pub entry_write : fs.Disk → Chains → Text → Text → Written fs.Disk
  entry_write d es k v = fs.write_entry d (hash k) (place_of k (es (hash k))) (make_entry k v)

  -- The entry of a put is written whole if its file can be opened.
  abbrev pub WritesWhole : fs.Disk → Chains → Text → Text → Type 0
  WritesWhole d es k v =
      file_opens d es k ≡ true → (d' : fs.Disk) × (entry_write d es k v ≡ whole d')

  -- A put of strings within the limits, on a disk that holds chains without double keys, with
  -- fuel and room in the chain of the key: if the file cannot be opened, it returns ERRFILACCESS
  -- and changes nothing; if the entry is written whole, it returns 0 and leaves on disk the
  -- chains with the entry of the key written; and if the write fails or is cut short, it returns
  -- 0 all the same, and every other file is as before.
  pub store_put_lem :
      (fuel : ℕ) (d : fs.Disk) (es : Chains) (k v : Text)
      → Holds fs d es
      → IsText k
      → IsText v
      → length k ≤ max_keylen
      → length v ≤ max_vallen
      → length (es (hash k)) < fuel
      → length (es (hash k)) + 1 < 2 ^ 31
      → ((file_opens d es k ≡ false) × (put fs fuel d k v ≡ done (err_filaccess, d)))
        ⊎ ((d' : fs.Disk) × (entry_write d es k v ≡ whole d')
            × (put fs fuel d k v ≡ done (pos 0, d'))
            × Holds fs d' (put_at es k v))
        ⊎ ((d' : fs.Disk) × (file_opens d es k ≡ true)
            × ((entry_write d es k v ≡ cut d') ⊎ (entry_write d es k v ≡ failed d'))
            × (put fs fuel d k v ≡ done (pos 0, d'))
            × ((g j : ℕ)
                → (hash k == g && place_of k (es (hash k)) == j) ≡ false
                → fs.entry_at d' g j ≡ fs.entry_at d g j))
  unfolding put
  store_put_lem fuel d es k v h hk hv kl vl f room =
      let check : put_check fs d k v ≡ pos 0 = put_check_lem fs d es k v h ∙ ground arith in
      let find = find_entry_lem fs fuel d es k h kl f in
      let spot = place_lem fuel d es k h f in
      elim (Bool-cases (file_opens d es k)) [
        | inr shut ↦ inl (shut, ground (arith, check, find, spot, shut))
        | inl opened ↦ inr (elim (Written-cases (entry_write d es k v)) [
          | inl (d', w) ↦ inl (
            d',
            w,
            ground (arith, check, find, spot, opened, w),
            put-Holds d d' es k v h hk hv room w,
          )
          | inr (d', w) ↦ inr (
            d',
            opened,
            w,
            ground (arith, check, find, spot, opened, w),
            λ g j apart. elim w [
              | inl part ↦
                  ap (λ x. fs.entry_at (after x) g j) (sym part)
                  ∙ fs.entry_at-other d (hash k) (place_of k (es (hash k))) g j (make_entry k v)
                      apart
              | inr error ↦
                  ap (λ x. fs.entry_at (after x) g j) (sym error)
                  ∙ fs.entry_at-other d (hash k) (place_of k (es (hash k))) g j (make_entry k v)
                      apart
            ],
          )
        ])
      ]

  -- A key or a value that is too long is refused, and nothing changes.
  pub store_put_refused :
      (fuel : ℕ) (d : fs.Disk) (es : Chains) (k v : Text)
      → Holds fs d es
      → (max_keylen < length k) ⊎ (max_vallen < length v)
      → put fs fuel d k v ≡ done (if ltb max_keylen (length k) then err_keylen else err_vallen, d)
  unfolding put
  store_put_refused fuel d es k v h long = ground (arith, put_check_lem fs d es k v h)
