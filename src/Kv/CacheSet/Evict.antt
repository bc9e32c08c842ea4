-- ===== src/Kv/CacheSet/Evict.antt =====
-- The eviction loop of kvcacheset_put: which entry leaves a full set (the second chance order of the
-- clock algorithm), and what stays.
use mathlib.Core.List.{append_assoc, append-nil}
use sum.Prelude.{
  ℕ, zero, suc, ◌+◌, ◌≤◌, ◌<◌, ◌≡◌, refl, Bool, true, false, Option, none, some, List, [], ◌∷◌,
  ◌++◌, arith, is_some, if◌then◌else◌, length, length-append, All, head?, inl, inr, Option-cases,
  Bool-cases, ap, sym, subst, ◌∙◌,
}
use sum.Kv.Text.{Text, str_eq, str_eq_iff, str_eq_refl}
use sum.Kv.Memory.{Memory, Entry, memb, without}
use sum.Kv.CacheSet.{CacheSet, evict, next_of}
use sum.Kv.CacheSet.Keys.{IsDistinct, memb-append, IsDistinct-append_one, length-without}
use sum.Kv.CacheSet.Valid.{IsLinked, cached, find-mark, del-IsLinked}

abbrev pub refbit_of : Option Entry → Bool
refbit_of none = false
refbit_of (some e) = e.refbit

module _ (u : Memory) where
  -- The first key of the list whose entry is not marked.
  unfoldable pub first_clear : u.Table → List Text → Option Text
  first_clear t [] = none
  first_clear t (k ∷ ks) = if refbit_of (u.find t k) then first_clear t ks else some k

  -- The key to evict: the first unmarked one, or the first of all.
  unfoldable pub victim : u.Table → List Text → Option Text
  victim t ks = elim (first_clear t ks) [ none ↦ head? ks | some k ↦ some k ]

  -- `s'` is `s` without the entry of `v`; marks may be cleared.
  pub record Evicted (s s' : CacheSet u) (v : Text) : Type 0 where
    pub gone : (j : Text) → cached u s' j ≡ (if str_eq v j then none else cached u s j)
    pub linked : IsLinked u s'
    pub shorter : length (u.items s'.list) + 1 ≡ length (u.items s.list)
    pub held : memb v (u.items s.list) ≡ true
    pub same_size : s'.elem_per_set ≡ s.elem_per_set
    pub same_count : s'.num_entries ≡ s.num_entries

  -- The state after a marked entry: its mark cleared, and moved to the end.
  abbrev spared : CacheSet u → Text → Entry → CacheSet u
  spared s k e = record s {
    list = u.append (u.delete s.list k) k;
    table = u.store s.table k (record e { refbit = false });
  }

  items-spared :
      (s : CacheSet u) (k : Text) (e : Entry) (rest : List Text)
      → u.items s.list ≡ k ∷ rest
      → u.items (spared s k e).list ≡ rest ++ k ∷ []
  unfolding without
  items-spared s k e rest h = rw (u.items-append, u.items-delete, h, str_eq_refl) refl

  find-spared :
      (s : CacheSet u) (k j : Text) (e : Entry)
      → u.find s.table k ≡ some e
      → u.find (spared s k e).table j
        ≡ (if str_eq k j then some (record e { refbit = false }) else u.find s.table j)
  find-spared s k j e h = find-mark u s k j e false h

  spared-IsLinked :
      (s : CacheSet u) (k : Text) (e : Entry) (rest : List Text)
      → u.items s.list ≡ k ∷ rest
      → u.find s.table k ≡ some e
      → IsLinked u s
      → IsLinked u (spared s k e)
  unfolding memb
  spared-IsLinked s k e rest h found l =
      let d : IsDistinct (k ∷ rest) = rw h at l.distinct in
      record {
        distinct = rw (items-spared s k e rest h) (IsDistinct-append_one k rest d.1 d.0);
        agree = λ j. rw (items-spared s k e rest h) (
            ground (
              arith,
              h,
              memb-append j rest (k ∷ []),
              find-spared s k j e found,
              l.agree j,
              str_eq_iff k j,
              str_eq_iff j k,
            ));
      }

  cached-spared :
      (s : CacheSet u) (k j : Text) (e : Entry)
      → u.find s.table k ≡ some e
      → cached u (spared s k e) j ≡ cached u s j
  unfolding cached
  cached-spared s k j e h = ground (arith, find-spared s k j e h, str_eq_iff k j)

  first_clear-spared :
      (s : CacheSet u) (k : Text) (e : Entry) (ks : List Text)
      → u.find s.table k ≡ some e
      → memb k ks ≡ false
      → first_clear (spared s k e).table ks ≡ first_clear s.table ks
  unfolding first_clear memb
  first_clear-spared s k e [] found h = refl
  first_clear-spared s k e (j ∷ ks) found h =
      ground (arith, find-spared s k j e found, first_clear-spared s k e ks found)

  cleared-spared :
      (s : CacheSet u) (k : Text) (e : Entry) (ks : List Text)
      → u.find s.table k ≡ some e
      → All (λ j. refbit_of (u.find s.table j) ≡ false) ks
      → All (λ j. refbit_of (u.find (spared s k e).table j) ≡ false) (ks ++ k ∷ [])
  cleared-spared s k e [] found h = (ground (arith, find-spared s k k e found, str_eq_refl k), tt)
  cleared-spared s k e (j ∷ ks) found h =
      (ground (arith, find-spared s k j e found, h.0), cleared-spared s k e ks found h.1)

  -- The entry at hand is not marked: it leaves, and the loop breaks.
  evict-clear :
      (fuel : ℕ) (s : CacheSet u) (k : Text) (e : Entry) (rest : List Text)
      → u.items s.list ≡ k ∷ rest
      → u.find s.table k ≡ some e
      → e.refbit ≡ false
      → IsLinked u s
      → Evicted s (evict u (suc fuel) s (some k)) k
  unfolding evict cached memb
  evict-clear fuel s k e rest h found clear l =
      rw (found, evict, clear)
        (record {
          gone = λ j. ground (arith, u.find-del s.table k j);
          linked = record {
            distinct = (del-IsLinked u s k l).distinct;
            agree = (del-IsLinked u s k l).agree;
          };
          shorter =
              rw u.items-delete (length-without k (u.items s.list) (l.agree k ∙ ap is_some found));
          held = l.agree k ∙ ap is_some found;
          same_size = refl;
          same_count = refl;
        })

  -- The entry at hand is marked: the loop goes on with the next one.
  evict-marked :
      (fuel : ℕ) (s : CacheSet u) (k : Text) (e : Entry) (rest : List Text)
      → u.items s.list ≡ k ∷ rest
      → u.find s.table k ≡ some e
      → e.refbit ≡ true
      → evict u (suc fuel) s (some k) ≡ evict u fuel (spared s k e) (head? rest)
  unfolding evict next_of
  evict-marked fuel s k e rest h found marked = ground (arith, h, str_eq_refl k)

  -- The choice from a list split into the keys not yet passed and the keys passed.
  choice : u.Table → List Text → List Text → Option Text
  choice t us ds = elim (first_clear t us) [ none ↦ head? (ds ++ us) | some k ↦ some k ]

  Evicted-spared :
      (s s' : CacheSet u) (k v : Text) (e : Entry) (rest : List Text)
      → u.items s.list ≡ k ∷ rest
      → u.find s.table k ≡ some e
      → IsLinked u s
      → Evicted (spared s k e) s' v
      → Evicted s s' v
  unfolding memb
  Evicted-spared s s' k v e rest h found l x = record {
    gone = λ j. ground (arith, x.gone j, cached-spared s k j e found);
    linked = x.linked;
    shorter =
        ground
          (arith, x.shorter, items-spared s k e rest h, length-append rest (k ∷ []), ap length h);
    held =
        ground (
          arith,
          x.held,
          items-spared s k e rest h,
          memb-append v rest (k ∷ []),
          h,
          str_eq_iff v k,
        );
    same_size = x.same_size;
    same_count = x.same_count;
  }

  found_of_memb :
      (s : CacheSet u) (k : Text) (rest : List Text)
      → u.items s.list ≡ k ∷ rest
      → IsLinked u s
      → (e : Entry) × (u.find s.table k ≡ some e)
  unfolding memb
  found_of_memb s k rest h l = elim (Option-cases (u.find s.table k)) [
    | inl miss ↦ absurd (ground (arith, miss, l.agree k, h, str_eq_refl k))
    | inr hit ↦ hit
  ]

  head?-append_one :
      (us ds : List Text) (k : Text)
      → 1 ≤ length us + length ds
      → head? (us ++ (ds ++ k ∷ [])) ≡ head? (us ++ ds)
  head?-append_one [] [] k h = absurd (omega arith)
  head?-append_one [] (d ∷ ds) k h = refl
  head?-append_one (x ∷ us) ds k h = refl

  choice-spared :
      (s : CacheSet u) (k : Text) (e : Entry) (us ds : List Text)
      → u.find s.table k ≡ some e
      → e.refbit ≡ true
      → memb k us ≡ false
      → choice s.table (k ∷ us) ds ≡ choice (spared s k e).table us (ds ++ k ∷ [])
  unfolding choice first_clear
  choice-spared s k e us ds found marked h =
      ground
        (arith, found, marked, first_clear-spared s k e us found h, append_assoc ds (k ∷ []) us)

  -- The loop ends by its `break`, for a list of two entries at least and fuel for one pass.
  evict_split :
      (us ds : List Text) (fuel : ℕ) (s : CacheSet u)
      → u.items s.list ≡ us ++ ds
      → IsLinked u s
      → All (λ j. refbit_of (u.find s.table j) ≡ false) ds
      → 2 ≤ length us + length ds
      → length us < fuel
      → (v : Text) × (choice s.table us ds ≡ some v)
        × Evicted s (evict u fuel s (head? (us ++ ds))) v
  unfolding choice first_clear
  evict_split us ds zero s h l c two f = elim f [ ]
  evict_split [] [] (suc fuel) s h l c two f = absurd (omega arith)
  evict_split [] (d ∷ ds) (suc fuel) s h l c two f =
      let (e, hit) = found_of_memb s d ds h l in
      (d, refl, evict-clear fuel s d e ds h hit (ground (arith, c.0, hit)) l)
  evict_split (k ∷ us) ds (suc fuel) s h l c two f =
      let (e, hit) = found_of_memb s k (us ++ ds) h l in
      elim (Bool-cases e.refbit) [
        | inr clear ↦ (k, ground (arith, hit), evict-clear fuel s k e (us ++ ds) h hit clear l)
        | inl marked ↦
            let d : IsDistinct (k ∷ (us ++ ds)) = rw h at l.distinct in
            let (v, chosen, x) =
              evict_split us (ds ++ k ∷ []) fuel (spared s k e)
                (items-spared s k e (us ++ ds) h ∙ append_assoc us ds (k ∷ []))
                (spared-IsLinked s k e (us ++ ds) h hit l) (cleared-spared s k e ds hit c)
                (omega (arith, length-append ds (k ∷ []))) (omega arith) in
            (
              v,
              choice-spared s k e us ds hit marked (ground (arith, d.0, memb-append k us ds))
                  ∙ chosen,
              rw
                  (
                    evict-marked fuel s k e (us ++ ds) h hit marked,
                    ← head?-append_one us ds k (omega arith),
                  )
                  (Evicted-spared s _ k v e (us ++ ds) h hit l x),
            )
      ]

  victim-choice : (t : u.Table) (ks : List Text) → choice t ks [] ≡ victim t ks
  unfolding choice victim
  victim-choice t ks = refl

  -- On a linked set of two entries at least the loop of a put over a full set removes one entry,
  -- `victim`, and no other: all other values stay, the list is one shorter, and list and table
  -- still hold the same keys.
  pub evict_lem :
      (s : CacheSet u)
      → IsLinked u s
      → 2 ≤ length (u.items s.list)
      → (v : Text) × (victim s.table (u.items s.list) ≡ some v)
        × Evicted s (evict u (length (u.items s.list) + 1) s (head? (u.items s.list))) v
  evict_lem s l two =
      let ks = u.items s.list in
      let whole : ks ++ [] ≡ ks = append-nil ks in
      let (v, chosen, x) =
        evict_split ks [] (length ks + 1) s (sym whole) l tt (omega arith) (omega arith) in
      (
        v,
        sym (victim-choice _ _) ∙ chosen,
        subst (λ l. Evicted s (evict u (length ks + 1) s (head? l)) v) whole x,
      )

  first_clear-none :
      (t : u.Table) (ks : List Text) (j : Text)
      → first_clear t ks ≡ none
      → memb j ks ≡ true
      → refbit_of (u.find t j) ≡ true
  unfolding first_clear memb
  first_clear-none t [] j h m = cc
  first_clear-none t (k ∷ ks) j h m = ground (arith, first_clear-none t ks j, str_eq_iff j k)

  first_clear-some :
      (t : u.Table) (ks : List Text) (v : Text)
      → first_clear t ks ≡ some v
      → refbit_of (u.find t v) ≡ false
  unfolding first_clear
  first_clear-some t [] v h = cc
  first_clear-some t (k ∷ ks) v h = ground (arith, first_clear-some t ks v)

  -- While some entry of the list is not marked, the entry that is chosen for eviction is not
  -- marked.
  pub victim_second_chance :
      (t : u.Table) (ks : List Text) (j v : Text)
      → memb j ks ≡ true
      → refbit_of (u.find t j) ≡ false
      → victim t ks ≡ some v
      → refbit_of (u.find t v) ≡ false
  unfolding victim
  victim_second_chance t ks j v m clear h =
      ground (arith, first_clear-none t ks j, first_clear-some t ks v)
