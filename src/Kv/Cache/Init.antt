-- ===== src/Kv/Cache/Init.antt =====
-- kvcache_init makes a well-formed cache that holds nothing, or refuses.
use sum.Prelude.{
  length-replicate, ℕ, zero, suc, ◌≤◌, ◌<◌, ◌^◌, ◌≡◌, refl, none, some, arith, inl, inr, ◌⊎◌,
  get_elem?, replicate, subst, ap, Option-cases, ◌∙◌, sym,
}
use sum.Kv.Text.{Text}
use sum.Kv.Memory.{Memory}
use sum.Kv.CacheSet
use sum.Kv.CacheSet.{CacheSet}
use sum.Kv.CacheSet.Valid.{IsValid, init-IsValid}
use sum.Kv.Cache.{Cache, init, init_sets, set_index}
use sum.Kv.Cache.Sets.{IsCache, cached, cached-miss, cached-hit}

get_elem?-replicate_same {ℓ} :
    {A : Type ℓ} (n j : ℕ) (a b : A) → get_elem? (replicate n a) j ≡ some b → a ≡ b
get_elem?-replicate_same zero j a b h = cc
get_elem?-replicate_same (suc n) zero a b h = cc
get_elem?-replicate_same (suc n) (suc j) a b h = get_elem?-replicate_same n j a b h

module _ (u : Memory) where
  init_sets-replicate :
      (i n : ℕ) (s : CacheSet u)
      → CacheSet.init u n ≡ some s
      → init_sets u i n ≡ some (replicate i s)
  unfolding init_sets
  init_sets-replicate zero n s h = refl
  init_sets-replicate (suc i) n s h = ground (arith, init_sets-replicate i n s h)

  abbrev empty_set : ℕ → CacheSet u
  empty_set n = record {
    elem_per_set = n;
    num_entries = 0;
    list = u.null_list;
    table = u.null_table;
  }

  set_init : (n : ℕ) → 2 ≤ n → (s : CacheSet u) × (CacheSet.init u n ≡ some s)
  unfolding CacheSet.init
  set_init n h = (empty_set n, ground arith)

  set_init-none : (n : ℕ) → n < 2 → CacheSet.init u n ≡ none
  unfolding CacheSet.init
  set_init-none n h = ground arith

  -- With one set at least, and two entries at least and less than 2^32 to a set, the
  -- initialisation makes a well-formed cache of so many sets that holds nothing.
  pub cache_init_lem :
      (num n : ℕ)
      → 0 < num
      → 2 ≤ n
      → n < 2 ^ 32
      → (c : Cache u) × (init u num n ≡ some c)
        × IsCache u c
        × (c.num_sets ≡ num)
        × ((k : Text) → cached u c k ≡ none)
  unfolding init
  cache_init_lem num n some_set two fits =
      let (s, made) = set_init n two in
      let (valid, size, empty) = init-IsValid u n s fits made in
      let c : Cache u = record { num_sets = num; elem_per_set = n; sets = replicate num s } in
      (
        c,
        ground (arith, init_sets-replicate num n s made),
        record {
          sized = length-replicate num s;
          some_set = some_set;
          valid = λ i t found.
              let same : s ≡ t = get_elem?-replicate_same num i s t found in
              (
                subst (IsValid u) same valid,
                sym (ap (λ (x : CacheSet u). x.elem_per_set) same) ∙ size,
              );
        },
        refl,
        λ k. elim (Option-cases (get_elem? (replicate num s) (set_index num k))) [
          | inl miss ↦ cached-miss u c k miss
          | inr (t, found) ↦
              let same : s ≡ t = get_elem?-replicate_same num _ s t found in
              cached-hit u c k t found ∙ rw (← same) (empty k)
        ],
      )

  -- Without a set, or with less than two entries to a set, nothing is made.
  pub init_refused : (num n : ℕ) → (num ≡ 0) ⊎ (n < 2) → init u num n ≡ none
  unfolding init init_sets
  init_refused zero n h = refl
  init_refused (suc num) zero h = ground arith
  init_refused (suc num) (suc n) h = ground (arith, set_init-none (suc n))
