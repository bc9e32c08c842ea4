-- ===== src/Kv/Tests/Sets.antt =====
-- The theorems on a cache set at a full set.
use sum.Prelude.{
  ◌+◌, ◌≡◌, refl, true, false, none, some, [], ◌∷◌, if◌then◌else◌, length, pos, head?, arith,
}
use sum.Kv.CacheSet.{put, evict, clear}
use sum.Kv.CacheSet.Clear.{clear_lem, clear_stale}
use sum.Kv.CacheSet.Evict.{victim, evict_lem, refbit_of, first_clear, Evicted}
use sum.Kv.CacheSet.Put.{is_key, evicted_by, put_lem, put-IsValid}
use sum.Kv.CacheSet.Valid.{IsValid, cached}
use sum.Kv.Memory.{memb}
use sum.Kv.Tests.Fixtures.{key_a, key_b, value_x, full_set, full_set-IsLinked, full_set-IsValid}
use sum.Kv.Tests.Tables.{rows}
use sum.Kv.Text.{Text, str_eq}

abbrev key_c : Text
key_c = b'c' ∷ []

key_b-memb : memb key_b (key_a ∷ key_b ∷ []) ≡ true
unfolding memb str_eq
key_b-memb = refl

key_b-unmarked : refbit_of (rows.find full_set.table key_b) ≡ false
unfolding str_eq
key_b-unmarked = refl

key_b-victim : victim rows full_set.table (key_a ∷ key_b ∷ []) ≡ some key_b
unfolding victim first_clear str_eq
key_b-victim = refl

put_lem_example :
    ((put rows full_set key_c value_x).0 ≡ pos 0)
    × (cached rows (put rows full_set key_c value_x).1 key_b ≡ (
        if str_eq key_c key_b
        then some value_x
        else if is_key (evicted_by rows full_set key_c) key_b
        then none
        else cached rows full_set key_b))
put_lem_example = put_lem rows full_set key_c value_x key_b full_set-IsValid

put-IsValid_example :
    IsValid rows (put rows full_set key_c value_x).1
    × ((put rows full_set key_c value_x).1.elem_per_set ≡ full_set.elem_per_set)
put-IsValid_example = put-IsValid rows full_set key_c value_x full_set-IsValid

evict_lem_example :
    (v : Text) × (victim rows full_set.table (rows.items full_set.list) ≡ some v)
    × Evicted rows full_set
        (evict rows
          (length (rows.items full_set.list) + 1)
          full_set
          (head? (rows.items full_set.list)))
        v
evict_lem_example = evict_lem rows full_set full_set-IsLinked (omega arith)

clear_lem_example :
    ((j : Text) → cached rows (clear rows full_set) j ≡ none)
    × (rows.items (clear rows full_set).list ≡ [])
    × ((clear rows full_set).num_entries ≡ full_set.num_entries)
clear_lem_example = clear_lem rows full_set full_set-IsLinked

clear_stale_example : ¬ IsValid rows (clear rows full_set)
clear_stale_example = clear_stale rows full_set full_set-IsValid (omega arith)
