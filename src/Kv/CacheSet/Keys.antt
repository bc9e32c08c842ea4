-- ===== src/Kv/CacheSet/Keys.antt =====
-- The lists of keys behind a cache set, and when a set is well formed.
use sum.Prelude.{◌+◌, ◌≡◌, refl, true, false, List, [], ◌∷◌, ◌++◌, arith, if◌then◌else◌, length}
use sum.Kv.Text.{Text, str_eq, str_eq_iff}
use sum.Kv.Memory.{memb, without}

abbrev pub IsDistinct : List Text → Type 0
IsDistinct [] = Unit
IsDistinct (k ∷ l) = (memb k l ≡ false) × IsDistinct l

pub memb-append :
    (j : Text) (l m : List Text) → memb j (l ++ m) ≡ (if memb j l then true else memb j m)
unfolding memb
memb-append j [] m = refl
memb-append j (k ∷ l) m = ground (arith, memb-append j l m)

pub memb-without_ne :
    (k j : Text) (l : List Text) → str_eq k j ≡ false → memb j (without k l) ≡ memb j l
unfolding memb without
memb-without_ne k j [] h = refl
memb-without_ne k j (i ∷ l) h =
    ground (arith, memb-without_ne k j l h, str_eq_iff k j, str_eq_iff j i, str_eq_iff k i)

pub memb-without :
    (k j : Text) (l : List Text)
    → IsDistinct l
    → memb j (without k l) ≡ (if str_eq k j then false else memb j l)
unfolding memb without
memb-without k j [] d = ground arith
memb-without k j (i ∷ l) d =
    ground (arith, memb-without k j l d.1, str_eq_iff k j, str_eq_iff j i, str_eq_iff k i)

pub IsDistinct-without : (k : Text) (l : List Text) → IsDistinct l → IsDistinct (without k l)
unfolding without
IsDistinct-without k [] d = tt
IsDistinct-without k (i ∷ l) d = ground (arith, IsDistinct-without k l d.1, memb-without k i l d.1)

pub IsDistinct-append_one :
    (k : Text) (l : List Text) → IsDistinct l → memb k l ≡ false → IsDistinct (l ++ k ∷ [])
unfolding memb
IsDistinct-append_one k [] d h = (refl, tt)
IsDistinct-append_one k (i ∷ l) d h =
    ground (
      arith,
      IsDistinct-append_one k l d.1,
      memb-append i l (k ∷ []),
      str_eq_iff k i,
      str_eq_iff i k,
    )

pub length-without :
    (k : Text) (l : List Text) → memb k l ≡ true → length (without k l) + 1 ≡ length l
unfolding memb without
length-without k [] h = cc
length-without k (i ∷ l) h = ground (arith, length-without k l)
