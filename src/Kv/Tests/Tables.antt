-- ===== src/Kv/Tests/Tables.antt =====
-- The container libraries of the cache set on lists, for the tests: a table is an association list,
-- the newest entry of a key first, and a doubly linked list is its list of keys.
use sum.Prelude.{◌≡◌, refl, Option, none, some, List, [], ◌∷◌, ◌++◌, is_some, if◌then◌else◌, arith}
use sum.Kv.Text.{Text, str_eq, str_eq_iff}
use sum.Kv.Memory.{Memory, Entry, without, memb}

abbrev pub Rows : Type 0
Rows = List (Text × Entry)

abbrev pub find_row : Rows → Text → Option Entry
find_row [] k = none
find_row ((j, e) ∷ t) k = if str_eq j k then some e else find_row t k

abbrev pub del_row : Rows → Text → Rows
del_row [] k = []
del_row ((j, e) ∷ t) k = let rest = del_row t k in if str_eq k j then rest else (j, e) ∷ rest

abbrev pub keys : Rows → List Text
keys [] = []
keys ((j, e) ∷ t) = j ∷ keys t

pub find-del_row :
    (t : Rows) (k j : Text) → find_row (del_row t k) j ≡ (if str_eq k j then none else find_row t j)
find-del_row [] k j = ground arith
find-del_row ((i, e) ∷ t) k j =
    ground (arith, find-del_row t k j, str_eq_iff k i, str_eq_iff i j, str_eq_iff k j)

pub memb-keys : (t : Rows) (k : Text) → memb k (keys t) ≡ is_some (find_row t k)
unfolding memb
memb-keys [] k = refl
memb-keys ((i, e) ∷ t) k = ground (arith, memb-keys t k, str_eq_iff k i, str_eq_iff i k)

abbrev pub rows : Memory
rows = record {
  Table = Rows;
  null_table = [];
  find = find_row;
  add = λ t k e. (k, e) ∷ t;
  store = λ t k e. (k, e) ∷ t;
  del = del_row;
  iter = keys;
  find-null = λ k. refl;
  find-add = λ t k j e h. refl;
  find-store = λ t k j e h. refl;
  find-del = find-del_row;
  memb-iter = memb-keys;
  DList = List Text;
  null_list = [];
  items = λ l. l;
  append = λ l k. l ++ k ∷ [];
  delete = λ l k. without k l;
  items-null = refl;
  items-append = λ l k. refl;
  items-delete = λ l k. refl;
}
