-- ===== src/Kv/Memory.antt =====
-- The two container libraries that the cache set calls, uthash.h and utlist.h
-- (group1/kvstore/src/server), as an interface: their operations, with what their documentation
-- says of them. An entry is named by its key, which is written once, when the entry is made.
use sum.Prelude.{
  ◌≡◌, Bool, true, false, Option, none, some, List, [], ◌∷◌, ◌++◌, is_some, if◌then◌else◌,
}
use sum.Kv.Text.{Text, str_eq}

-- `struct kvcacheentry`
pub record Entry : Type 0 where
  pub value : Text
  pub refbit : Bool

-- The list without the first occurrence of a key.
unfoldable pub without : Text → List Text → List Text
without k [] = []
without k (j ∷ l) = if str_eq k j then l else j ∷ without k l

unfoldable pub memb : Text → List Text → Bool
memb k [] = false
memb k (j ∷ l) = if str_eq k j then true else memb k l

pub record Memory : Type 1 where
  -- A hash table of entries: HASH_FIND_STR, HASH_ADD_KEYPTR, a write through the pointer that
  -- HASH_FIND_STR returned, HASH_DEL, and the keys in the order in which HASH_ITER visits them.
  pub Table : Type 0
  pub null_table : Table
  pub find : Table → Text → Option Entry
  pub add : Table → Text → Entry → Table
  pub store : Table → Text → Entry → Table
  pub del : Table → Text → Table
  pub iter : Table → List Text
  pub find-null : (k : Text) → find null_table k ≡ none
  pub find-add :
      (t : Table) (k j : Text) (e : Entry)
      → find t k ≡ none
      → find (add t k e) j ≡ (if str_eq k j then some e else find t j)
  pub find-store :
      (t : Table) (k j : Text) (e : Entry)
      → is_some (find t k) ≡ true
      → find (store t k e) j ≡ (if str_eq k j then some e else find t j)
  pub find-del :
      (t : Table) (k j : Text) → find (del t k) j ≡ (if str_eq k j then none else find t j)
  pub memb-iter : (t : Table) (k : Text) → memb k (iter t) ≡ is_some (find t k)
  -- A doubly linked list of entries: its entries from the head on, DL_APPEND and DL_DELETE.
  pub DList : Type 0
  pub null_list : DList
  pub items : DList → List Text
  pub append : DList → Text → DList
  pub delete : DList → Text → DList
  pub items-null : items null_list ≡ []
  pub items-append : (l : DList) (k : Text) → items (append l k) ≡ items l ++ k ∷ []
  pub items-delete : (l : DList) (k : Text) → items (delete l k) ≡ without k (items l)
