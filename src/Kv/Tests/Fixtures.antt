-- ===== src/Kv/Tests/Fixtures.antt =====
-- The states of the tests: one stored key, an empty cache with one set, a log with one request, and
-- a ring of two slaves.
use sum.Prelude.{
  ℕ, zero, suc, ◌≤◌, ◌<◌, ◌^◌, ◌≡◌, refl, true, false, none, some, List, [], ◌∷◌, length, get_elem?,
  ◌==◌, if◌then◌else◌, arith, subst, pos, inl, inr, Option-cases,
}
use sum.Kv.Text.{Text, hash, str_eq, str_eq_iff}
use sum.Kv.Codes.{TpcState, tpc_wait, tpc_ready, Message, resp, max_vallen}
use sum.Kv.Disk.{file, KvEntry, LogEntry}
use sum.Kv.Memory.{memb}
use sum.Kv.CacheSet.{CacheSet, init}
use sum.Kv.CacheSet.Valid.{IsValid, IsLinked, init-IsValid, cached as set_cached}
use sum.Kv.Cache.{Cache, set_index}
use sum.Kv.Cache.Sets.{IsCache, cached, cached-hit, cached-miss}
use sum.Kv.Store.{make_entry}
use sum.Kv.Store.Chain
use sum.Kv.Store.Chain.{Chain, value_in, make_entry_roundtrip}
use sum.Kv.Store.Entries.{IsDistinct}
use sum.Kv.Store.Find.{Holds, stored}
use sum.Kv.Log.Files
use sum.Kv.Log.Files.{LogHolds}
use sum.Kv.Server.{Server}
use sum.Kv.Server.Coherent.{IsServer}
use sum.Kv.Server.Logged.{IsLogged, put_entry, del_entry}
use sum.Kv.Server.Handle.{Unset}
use sum.Kv.Tests.Tables.{rows}
use sum.Kv.Tests.Drive.{Files, drive, at_log}

abbrev pub key_a : Text
key_a = b'a' ∷ []

abbrev pub key_b : Text
key_b = b'b' ∷ b'b' ∷ []

abbrev pub value_x : Text
value_x = b'x' ∷ []

abbrev pub value_y : Text
value_y = b'y' ∷ b'y' ∷ []

-- The chains with the key `key_a` alone.
abbrev pub one_key : ℕ → List KvEntry
one_key h = if hash key_a == h then make_entry key_a value_x ∷ [] else []

-- The files of chains and of a log.
abbrev pub files_of : (ℕ → List KvEntry) → List LogEntry → Files
files_of es ls = record {
  dir = true;
  entries = λ h i. Chain.node_of (get_elem? (es h) i);
  logs = λ i. Files.node_of (get_elem? ls i);
}

single-IsDistinct : (e : KvEntry) → IsDistinct (e ∷ [])
single-IsDistinct e = record { same = λ i j a b p q r. single i j a b p q }
  where
    single :
        (i j : ℕ) (a b : KvEntry)
        → get_elem? (e ∷ []) i ≡ some a
        → get_elem? (e ∷ []) j ≡ some b
        → i ≡ j
    single zero zero a b p q = refl
    single zero (suc j) a b p q = cc
    single (suc i) j a b p q = cc

empty-IsDistinct : IsDistinct []
empty-IsDistinct = record { same = λ i j a b p q r. cc }

pub one_key-Holds : (ls : List LogEntry) → Holds drive (files_of one_key ls) one_key
one_key-Holds ls = record {
  dir = refl;
  chain = λ h. record { at = λ i. refl; short = ground arith };
  distinct = λ h.
      elim (hash key_a == h)
        as (λ b. IsDistinct (if b then make_entry key_a value_x ∷ [] else [])) [
          | true ↦ single-IsDistinct (make_entry key_a value_x)
          | false ↦ empty-IsDistinct
        ];
}

abbrev pub empty_set : CacheSet rows
empty_set = record { elem_per_set = 2; num_entries = 0; list = []; table = [] }

pub empty_set-IsValid : IsValid rows empty_set
unfolding init
empty_set-IsValid = (init-IsValid rows 2 empty_set (omega arith) refl).0

abbrev pub empty_cache : Cache rows
empty_cache = record { num_sets = 1; elem_per_set = 2; sets = empty_set ∷ [] }

only_set :
    (i : ℕ) (s : CacheSet rows)
    → get_elem? (empty_set ∷ []) i ≡ some s
    → IsValid rows s × (s.elem_per_set ≡ 2) × ((k : Text) → set_cached rows s k ≡ none)
unfolding init
only_set zero s p =
    let same : empty_set ≡ s = cc in
    subst
      (λ (t : CacheSet rows).
        IsValid rows t × (t.elem_per_set ≡ 2) × ((k : Text) → set_cached rows t k ≡ none))
      same (init-IsValid rows 2 empty_set (omega arith) refl)
only_set (suc i) s p = cc

pub empty_cache-IsCache : IsCache rows empty_cache
empty_cache-IsCache = record {
  sized = refl;
  some_set = omega arith;
  valid = λ i s p. let (v, size, empty) = only_set i s p in (v, size);
}

-- A server with one key stored, whose log holds a request.
abbrev pub server_with : List LogEntry → TpcState → Server rows drive
server_with ls st = record {
  cache = empty_cache;
  disk = files_of one_key ls;
  log = record { nextid = length ls; iterpos = 0 };
  use_tpc = true;
  state = st;
  hostname = key_a;
  port = 16200;
}

cold :
    (ls : List LogEntry) (k v : Text)
    → cached rows empty_cache k ≡ some v
    → stored one_key k ≡ some v
cold ls k v h = elim (Option-cases (get_elem? (empty_set ∷ []) (set_index 1 k))) [
  | inl miss ↦ absurd (ground (arith, cached-miss rows empty_cache k miss, h))
  | inr (s, found) ↦ absurd (
      ground
        (arith, cached-hit rows empty_cache k s found, (only_set (set_index 1 k) s found).2 k, h))
]

small_values : (k v : Text) → stored one_key k ≡ some v → length v ≤ max_vallen
unfolding stored value_in
small_values k v h =
    ground (arith, (make_entry_roundtrip key_a value_x (omega arith) (omega arith)).1)

pub server_with-IsServer :
    (ls : List LogEntry) (st : TpcState) → IsServer rows drive (server_with ls st) one_key
server_with-IsServer ls st = record {
  cache = empty_cache-IsCache;
  store = one_key-Holds ls;
  coherent = cold ls;
  small = small_values;
}

pub server_with-IsLogged :
    (ls : List LogEntry) (st : TpcState)
    → length ls < 2 ^ 63
    → IsLogged rows drive (server_with ls st) ls
server_with-IsLogged ls st h = record {
  files = record { at = λ i. refl; short = h };
  numbered = refl;
}

abbrev pub unset_locals : Unset
unset_locals = record { err = pos 7; behind = b'z' ∷ 0 ∷ [] }

-- The log entries of the server tests, and the drive after one more entry was logged.
abbrev pub put_logged : List LogEntry
put_logged = put_entry key_b value_y ∷ []

abbrev pub del_logged : List LogEntry
del_logged = del_entry key_a ∷ []

abbrev pub drive_with : List LogEntry → LogEntry → Files
drive_with ls e = record (files_of one_key ls) {
  logs = at_log (files_of one_key ls).logs (length ls) (file e);
}

abbrev pub waiting_put : Server rows drive
waiting_put = server_with put_logged tpc_wait

abbrev pub waiting_del : Server rows drive
waiting_del = server_with del_logged tpc_wait

abbrev pub idle : Server rows drive
idle = server_with [] tpc_ready

abbrev pub empty_reply : Message
empty_reply = record { type = resp; key = none; value = none; message = none }

-- A full set, whose older entry is marked.
abbrev pub full_set : CacheSet rows
full_set = record {
  elem_per_set = 2;
  num_entries = 2;
  list = key_a ∷ key_b ∷ [];
  table =
      (key_b, record { value = value_y; refbit = false })
      ∷ (key_a, record { value = value_x; refbit = true })
      ∷ [];
}

pub full_set-IsLinked : IsLinked rows full_set
unfolding memb str_eq
full_set-IsLinked = record {
  distinct = (refl, (refl, tt));
  agree = λ j.
      ground
        (arith, str_eq_iff j key_a, str_eq_iff j key_b, str_eq_iff key_a j, str_eq_iff key_b j);
}

pub full_set-IsValid : IsValid rows full_set
full_set-IsValid = record {
  linked = full_set-IsLinked;
  counted = refl;
  bounded = omega arith;
  two = omega arith;
  fits = omega arith;
}
