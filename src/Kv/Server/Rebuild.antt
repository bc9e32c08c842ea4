-- ===== src/Kv/Server/Rebuild.antt =====
-- Recovery of a server after a crash (kvserver_rebuild_state and send_msg of
-- group1/kvstore/src/server/kvserver.c). The pointers `entry` and `prev` start unset. What it sends
-- to the master is a part of the result; the connection is not modelled.
use native.Mathlib.Nat.{zero-add}
use sum.Prelude.{
  ℕ, zero, suc, ◌+◌, ◌≤◌, ◌<◌, ◌^◌, ◌≡◌, refl, Bool, true, false, Option, none, some, List, [], ◌∷◌,
  ◌++◌, ℤ, is_zero, inl, inr, ◌⊎◌, if◌then◌else◌, length, length-append, Run, done, fault, spin,
  ◌>>=◌, arith,
}
use sum.Kv.Text.{Text, hash, IsText}
use sum.Kv.Codes.{
  MsgType, putreq, delreq, ack, abort, commit, vote_commit, vote_abort, tpc_wait, tpc_ready,
  max_keylen, max_vallen, err_filaccess,
}
use sum.Kv.Memory.{Memory}
use sum.Kv.Disk.{FileSystem, KvEntry, LogEntry}
use sum.Kv.Log
use sum.Kv.Log.{next_id, iterate_next, iterate_begin}
use sum.Kv.Log.Files.{From, here, there}
use sum.Kv.Store.Write.{put_at, WritesWhole, file_opens}
use sum.Kv.Store.Find.{put_check_lem}
use sum.Kv.Server.{Server, put, put_check, del, del_check}
use sum.Kv.Server.Coherent.{IsServer}
use sum.Kv.Server.Update.{server_put_lem}
use sum.Kv.Server.Commit.{put_code, next_state}
use sum.Kv.Server.Logged.{
  IsLogged, put_entry, mark_entry, last_or, last_or-append_one, put_entry_read,
}
use sum.Kv.Server.Handle.{
  Unset, Pointer, entry, unset, null, to_pointer, deref, data_key, data_value,
}

-- COMMIT and ABORT
abbrev pub is_decision : MsgType → Bool
is_decision commit = true
is_decision abort = true
is_decision _ = false

module _ (u : Memory) (fs : FileSystem) where
  -- The loop over the log: the last entry, and the last that is not a decision.
  unfoldable pub scan :
      ℕ → fs.Disk → Log.Log → Pointer → Pointer → Run (Pointer × Pointer × Log.Log)
  scan zero d l e p = spin
  scan (suc fuel) d l e p = elim (Log.iterate_has_next fs d l) [
    | true ↦ deref (to_pointer (Log.iterate_next fs d l).0) >>= λ x.
        scan fuel d (Log.iterate_next fs d l).1 (entry x)
          (if is_decision x.type then p else entry x)
    | false ↦ done (e, p, l)
  ]

  -- The vote that is sent again, and the state that goes with it.
  unfoldable pub vote_again : Server u fs → ℤ → Server u fs × Option MsgType
  vote_again s err =
      if is_zero err
      then (record s { state = tpc_wait }, some vote_commit)
      else (record s { state = tpc_ready }, some vote_abort)

  -- The request before a COMMIT is carried out again.
  unfoldable pub redo : ℕ → Unset → Server u fs → LogEntry → Run (Server u fs × Option MsgType)
  redo fuel x s p = data_value x p >>= λ v. elim p.type [
    | putreq ↦ put u fs fuel s (data_key x p) v >>= λ r. done (r.1, some ack)
    | delreq ↦ del u fs fuel s (data_key x p) >>= λ r. done (r.1, some ack)
    | _ ↦ done (s, some ack)
  ]

  -- What the last entry asks for.
  unfoldable pub resume :
      ℕ → Unset → Server u fs → LogEntry → Pointer → Run (Server u fs × Option MsgType)
  unfolding redo vote_again
  resume fuel x s e p = elim e.type [
    | delreq ↦ del_check u fs fuel s (data_key x e) >>= λ err. done (vote_again s err)
    | putreq ↦ data_value x e >>= λ v. done (vote_again s (put_check u fs s (data_key x e) v))
    | commit ↦ deref p >>= λ r. redo fuel x s r
    | _ ↦ done (s, none)
  ]

  unfoldable pub test_entry :
      ℕ → Unset → Server u fs → Pointer → Pointer → Run (Server u fs × Option MsgType)
  unfolding resume
  test_entry fuel x s unset p = fault
  test_entry fuel x s null p = done (s, none)
  test_entry fuel x s (entry e) p = resume fuel x s e p

  -- The server, and the message that it sends, if any.
  unfoldable pub rebuild_state : ℕ → Unset → Server u fs → Run (Server u fs × Option MsgType)
  unfolding scan test_entry
  rebuild_state fuel x s = scan fuel s.disk (Log.iterate_begin fs s.log) unset unset >>= λ r.
      test_entry fuel x (record s { log = r.2 }) r.0 r.1

abbrev last_request : Pointer → List LogEntry → Pointer
last_request p [] = p
last_request p (e ∷ ls) = last_request (if is_decision e.type then p else entry e) ls

last_request-append_one :
    (p : Pointer) (ls : List LogEntry) (e : LogEntry)
    → last_request p (ls ++ e ∷ []) ≡ (if is_decision e.type then last_request p ls else entry e)
last_request-append_one p [] e = refl
last_request-append_one p (f ∷ ls) e =
    last_request-append_one (if is_decision f.type then p else entry f) ls e

module _ (u : Memory) (fs : FileSystem) where
  scan-From :
      (fuel : ℕ) (d : fs.Disk) (l : Log.Log) (e p : Pointer) (ls : List LogEntry)
      → From fs d l.iterpos ls
      → l.iterpos + length ls < 2 ^ 63
      → length ls < fuel
      → scan u fs fuel d l e p
        ≡ done (last_or e ls, last_request p ls, record l { iterpos = l.iterpos + length ls })
  unfolding scan iterate_next
  scan-From zero d l e p ls at short f = elim f [ ]
  scan-From (suc fuel) d l e p [] at short f = ground (arith, here fs d l.iterpos [] at)
  scan-From (suc fuel) d l e p (x ∷ ls) at short f =
      let l' : Log.Log = record l { iterpos = next_id l.iterpos } in
      ground (
        arith,
        here fs d l.iterpos (x ∷ ls) at,
        scan-From fuel d l' (entry x) (if is_decision x.type then p else entry x) ls
            (there fs d l.iterpos x ls at (omega arith)) (omega arith) (omega arith),
      )

  -- The loop over the whole log of a server.
  scan_lem :
      (fuel : ℕ) (s : Server u fs) (ls : List LogEntry)
      → IsLogged u fs s ls
      → length ls < fuel
      → scan u fs fuel s.disk (iterate_begin fs s.log) unset unset
        ≡ done (last_or unset ls, last_request unset ls, record (s.log) { iterpos = length ls })
  unfolding iterate_begin
  scan_lem fuel s ls h f =
      let all : From fs s.disk 0 ls = λ i. rw zero-add (h.files.at i) in
      let l : Log.Log = record (s.log) { iterpos = 0 } in
      let size : 0 + length ls ≡ length ls = omega arith in
      rw size at (scan-From fuel s.disk l unset unset ls all (omega (arith, h.files.short)) f)

  -- The server after the loop.
  abbrev pub rewound : Server u fs → ℕ → Server u fs
  rewound s n = record s { log = record (s.log) { iterpos = n } }

  rewound-IsServer :
      (s : Server u fs) (es : ℕ → List KvEntry) (n : ℕ)
      → IsServer u fs s es
      → IsServer u fs (rewound s n) es
  rewound-IsServer s es n h = record {
    cache = h.cache;
    store = h.store;
    coherent = h.coherent;
    small = h.small;
  }

  -- Recovery of a well-formed server whose log ends with a PUTREQ of strings, with fuel for the
  -- log and a value shorter than the greatest length: the server votes as it did, to commit
  -- exactly if the key and the value are within the limits, is waiting again exactly then, and
  -- holds the values and the log that it held.
  pub rebuild-putreq :
      (fuel : ℕ) (x : Unset) (s : Server u fs) (es : ℕ → List KvEntry) (ls : List LogEntry)
      (k v : Text)
      → IsServer u fs s es
      → IsLogged u fs s (ls ++ put_entry k v ∷ [])
      → length ls + 1 < fuel
      → IsText k
      → IsText v
      → length v < max_vallen
      → (s' : Server u fs) × (rebuild_state u fs fuel x s
          ≡ done (s', some (if is_zero (put_code k v) then vote_commit else vote_abort)))
        × (s'.state ≡ next_state (put_code k v))
        × IsServer u fs s' es
        × IsLogged u fs s' (ls ++ put_entry k v ∷ [])
  unfolding rebuild_state put_check
  rebuild-putreq fuel x s es ls k v h l f hk hv vl =
      let n = length (ls ++ put_entry k v ∷ []) in
      let size = length-append ls (put_entry k v ∷ []) in
      let found = scan_lem fuel s (ls ++ put_entry k v ∷ []) l (omega (arith, size)) in
      let (key, value) = put_entry_read x k v hk hv in
      (
        record (rewound s n) { state = next_state (put_code k v) },
        ground (
          arith,
          found,
          last_or-append_one unset ls (put_entry k v),
          key,
          value,
          put_check_lem fs s.disk es k v h.store,
        ),
        refl,
        record { cache = h.cache; store = h.store; coherent = h.coherent; small = h.small },
        record { files = l.files; numbered = l.numbered },
      )

  -- Recovery of a well-formed server whose log ends with a PUTREQ of strings, the key within the
  -- limit and the value shorter than the greatest length, and its COMMIT, with fuel for the log,
  -- fuel and room for the chain of the key, and the entry of the key written whole if its file
  -- can be opened: the server acknowledges, and it holds the new value, or the file of the key
  -- cannot be opened, the put returns ERRFILACCESS and all values are unchanged. The state is the
  -- one that it had before the recovery.
  pub rebuild-commit :
      (fuel : ℕ) (x : Unset) (s : Server u fs) (es : ℕ → List KvEntry) (ls : List LogEntry)
      (k v : Text)
      → IsServer u fs s es
      → IsLogged u fs s ((ls ++ put_entry k v ∷ []) ++ mark_entry commit ∷ [])
      → length ls + 2 < fuel
      → IsText k
      → IsText v
      → length k ≤ max_keylen
      → length v < max_vallen
      → length (es (hash k)) < fuel
      → length (es (hash k)) + 1 < 2 ^ 31
      → WritesWhole fs s.disk es k v
      → ((s' : Server u fs) × (rebuild_state u fs fuel x s ≡ done (s', some ack))
          × IsServer u fs s' (put_at es k v)
          × (s'.state ≡ s.state))
        ⊎ ((s' : Server u fs) × (rebuild_state u fs fuel x s ≡ done (s', some ack))
            × (put u fs fuel s' k v ≡ done (err_filaccess, s'))
            × (file_opens fs s.disk es k ≡ false)
            × IsServer u fs s' es
            × (s'.state ≡ s.state))
  unfolding rebuild_state
  rebuild-commit fuel x s es ls k v h l f hk hv kl vl fc rc w =
      let before = ls ++ put_entry k v ∷ [] in
      let all = before ++ mark_entry commit ∷ [] in
      let size = length-append ls (put_entry k v ∷ []) in
      let size' = length-append before (mark_entry commit ∷ []) in
      let found = scan_lem fuel s all l (omega (arith, size, size')) in
      let (key, value) = put_entry_read x k v hk hv in
      let last = last_or-append_one unset before (mark_entry commit) in
      let prev = last_request-append_one unset before (mark_entry commit) in
      let prev' = last_request-append_one unset ls (put_entry k v) in
      let h' = rewound-IsServer s es (length all) h in
      elim (server_put_lem u fs fuel (rewound s (length all)) es k v h' hk hv kl (omega arith) fc rc
        w) [
          | inl (fails, shut) ↦ inr (
            rewound s (length all),
            ground (arith, found, last, prev, prev', key, value, fails),
            fails,
            shut,
            h',
            refl,
          )
          | inr (c, d', made, h'') ↦ inl (
            record (rewound s (length all)) { cache = c; disk = d' },
            ground (arith, found, last, prev, prev', key, value, made),
            h'',
            refl,
          )
        ]

  -- Recovery of a server with an empty log, with fuel, reads a pointer that was never set.
  pub rebuild_empty :
      (fuel : ℕ) (x : Unset) (s : Server u fs)
      → IsLogged u fs s []
      → 0 < fuel
      → rebuild_state u fs fuel x s ≡ fault
  unfolding rebuild_state
  rebuild_empty fuel x s l f = ground (arith, scan_lem fuel s [] l f)
