-- ===== src/Kv/Server/Decide.antt =====
-- A COMMIT at a server: the last logged request is carried out.
use sum.Prelude.{
  ℕ, false, ◌+◌, ◌≤◌, ◌<◌, ◌^◌, ◌≡◌, refl, none, some, List, [], ◌∷◌, ◌++◌, ℤ, pos, inl, inr, ◌⊎◌,
  is_zero, if◌then◌else◌, length, length-append, done, fault, ◌>>=◌, arith,
}
use sum.Kv.Text.{Text, hash, IsText}
use sum.Kv.Codes.{
  Message, resp, ack, commit, tpc_ready, get_msg, success, max_keylen, max_vallen, err_filaccess,
}
use sum.Kv.Memory.{Memory}
use sum.Kv.Disk.{FileSystem, KvEntry, LogEntry}
use sum.Kv.Log.{make_log, is_loggable}
use sum.Kv.Store.Write.{put_at, WritesWhole, file_opens}
use sum.Kv.Server.{Server}
use sum.Kv.Server.Coherent.{IsServer}
use sum.Kv.Server.Update.{server_put_lem}
use sum.Kv.Server.Commit.{request}
use sum.Kv.Server.Logged.{
  IsLogged, Writes, put_entry, mark_entry, last_or-append_one, last_entry_lem, log_msg_lem,
  put_entry_read,
}
use sum.Kv.Server.Handle.{Unset, unset, handle_tpc, handle_commit, apply_entry, finish}

abbrev pub acked : Message → ℤ → Message
acked m err = record m { type = ack; message = some (if is_zero err then success else get_msg err) }

module _ (u : Memory) (fs : FileSystem) where
  -- The server after the loop over its log and the logging of the COMMIT.
  abbrev pub decided : Server u fs → fs.Disk → ℕ → Server u fs
  decided s d n = record s { disk = d; log = record { nextid = s.log.nextid + 1; iterpos = n } }

  rewound-IsServer :
      (s : Server u fs) (es : ℕ → List KvEntry) (n : ℕ)
      → IsServer u fs s es
      → IsServer u fs (record s { log = record (s.log) { iterpos = n } }) es
  rewound-IsServer s es n h = record {
    cache = h.cache;
    store = h.store;
    coherent = h.coherent;
    small = h.small;
  }

  module _ (fuel : ℕ) (x : Unset) (m : Message) where
    -- What a COMMIT does, up to the request that it carries out.
    commit_applies :
        (s : Server u fs) (d : fs.Disk) (es : ℕ → List KvEntry) (ls : List LogEntry) (e : LogEntry)
        → IsServer u fs s es
        → IsLogged u fs s (ls ++ e ∷ [])
        → length ls + 2 < 2 ^ 63
        → length ls + 1 < fuel
        → Writes u fs s (mark_entry commit) d
        → (handle_commit u fs fuel x s m ≡ (
            apply_entry u fs fuel x (decided s d (length (ls ++ e ∷ []))) e >>= λ a.
            done (record (a.1) { state = tpc_ready }, finish (record m { type = ack }) a.0)))
          × IsServer u fs (decided s d (length (ls ++ e ∷ []))) es
    unfolding handle_commit make_log is_loggable
    commit_applies s d es ls e h l room f w =
        let n = length (ls ++ e ∷ []) in
        let size = length-append ls (e ∷ []) in
        let found = last_entry_lem u fs fuel s (ls ++ e ∷ []) l (omega (arith, size)) in
        let s0 : Server u fs = record s { log = record (s.log) { iterpos = n } } in
        let (logs, h', l') =
          log_msg_lem u fs s0 d es (ls ++ e ∷ []) commit none none (mark_entry commit)
            (rewound-IsServer s es n h) (record { files = l.files; numbered = l.numbered })
            (omega (arith, size)) refl refl (record { opens = w.opens; written = w.written }) in
        (
          ground (arith, found, last_or-append_one unset ls e, logs),
          record { cache = h'.cache; store = h'.store; coherent = h'.coherent; small = h'.small },
        )

  module _ (fuel : ℕ) (x : Unset) (m : Message) where
    -- A COMMIT at a well-formed server whose log ends with a PUTREQ of two strings, the key
    -- within the limit and the value shorter than the greatest length, with fuel and room for the
    -- log and for the chain of the key, the COMMIT written to the log whole, and the entry of the
    -- key written whole if its file can be opened: the handler returns an acknowledgement, and
    -- the server is ready. Either the file of the key cannot be opened, no value changed and the
    -- reply is the message for ERRFILACCESS, which is the generic error, or the reply is a
    -- success and the server holds the new value for the key and its old values for all other
    -- keys.
    pub commit-putreq :
        (s : Server u fs) (d : fs.Disk) (es : ℕ → List KvEntry) (ls : List LogEntry) (k v : Text)
        → IsServer u fs s es
        → IsLogged u fs s (ls ++ put_entry k v ∷ [])
        → length ls + 2 < 2 ^ 63
        → length ls + 1 < fuel
        → Writes u fs s (mark_entry commit) d
        → IsText k
        → IsText v
        → length k ≤ max_keylen
        → length v < max_vallen
        → length (es (hash k)) < fuel
        → length (es (hash k)) + 1 < 2 ^ 31
        → WritesWhole fs d es k v
        → ((s' : Server u fs) × (handle_tpc u fs fuel x s (request commit none none) m
              ≡ done (s', acked (record m { type = resp }) err_filaccess))
            × (file_opens fs d es k ≡ false)
            × IsServer u fs s' es
            × (s'.state ≡ tpc_ready))
          ⊎ ((s' : Server u fs) × (handle_tpc u fs fuel x s (request commit none none) m
                ≡ done (s', acked (record m { type = resp }) (pos 0)))
              × IsServer u fs s' (put_at es k v)
              × (s'.state ≡ tpc_ready))
    unfolding handle_tpc apply_entry finish
    commit-putreq s d es ls k v h l room f w hk hv kl vl fc rc ww =
        let (run, h') =
          commit_applies fuel x (record m { type = resp }) s d es ls (put_entry k v) h l room f w in
        let (key, value) = put_entry_read x k v hk hv in
        elim (server_put_lem u fs fuel _ es k v h' hk hv kl (omega arith) fc rc ww) [
          | inl (fails, shut) ↦ inl (
            record (decided s d (length (ls ++ put_entry k v ∷ []))) { state = tpc_ready },
            ground (arith, run, key, value, fails),
            shut,
            record { cache = h'.cache; store = h'.store; coherent = h'.coherent; small = h'.small },
            refl,
          )
          | inr (c, d', made, h'') ↦ inr (
            record (decided s d (length (ls ++ put_entry k v ∷ []))) {
              state = tpc_ready;
              cache = c;
              disk = d';
            },
            ground (arith, run, key, value, made),
            record {
              cache = h''.cache;
              store = h''.store;
              coherent = h''.coherent;
              small = h''.small;
            },
            refl,
          )
        ]

    -- A COMMIT at a well-formed server after a logged PUTREQ of strings whose value has exactly
    -- the greatest length overflows the buffer that the value is copied to, given fuel for the
    -- log, room in it and the COMMIT written to it whole.
    pub commit-overflow :
        (s : Server u fs) (d : fs.Disk) (es : ℕ → List KvEntry) (ls : List LogEntry) (k v : Text)
        → IsServer u fs s es
        → IsLogged u fs s (ls ++ put_entry k v ∷ [])
        → length ls + 2 < 2 ^ 63
        → length ls + 1 < fuel
        → Writes u fs s (mark_entry commit) d
        → IsText k
        → IsText v
        → length v ≡ max_vallen
        → handle_tpc u fs fuel x s (request commit none none) m ≡ fault
    unfolding handle_tpc apply_entry
    commit-overflow s d es ls k v h l room f w hk hv long =
        let (run, h') =
          commit_applies fuel x (record m { type = resp }) s d es ls (put_entry k v) h l room f w in
        let (key, value) = put_entry_read x k v hk hv in ground (arith, run, key, value)
