-- ===== src/Kv/Server/Commit.antt =====
-- The two phases of the commit protocol at a server: a vote on a logged request, and its commit or
-- abort.
use sum.Prelude.{
  ℕ, ◌+◌, ◌<◌, ◌^◌, ◌≡◌, refl, false, Option, none, some, List, [], ◌∷◌, ◌++◌, ℤ, pos, ◌⊎◌, is_zero,
  ltb, if◌then◌else◌, length, done, arith,
}
use sum.Kv.Text.{Text, hash}
use sum.Kv.Codes.{
  MsgType, TpcState, Message, putreq, delreq, resp, ack, abort, vote_commit, vote_abort, tpc_wait,
  tpc_ready, get_msg, success, invalid_request, max_keylen, max_vallen, err_keylen, err_vallen,
}
use sum.Kv.Memory.{Memory}
use sum.Kv.Disk.{FileSystem, KvEntry, LogEntry}
use sum.Kv.Log.{make_log, is_loggable}
use sum.Kv.Store.Find.{stored, status, put_check_lem, del_check_lem}
use sum.Kv.Server.{Server, put_check, del_check}
use sum.Kv.Server.Coherent.{IsServer}
use sum.Kv.Server.Logged.{IsLogged, Writes, put_entry, del_entry, mark_entry, logged, log_msg_lem}
use sum.Kv.Server.Handle.{
  Unset, handle_tpc, prepare_put, prepare_del, handle_abort, vote, finish, is_waiting,
}

-- The code of the check of a put, and the vote that it gives.
abbrev pub put_code : Text → Text → ℤ
put_code k v =
    if ltb max_keylen (length k)
    then err_keylen
    else if ltb max_vallen (length v)
    then err_vallen
    else pos 0

abbrev pub del_code : (ℕ → List KvEntry) → Text → ℤ
del_code es k = if ltb max_keylen (length k) then err_keylen else status (stored es k)

abbrev pub voted : Message → ℤ → Message
voted m err = record m {
  type = if is_zero err then vote_commit else vote_abort;
  message = some (if is_zero err then success else get_msg err);
}

abbrev pub next_state : ℤ → TpcState
next_state err = if is_zero err then tpc_wait else tpc_ready

abbrev pub request : MsgType → Option Text → Option Text → Message
request t k v = record { type = t; key = k; value = v; message = none }

module _ (u : Memory) (fs : FileSystem) where
  module _ (fuel : ℕ) (x : Unset) (m : Message) where
    -- A PUTREQ at a well-formed server that is not waiting, with room in the log and the request
    -- written to it whole: the vote is to commit and the server then waits if the key and the
    -- value are within the limits; else the vote is to abort, with the error in the message, and
    -- the server is ready. The request is the last of the log, and the server holds the values it
    -- held.
    pub handle-putreq :
        (s : Server u fs) (d : fs.Disk) (es : ℕ → List KvEntry) (ls : List LogEntry) (k v : Text)
        → IsServer u fs s es
        → IsLogged u fs s ls
        → length ls + 1 < 2 ^ 63
        → is_waiting s.state ≡ false
        → Writes u fs s (put_entry k v) d
        → (handle_tpc u fs fuel x s (request putreq (some k) (some v)) m
            ≡ done (
              record (logged u fs s d) { state = next_state (put_code k v) },
              voted (record m { type = resp; key = some k; value = some v }) (put_code k v),
            ))
          × IsServer u fs (record (logged u fs s d) { state = next_state (put_code k v) }) es
          × IsLogged u fs
              (record (logged u fs s d) { state = next_state (put_code k v) })
              (ls ++ put_entry k v ∷ [])
    unfolding handle_tpc prepare_put vote finish put_check make_log is_loggable
    handle-putreq s d es ls k v h l room idle w =
        let (logs, h', l') =
          log_msg_lem u fs s d es ls putreq (some k) (some v) (put_entry k v) h l room refl refl
            w in
        let check = put_check_lem fs d es k v h'.store in
        (
          ground (arith, logs, check),
          record { cache = h'.cache; store = h'.store; coherent = h'.coherent; small = h'.small },
          record { files = l'.files; numbered = l'.numbered },
        )

    -- A DELREQ at a well-formed server that is not waiting, with fuel for the chain of the key,
    -- room in the log and the request written to it whole: the vote is to commit and the server
    -- then waits if the key is within the limit and stored; else the vote is to abort, with the
    -- error in the message, and the server is ready. The request is the last of the log, and the
    -- server holds the values it held.
    pub handle-delreq :
        (s : Server u fs) (d : fs.Disk) (es : ℕ → List KvEntry) (ls : List LogEntry) (k : Text)
        → IsServer u fs s es
        → IsLogged u fs s ls
        → length ls + 1 < 2 ^ 63
        → is_waiting s.state ≡ false
        → length (es (hash k)) < fuel
        → Writes u fs s (del_entry k) d
        → (handle_tpc u fs fuel x s (request delreq (some k) none) m
            ≡ done (
              record (logged u fs s d) { state = next_state (del_code es k) },
              voted (record m { type = resp; key = some k }) (del_code es k),
            ))
          × IsServer u fs (record (logged u fs s d) { state = next_state (del_code es k) }) es
          × IsLogged u fs
              (record (logged u fs s d) { state = next_state (del_code es k) })
              (ls ++ del_entry k ∷ [])
    unfolding handle_tpc prepare_del vote finish del_check make_log is_loggable
    handle-delreq s d es ls k h l room idle f w =
        let (logs, h', l') =
          log_msg_lem u fs s d es ls delreq (some k) none (del_entry k) h l room refl refl w in
        let check = del_check_lem fs fuel d es k h'.store f in
        (
          ground (arith, logs, check),
          record { cache = h'.cache; store = h'.store; coherent = h'.coherent; small = h'.small },
          record { files = l'.files; numbered = l'.numbered },
        )

    -- While it waits for a decision a server refuses every PUTREQ and DELREQ as invalid, and
    -- nothing changes.
    pub handle_busy :
        (s : Server u fs) (req : Message)
        → s.state ≡ tpc_wait
        → (req.type ≡ putreq) ⊎ (req.type ≡ delreq)
        → handle_tpc u fs fuel x s req m
          ≡ done (s, record m { type = resp; message = some invalid_request })
    unfolding handle_tpc
    handle_busy s req h t = ground (arith, h)

    -- An ABORT at a well-formed server, with room in the log and written to it whole, leaves
    -- every value as it was and the server ready, and the reply is an acknowledgement; its
    -- message is that of a code that was never set.
    pub handle-abort :
        (s : Server u fs) (d : fs.Disk) (es : ℕ → List KvEntry) (ls : List LogEntry)
        (k v : Option Text)
        → IsServer u fs s es
        → IsLogged u fs s ls
        → length ls + 1 < 2 ^ 63
        → Writes u fs s (mark_entry abort) d
        → (handle_tpc u fs fuel x s (request abort k v) m
            ≡ done (
              record (logged u fs s d) { state = tpc_ready },
              record m {
                type = ack;
                message = some (if is_zero x.err then success else get_msg x.err);
              },
            ))
          × IsServer u fs (record (logged u fs s d) { state = tpc_ready }) es
          × IsLogged u fs
              (record (logged u fs s d) { state = tpc_ready })
              (ls ++ mark_entry abort ∷ [])
    unfolding handle_tpc handle_abort finish make_log is_loggable
    handle-abort s d es ls k v h l room w =
        let (logs, h', l') =
          log_msg_lem u fs s d es ls abort none none (mark_entry abort) h l room refl refl w in
        (
          ground (arith, logs),
          record { cache = h'.cache; store = h'.store; coherent = h'.coherent; small = h'.small },
          record { files = l'.files; numbered = l'.numbered },
        )
