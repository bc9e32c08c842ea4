-- ===== src/Kv/Server/Handle.antt =====
-- The requests of a server (kvserver_handle_tpc, kvserver_handle_no_tpc and kvserver_handle of
-- group1/kvstore/src/server/kvserver.c). A null pointer that is read, a
-- local pointer that was never set, and a copy that overflows its buffer are faults.
use sum.Prelude.{
  ℕ, zero, suc, Bool, true, false, Option, none, some, List, ◌++◌, ℤ, is_zero, ltb, if◌then◌else◌,
  length, drop, Run, done, fault, spin, ◌>>=◌,
}
use sum.Kv.Text.{Text, c_str}
use sum.Kv.Codes.{
  MsgType, TpcState, Message, getreq, putreq, delreq, getresp, resp, ack, abort, commit,
  vote_commit, vote_abort, tpc_wait, tpc_ready, get_msg, success, invalid_request, max_vallen,
}
use sum.Kv.Memory.{Memory}
use sum.Kv.Disk.{FileSystem, LogEntry}
use sum.Kv.Log
use sum.Kv.Server.{Server, get, put, put_check, del, del_check}

-- What the C code reads without having set it: the local `err`, and the bytes that lie behind a log
-- entry in memory.
pub record Unset : Type 0 where
  pub err : ℤ
  pub behind : List ℕ

-- A local pointer to a log entry: never set, null, or an entry.
pub data Pointer : Type 0 where
  unset null : Pointer
  entry : LogEntry → Pointer

abbrev pub to_pointer : Option LogEntry → Pointer
to_pointer none = null
to_pointer (some e) = entry e

abbrev pub deref : Pointer → Run LogEntry
deref unset = fault
deref null = fault
deref (entry e) = done e

abbrev pub text_of : Option Text → Run Text
text_of none = fault
text_of (some t) = done t

-- The key of an entry, and the copy of what follows it into `char val[MAX_VALLEN]`.
unfoldable pub data_key : Unset → LogEntry → Text
data_key x e = c_str (e.bytes ++ x.behind)

unfoldable pub data_value : Unset → LogEntry → Run Text
data_value x e =
    let v = c_str (drop (suc (length (c_str (e.bytes ++ x.behind)))) (e.bytes ++ x.behind)) in
    if ltb (length v) max_vallen then done v else fault

-- The end of a handler: the message for its error, or success.
unfoldable pub finish : Message → ℤ → Message
finish m err = record m { message = some (if is_zero err then success else get_msg err) }

abbrev pub is_waiting : TpcState → Bool
is_waiting tpc_wait = true
is_waiting _ = false

module _ (u : Memory) (fs : FileSystem) where
  -- The loop over the log that keeps the last entry.
  unfoldable pub last_entry : ℕ → fs.Disk → Log.Log → Pointer → Run (Pointer × Log.Log)
  last_entry zero d l p = spin
  last_entry (suc fuel) d l p =
      let rest =
        last_entry fuel d (Log.iterate_next fs d l).1 (to_pointer (Log.iterate_next fs d l).0) in
      elim (Log.iterate_has_next fs d l) [ true ↦ rest | false ↦ done (p, l) ]

  -- A GETREQ, in both modes.
  unfoldable pub handle_get : ℕ → Server u fs → Message → Message → Run (Server u fs × Message)
  unfolding finish
  handle_get fuel s req m = do
    k ← text_of req.key
    r ← get u fs fuel s k
    let found : Message = record m { type = getresp; key = req.key; value = r.1 }
    done (r.2, finish (if is_zero r.0 then found else m) r.0)

  -- tpclog_log, whose status the handlers do not look at.
  unfoldable pub log_msg : Server u fs → MsgType → Option Text → Option Text → Run (Server u fs)
  log_msg s t k v = do r ← Log.log fs s.disk s.log t k v; done (record s { disk = r.1; log = r.2 })

  -- The vote on a request that was logged: the state that the server goes to, and the reply.
  unfoldable pub vote : Server u fs → Message → ℤ → Server u fs × Message
  unfolding finish
  vote s m err =
      if is_zero err
      then (record s { state = tpc_wait }, finish (record m { type = vote_commit }) err)
      else (record s { state = tpc_ready }, finish (record m { type = vote_abort }) err)

  unfoldable pub prepare_put : Server u fs → Message → Message → Run (Server u fs × Message)
  unfolding log_msg vote
  prepare_put s req m = do
    s' ← log_msg s putreq req.key req.value
    k ← text_of req.key
    v ← text_of req.value
    done (vote s' (record m { key = req.key; value = req.value }) (put_check u fs s' k v))

  unfoldable pub prepare_del : ℕ → Server u fs → Message → Message → Run (Server u fs × Message)
  unfolding log_msg vote
  prepare_del fuel s req m = do
    s' ← log_msg s delreq req.key none
    k ← text_of req.key
    err ← del_check u fs fuel s' k
    done (vote s' (record m { key = req.key }) err)

  -- What a commit does to the store for a log entry: `err` keeps its value for other types.
  unfoldable pub apply_entry : ℕ → Unset → Server u fs → LogEntry → Run (ℤ × Server u fs)
  unfolding data_key data_value
  apply_entry fuel x s e = do
    v ← data_value x e
    elim e.type [
      | putreq ↦ put u fs fuel s (data_key x e) v
      | delreq ↦ del u fs fuel s (data_key x e)
      | _ ↦ done (x.err, s)
    ]

  unfoldable pub handle_commit : ℕ → Unset → Server u fs → Message → Run (Server u fs × Message)
  unfolding last_entry log_msg apply_entry finish
  handle_commit fuel x s m = do
    r ← last_entry fuel s.disk (Log.iterate_begin fs s.log) unset
    s' ← log_msg (record s { log = r.1 }) commit none none
    e ← deref r.0
    a ← apply_entry fuel x s' e
    done (record (a.1) { state = tpc_ready }, finish (record m { type = ack }) a.0)

  -- An ABORT never sets `err`.
  unfoldable pub handle_abort : Unset → Server u fs → Message → Run (Server u fs × Message)
  unfolding log_msg finish
  handle_abort x s m = do
    s' ← log_msg s abort none none
    done (record s' { state = tpc_ready }, finish (record m { type = ack }) x.err)

  abbrev pub busy : Server u fs → Message → Run (Server u fs × Message)
  busy s m = done (s, record m { message = some invalid_request })

  unfoldable pub handle_tpc :
      ℕ → Unset → Server u fs → Message → Message → Run (Server u fs × Message)
  unfolding handle_get prepare_put prepare_del handle_commit handle_abort finish
  handle_tpc fuel x s req m =
      let m' : Message = record m { type = resp } in
      elim req.type [
        | getreq ↦ handle_get fuel s req m'
        | putreq ↦ if is_waiting s.state then busy s m' else prepare_put s req m'
        | delreq ↦ if is_waiting s.state then busy s m' else prepare_del fuel s req m'
        | commit ↦ handle_commit fuel x s m'
        | abort ↦ handle_abort x s m'
        | _ ↦ done (s, finish m' x.err)
      ]

  unfoldable pub handle_no_tpc :
      ℕ → Unset → Server u fs → Message → Message → Run (Server u fs × Message)
  unfolding handle_get finish
  handle_no_tpc fuel x s req m =
      let m' : Message = record m { type = resp } in
      elim req.type [
        | getreq ↦ handle_get fuel s req m'
        | putreq ↦ (do
          k ← text_of req.key
          v ← text_of req.value
          r ← put u fs fuel s k v
          done (r.1, finish m' r.0))
        | delreq ↦ (do k ← text_of req.key; r ← del u fs fuel s k; done (r.1, finish m' r.0))
        | _ ↦ done (s, finish m' x.err)
      ]

  -- A zeroed message.
  abbrev pub blank : Message
  blank = record { type = getreq; key = none; value = none; message = none }

  -- kvserver_handle: the request is `none` if it could not be parsed; the reply is sent back.
  unfoldable pub handle : ℕ → Unset → Server u fs → Option Message → Run (Server u fs × Message)
  unfolding handle_tpc handle_no_tpc
  handle fuel x s none = done (s, record blank { type = resp; message = some invalid_request })
  handle fuel x s (some req) =
      if s.use_tpc then handle_tpc fuel x s req blank else handle_no_tpc fuel x s req blank
