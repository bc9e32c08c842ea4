-- ===== src/Kv/Log.antt =====
-- The log of the commit protocol (group1/kvstore/src/server/tpclog.c): tpclog_init, tpclog_log,
-- tpclog_load_entry, tpclog_iterate_begin, tpclog_iterate_has_next, tpclog_iterate_next and
-- tpclog_clear_log. The loops over the files take fuel.
pub mod Files
use sum.Prelude.{
  ℕ, zero, suc, ◌+◌, ◌%◌, ◌^◌, ◌≡◌, Bool, true, false, not, Option, none, some, List, [], ◌∷◌, ◌++◌,
  ℤ, pos, if◌then◌else◌, length, Run, done, fault, spin, ◌>>=◌,
}
use sum.Kv.Text.{Text}
use sum.Kv.Codes.{MsgType, putreq, delreq, commit, abort, err_invldmsg, err_filaccess}
use sum.Kv.Disk.{FileSystem, Node, absent, locked, file, LogEntry, failed, cut, whole}

-- `tpclog_t`; both fields are `unsigned long`.
pub record Log : Type 0 where
  pub nextid : ℕ
  pub iterpos : ℕ

abbrev pub next_id : ℕ → ℕ
next_id n = (n + 1) % 2 ^ 64

-- The types that may be logged.
unfoldable pub is_loggable : MsgType → Bool
is_loggable putreq = true
is_loggable delreq = true
is_loggable abort = true
is_loggable commit = true
is_loggable _ = false

-- The entry that tpclog_log writes; it reads a null pointer if the key, or the value, is missing.
unfoldable pub make_log : MsgType → Option Text → Option Text → Run LogEntry
make_log putreq none v = fault
make_log putreq (some k) none = fault
make_log putreq (some k) (some v) = done (record {
  type = putreq;
  length = length k + 1 + (length v + 1);
  bytes = k ++ (0 ∷ (v ++ 0 ∷ []));
})
make_log delreq none v = fault
make_log delreq (some k) v =
    done (record { type = delreq; length = length k + 1; bytes = k ++ 0 ∷ [] })
make_log t k v = done (record { type = t; length = 0; bytes = [] })

module _ (fs : FileSystem) where
  -- `while (stat(filename, &st) != -1)`: the first number without a file.
  unfoldable pub end_from : ℕ → fs.Disk → ℕ → Run ℕ
  end_from zero d n = spin
  end_from (suc fuel) d n =
      let rest = end_from fuel d (next_id n) in
      elim (fs.log_at d n) [ absent ↦ done n | locked ↦ rest | file e ↦ rest ]

  unfoldable pub open_log : ℕ → fs.Disk → Run (ℤ × fs.Disk × Option Log)
  unfolding end_from
  open_log fuel d = do
    n ← end_from fuel d 0
    done (pos 0, d, some (record { nextid = n; iterpos = 0 }))

  -- The log is `none` if the directory could not be made.
  unfoldable pub init : ℕ → fs.Disk → Run (ℤ × fs.Disk × Option Log)
  unfolding open_log
  init fuel d = if fs.has_dir d then open_log fuel d else elim (fs.make_dir d) [
    | none ↦ done (pos (fs.errno d), d, none)
    | some d' ↦ open_log fuel d'
  ]

  -- `write` gives an `ssize_t` that is compared with an unsigned size: a write that fails, with
  -- -1, is taken for one that wrote enough.
  unfoldable pub log : fs.Disk → Log → MsgType → Option Text → Option Text → Run (ℤ × fs.Disk × Log)
  unfolding is_loggable make_log
  log d l t k v =
      if not (is_loggable t)
      then done (err_invldmsg, d, l)
      else if not (fs.can_open d l.nextid)
      then done (err_filaccess, d, l)
      else do
        e ← make_log t k v
        let l' : Log = record l { nextid = next_id l.nextid }
        elim (fs.write_log d l.nextid e) [
          | failed d' ↦ done (pos 0, d', l')
          | cut d' ↦ done (err_filaccess, d', l')
          | whole d' ↦ done (pos 0, d', l')
        ]

  unfoldable pub iterate_begin : Log → Log
  iterate_begin l = record l { iterpos = 0 }

  unfoldable pub iterate_has_next : fs.Disk → Log → Bool
  iterate_has_next d l = elim (fs.log_at d l.iterpos) [
    | absent ↦ false
    | locked ↦ true
    | file e ↦ true
  ]

  -- tpclog_load_entry: the entry, or `none` for a null pointer.
  unfoldable pub load_entry : Node LogEntry → Option LogEntry
  load_entry absent = none
  load_entry locked = none
  load_entry (file e) = some e

  unfoldable pub iterate_next : fs.Disk → Log → Option LogEntry × Log
  unfolding iterate_has_next load_entry
  iterate_next d l =
      if not (iterate_has_next d l)
      then (none, l)
      else (load_entry (fs.log_at d l.iterpos), record l { iterpos = next_id l.iterpos })

  -- The loop of tpclog_clear_log: the error, if a file could not be removed, and what is left.
  unfoldable pub clear_from : ℕ → fs.Disk → ℕ → Run (Option ℤ × fs.Disk)
  clear_from zero d n = spin
  clear_from (suc fuel) d n =
      let step : Run (Option ℤ × fs.Disk) = elim (fs.remove_log d n) [
        | none ↦ done (some (pos (fs.errno d)), d)
        | some d' ↦ clear_from fuel d' (next_id n)
      ] in
      elim (fs.log_at d n) [ absent ↦ done (none, d) | locked ↦ step | file e ↦ step ]

  unfoldable pub clear_log : ℕ → fs.Disk → Log → Run (ℤ × fs.Disk × Log)
  unfolding clear_from
  clear_log fuel d l = do
    r ← clear_from fuel d 0
    done (elim r.0 [ none ↦ (pos 0, r.1, record l { nextid = 0 }) | some e ↦ (e, r.1, l) ])
