-- ===== src/Kv/Tests/Servers.antt =====
-- The theorems on a server at concrete states.
use sum.Prelude.{
  ℕ, zero, suc, ◌≡◌, refl, false, none, some, List, [], ◌∷◌, ◌++◌, if◌then◌else◌, length, pos,
  is_zero, replicate, ap, done, fault, ◌⊎◌, arith,
}
use sum.Kv.Cache.{Cache}
use sum.Kv.Codes.{
  resp, ack, commit, tpc_ready, err_filaccess, putreq, delreq, vote_commit, vote_abort, tpc_wait,
  tpc_init,
}
use sum.Kv.Disk.{LogEntry, after}
use sum.Kv.Server.{Server, put, get}
use sum.Kv.Server.Coherent.{IsServer, server_get_lem}
use sum.Kv.Server.Commit.{
  request, put_code, del_code, voted, next_state, handle-putreq, handle-delreq,
}
use sum.Kv.Server.Decide.{acked, commit-putreq, commit-overflow}
use sum.Kv.Server.Handle.{handle_tpc}
use sum.Kv.Server.Logged.{IsLogged, put_entry, del_entry, mark_entry, logged}
use sum.Kv.Server.Rebuild.{rebuild_state, rebuild-putreq, rebuild-commit}
use sum.Kv.Server.Update.{server_put_lem}
use sum.Kv.Store.Find.{stored, status}
use sum.Kv.Store.Write.{put_at, file_opens, entry_write}
use sum.Kv.Tests.Drive.{drive}
use sum.Kv.Tests.Fixtures.{
  key_a, key_b, value_y, one_key, server_with, server_with-IsServer, server_with-IsLogged,
  unset_locals, put_logged, drive_with, waiting_put, idle, empty_reply,
}
use sum.Kv.Tests.Tables.{rows}
use sum.Kv.Text.{Text, IsText}

-- A value of the greatest length.
abbrev long_value : Text
long_value = replicate 1024 b'x'

long-IsText : (n : ℕ) → IsText (replicate n b'x')
long-IsText zero = tt
long-IsText (suc n) = (omega arith, long-IsText n)

long-length : (n : ℕ) → length {A = ℕ} (replicate n b'x') ≡ n
long-length zero = refl
long-length (suc n) = ap suc (long-length n)

abbrev long_logged : List LogEntry
long_logged = put_entry key_b long_value ∷ []

abbrev commit_logged : List LogEntry
commit_logged = put_entry key_b value_y ∷ mark_entry commit ∷ []

abbrev crashed_put : Server rows drive
crashed_put = server_with put_logged tpc_init

abbrev crashed_commit : Server rows drive
crashed_commit = server_with commit_logged tpc_init

abbrev waiting_long : Server rows drive
waiting_long = server_with long_logged tpc_wait

commit-putreq_example :
    ((s' : Server rows drive) × (handle_tpc rows drive 4 unset_locals waiting_put
          (request commit none none)
          empty_reply
        ≡ done (s', acked (record empty_reply { type = resp }) err_filaccess))
      × (file_opens drive (drive_with put_logged (mark_entry commit)) one_key key_b ≡ false)
      × IsServer rows drive s' one_key
      × (s'.state ≡ tpc_ready))
    ⊎ ((s' : Server rows drive) × (handle_tpc rows drive 4 unset_locals waiting_put
            (request commit none none)
            empty_reply
          ≡ done (s', acked (record empty_reply { type = resp }) (pos 0)))
        × IsServer rows drive s' (put_at one_key key_b value_y)
        × (s'.state ≡ tpc_ready))
commit-putreq_example =
    commit-putreq rows drive 4 unset_locals empty_reply waiting_put
      (drive_with put_logged (mark_entry commit)) one_key [] key_b value_y
      (server_with-IsServer put_logged tpc_wait)
      (server_with-IsLogged put_logged tpc_wait (omega arith)) (omega arith) (omega arith)
      (record { opens = refl; written = refl }) (omega arith) (omega arith) (omega arith)
      (omega arith) (ground arith) (ground arith)
      (λ opened. (
        after (entry_write drive (drive_with put_logged (mark_entry commit)) one_key key_b value_y),
        refl,
      ))

commit-overflow_example :
    handle_tpc rows drive 4 unset_locals waiting_long (request commit none none) empty_reply ≡ fault
commit-overflow_example =
    commit-overflow rows drive 4 unset_locals empty_reply waiting_long
      (drive_with long_logged (mark_entry commit)) one_key [] key_b long_value
      (server_with-IsServer long_logged tpc_wait)
      (server_with-IsLogged long_logged tpc_wait (omega arith)) (omega arith) (omega arith)
      (record { opens = refl; written = refl }) (omega arith) (long-IsText 1024) (long-length 1024)

handle-putreq_example :
    (handle_tpc rows drive 4 unset_locals idle
        (request putreq (some key_b) (some value_y))
        empty_reply
      ≡ done (
        record (logged rows drive idle (drive_with [] (put_entry key_b value_y))) {
          state = next_state (put_code key_b value_y);
        },
        voted
            (record empty_reply { type = resp; key = some key_b; value = some value_y })
            (put_code key_b value_y),
      ))
    × IsServer rows drive
        (record (logged rows drive idle (drive_with [] (put_entry key_b value_y))) {
          state = next_state (put_code key_b value_y);
        })
        one_key
    × IsLogged rows drive
        (record (logged rows drive idle (drive_with [] (put_entry key_b value_y))) {
          state = next_state (put_code key_b value_y);
        })
        ([] ++ put_entry key_b value_y ∷ [])
handle-putreq_example =
    handle-putreq rows drive 4 unset_locals empty_reply idle
      (drive_with [] (put_entry key_b value_y)) one_key [] key_b value_y
      (server_with-IsServer [] tpc_ready) (server_with-IsLogged [] tpc_ready (omega arith))
      (omega arith) refl (record { opens = refl; written = refl })

handle-delreq_example :
    (handle_tpc rows drive 4 unset_locals idle (request delreq (some key_a) none) empty_reply
      ≡ done (
        record (logged rows drive idle (drive_with [] (del_entry key_a))) {
          state = next_state (del_code one_key key_a);
        },
        voted (record empty_reply { type = resp; key = some key_a }) (del_code one_key key_a),
      ))
    × IsServer rows drive
        (record (logged rows drive idle (drive_with [] (del_entry key_a))) {
          state = next_state (del_code one_key key_a);
        })
        one_key
    × IsLogged rows drive
        (record (logged rows drive idle (drive_with [] (del_entry key_a))) {
          state = next_state (del_code one_key key_a);
        })
        ([] ++ del_entry key_a ∷ [])
handle-delreq_example =
    handle-delreq rows drive 4 unset_locals empty_reply idle (drive_with [] (del_entry key_a))
      one_key [] key_a (server_with-IsServer [] tpc_ready)
      (server_with-IsLogged [] tpc_ready (omega arith)) (omega arith) refl (ground arith)
      (record { opens = refl; written = refl })

server_put_lem_example :
    ((put rows drive 4 idle key_a value_y ≡ done (err_filaccess, idle))
      × (file_opens drive idle.disk one_key key_a ≡ false))
    ⊎ ((c : Cache rows) × (d : drive.Disk) × (put rows drive 4 idle key_a value_y
          ≡ done (pos 0, record idle { cache = c; disk = d }))
        × IsServer rows drive (record idle { cache = c; disk = d }) (put_at one_key key_a value_y))
server_put_lem_example =
    server_put_lem rows drive 4 idle one_key key_a value_y (server_with-IsServer [] tpc_ready)
      (omega arith) (omega arith) (omega arith) (omega arith) (ground arith) (ground arith)
      (λ opened. (after (entry_write drive (idle.disk) one_key key_a value_y), refl))

server_get_lem_example :
    (c : Cache rows) × (get rows drive 4 idle key_a
      ≡ done (status (stored one_key key_a), stored one_key key_a, record idle { cache = c }))
    × IsServer rows drive (record idle { cache = c }) one_key
server_get_lem_example =
    server_get_lem rows drive 4 idle one_key key_a (server_with-IsServer [] tpc_ready) (omega arith)
      (ground arith)

rebuild-putreq_example :
    (s' : Server rows drive) × (rebuild_state rows drive 4 unset_locals crashed_put
      ≡ done (s', some (if is_zero (put_code key_b value_y) then vote_commit else vote_abort)))
    × (s'.state ≡ next_state (put_code key_b value_y))
    × IsServer rows drive s' one_key
    × IsLogged rows drive s' ([] ++ put_entry key_b value_y ∷ [])
rebuild-putreq_example =
    rebuild-putreq rows drive 4 unset_locals crashed_put one_key [] key_b value_y
      (server_with-IsServer put_logged tpc_init)
      (server_with-IsLogged put_logged tpc_init (omega arith)) (omega arith) (omega arith)
      (omega arith) (omega arith)

rebuild-commit_example :
    ((s' : Server rows drive) × (rebuild_state rows drive 4 unset_locals crashed_commit
        ≡ done (s', some ack))
      × IsServer rows drive s' (put_at one_key key_b value_y)
      × (s'.state ≡ crashed_commit.state))
    ⊎ ((s' : Server rows drive) × (rebuild_state rows drive 4 unset_locals crashed_commit
          ≡ done (s', some ack))
        × (put rows drive 4 s' key_b value_y ≡ done (err_filaccess, s'))
        × (file_opens drive crashed_commit.disk one_key key_b ≡ false)
        × IsServer rows drive s' one_key
        × (s'.state ≡ crashed_commit.state))
rebuild-commit_example =
    rebuild-commit rows drive 4 unset_locals crashed_commit one_key [] key_b value_y
      (server_with-IsServer commit_logged tpc_init)
      (server_with-IsLogged commit_logged tpc_init (omega arith)) (omega arith) (omega arith)
      (omega arith) (omega arith) (omega arith) (ground arith) (ground arith)
      (λ opened. (after (entry_write drive (crashed_commit.disk) one_key key_b value_y), refl))
