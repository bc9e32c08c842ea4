-- ===== src/Kv/Tests/Logs.antt =====
-- The theorems on the log at a log of two entries.
use sum.Prelude.{
  ◌+◌, ◌≡◌, refl, true, none, some, List, [], ◌∷◌, ◌++◌, length, map, pos, done, arith,
}
use sum.Kv.Codes.{commit}
use sum.Kv.Disk.{file, LogEntry}
use sum.Kv.Log.{Log, log, make_log, is_loggable, iterate_begin}
use sum.Kv.Log.Files.{log_lem, collect, iterate_all, LogHolds}
use sum.Kv.Server.Logged.{put_entry, mark_entry}
use sum.Kv.Tests.Drive.{drive, at_log, Files}
use sum.Kv.Tests.Fixtures.{key_a, value_x, one_key, files_of}

abbrev entries : List LogEntry
entries = put_entry key_a value_x ∷ mark_entry commit ∷ []

abbrev next_log : Log
next_log = record { nextid = 2; iterpos = 1 }

logs_commit : is_loggable commit ≡ true
unfolding is_loggable
logs_commit = refl

makes_commit : make_log commit none none ≡ done (mark_entry commit)
unfolding make_log
makes_commit = refl

entries-LogHolds : LogHolds drive (files_of one_key entries) entries
entries-LogHolds = record { at = λ i. refl; short = omega arith }

abbrev more_files : Files
more_files = record (files_of one_key entries) {
  logs = at_log (files_of one_key entries).logs 2 (file (mark_entry commit));
}

iterate_all_example :
    collect drive 5 (files_of one_key entries) (iterate_begin drive next_log) ≡ map some entries
iterate_all_example =
    iterate_all drive 5 (files_of one_key entries) next_log entries entries-LogHolds (omega arith)

log_lem_example :
    (log drive (files_of one_key entries) next_log commit none none
      ≡ done (pos 0, more_files, record next_log { nextid = length entries + 1 }))
    × LogHolds drive more_files (entries ++ mark_entry commit ∷ [])
log_lem_example =
    log_lem drive (files_of one_key entries) more_files next_log entries commit none none
      (mark_entry commit) entries-LogHolds refl (omega arith) logs_commit makes_commit refl refl
