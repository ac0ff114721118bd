-- ===== src/Tests/Closed.antt =====
-- The closing of sessions in src/net/tnfs_server.c, in a world that is the log of what was closed.
use fdc_sds_pio.Prelude.{List, [], none, refl, some, ◌++◌, ◌∷◌}
use fdc_sds_pio.TnfsServer.Os.{Os}
use fdc_sds_pio.TnfsServer.State.{TnfsState, zero_session}
use fdc_sds_pio.TnfsServer.Sessions.{drop_all_sessions, is_idle, reap_idle}
use fdc_sds_pio.TnfsServer.Sessions.Closed.{
  Closing, ClosingLog, IsFreed, closing_dir, closing_file, drop_all_sessions-IsFreed,
}
use fdc_sds_pio.Tests.Card.{session, still_os}

abbrev log_os : Os (List Closing)
log_os = record still_os {
  close = λ fd e. e ++ (closing_file fd ∷ []);
  closedir = λ d e. e ++ (closing_dir d ∷ []);
}

logged : ClosingLog log_os
logged = record { log = λ e. e; close_logs = λ fd e. refl; closedir_logs = λ d e. refl }

-- A session with a file and a directory, and a slot that is free.
abbrev busy : TnfsState
busy = record {
  sessions = record session { files = none ∷ some 4 ∷ none ∷ none ∷ [] } ∷ zero_session ∷ [];
  next_id = 6;
}

drop_all_sessions-IsFreed_example :
    IsFreed
      (λ e. e)
      (λ s. s.live)
      busy.sessions
      []
      ((drop_all_sessions log_os busy []).0.sessions, (drop_all_sessions log_os busy []).1)
    × IsFreed
        (λ e. e)
        (is_idle (log_os.now_us []))
        busy.sessions
        []
        ((reap_idle log_os busy []).0.sessions, (reap_idle log_os busy []).1)
unfolding logged
drop_all_sessions-IsFreed_example = drop_all_sessions-IsFreed log_os logged busy []
