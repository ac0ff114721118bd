-- ===== src/TnfsServer/Sessions/Closed.antt =====
-- src/net/tnfs_server.c: what freeing sessions closes, when the link goes down and when they are idle.
use fdc_sds_pio.Prelude.{
  Bool, Bool-cases, List, Option, [], ap, append_assoc, append_nil, if◌then◌else◌, inl, inr, map,
  none, not, refl, some, sym, ℕ, ◌&&◌, ◌++◌, ◌==◌, ◌∙◌, ◌∷◌, ◌≡◌,
}
use fdc_sds_pio.TnfsServer.Os.{Os}
use fdc_sds_pio.TnfsServer.State.{Dirslot, Session, TnfsState, zero_session}
use fdc_sds_pio.TnfsServer.Sessions.{
  close_dirs, close_files, drop_all_sessions, free_session, free_where, is_idle, reap_idle,
}

-- A call that closes a descriptor or a directory stream.
pub data Closing : Type 0 where
  closing_file closing_dir : ℕ → Closing

-- What a session has open: its descriptors, and the streams of the slots in use.
abbrev pub file_handles : List (Option ℕ) → List Closing
file_handles [] = []
file_handles (none ∷ fs) = file_handles fs
file_handles (some fd ∷ fs) = closing_file fd ∷ file_handles fs

abbrev pub dir_handles : List Dirslot → List Closing
dir_handles [] = []
dir_handles (d ∷ ds) =
    if d.in_use && not (d.dir == 0) then closing_dir d.dir ∷ dir_handles ds else dir_handles ds

abbrev pub handles : Session → List Closing
handles s = file_handles s.files ++ dir_handles s.dirs

abbrev pub handles_where : (Session → Bool) → List Session → List Closing
handles_where test [] = []
handles_where test (s ∷ ss) = (if test s then handles s else []) ++ handles_where test ss

-- What the world has been asked to close, in order: the calls of close and closedir add to it.
pub record ClosingLog {E : Type 0} (os : Os E) : Type 0 where
  pub log : E → List Closing
  pub close_logs : (fd : ℕ) (e : E) → log (os.close fd e) ≡ log e ++ (closing_file fd ∷ [])
  pub closedir_logs : (d : ℕ) (e : E) → log (os.closedir d e) ≡ log e ++ (closing_dir d ∷ [])

-- The sessions that pass the test have been closed, each of their handles once, and are blank; the
-- others are as they were.
pub record IsFreed {E : Type 0} (log : E → List Closing) (test : Session → Bool) (ss : List Session)
    (e : E) (r : List Session × E) : Type 0 where
  pub closed : log r.1 ≡ log e ++ handles_where test ss
  pub blank : r.0 ≡ map (λ s. if test s then zero_session else s) ss

module _ {E : Type 0} (os : Os E) (logs : ClosingLog os) where
  open logs use {log}

  -- One more call, and then the rest.
  after_one :
      (c : Closing) (cs : List Closing) (e e1 e2 : E)
      → log e1 ≡ log e ++ (c ∷ [])
      → log e2 ≡ log e1 ++ cs
      → log e2 ≡ log e ++ (c ∷ cs)
  after_one c cs e e1 e2 h k =
      k ∙ ap (λ (l : List Closing). l ++ cs) h ∙ append_assoc (log e) (c ∷ []) cs

  close_files_logs :
      (fs : List (Option ℕ)) (e : E) → log (close_files os fs e) ≡ log e ++ file_handles fs
  unfolding close_files
  close_files_logs [] e = sym (append_nil (log e))
  close_files_logs (none ∷ fs) e = close_files_logs fs e
  close_files_logs (some fd ∷ fs) e =
      after_one (closing_file fd) (file_handles fs) e (os.close fd e)
        (close_files os fs (os.close fd e)) (logs.close_logs fd e)
        (close_files_logs fs (os.close fd e))

  close_dirs_logs : (ds : List Dirslot) (e : E) → log (close_dirs os ds e) ≡ log e ++ dir_handles ds
  unfolding close_dirs
  close_dirs_logs [] e = sym (append_nil (log e))
  close_dirs_logs (d ∷ ds) e = elim (Bool-cases (d.in_use && not (d.dir == 0))) [
    | inl q ↦ rw q (
        after_one (closing_dir d.dir) (dir_handles ds) e (os.closedir d.dir e)
          (close_dirs os ds (os.closedir d.dir e)) (logs.closedir_logs d.dir e)
          (close_dirs_logs ds (os.closedir d.dir e)))
    | inr q ↦ rw q (close_dirs_logs ds e)
  ]

  free_session_logs : (s : Session) (e : E) → log (free_session os s e).1 ≡ log e ++ handles s
  unfolding free_session
  free_session_logs s e =
      close_dirs_logs s.dirs (close_files os s.files e)
      ∙ ap (λ (l : List Closing). l ++ dir_handles s.dirs) (close_files_logs s.files e)
      ∙ append_assoc (log e) (file_handles s.files) (dir_handles s.dirs)

  free_where-IsFreed :
      (test : Session → Bool) (ss : List Session) (e : E)
      → IsFreed log test ss e (free_where os test ss e)
  unfolding free_where
  free_where-IsFreed test [] e = record { closed = sym (append_nil (log e)); blank = refl }
  free_where-IsFreed test (s ∷ ss) e = elim (Bool-cases (test s)) [
    | inr q ↦
        let k = free_where-IsFreed test ss e in
        rw q (record { closed = rw q k.closed; blank = rw q (ap (◌∷◌ s) k.blank) })
    | inl q ↦
        let e1 = (free_session os s e).1 in
        let k = free_where-IsFreed test ss e1 in
        rw q (record {
          closed = rw q (
              k.closed
              ∙ ap (λ (l : List Closing). l ++ handles_where test ss) (free_session_logs s e)
              ∙ append_assoc (log e) (handles s) (handles_where test ss));
          blank = rw q (ap (◌∷◌ zero_session) k.blank);
        })
  ]

  -- When the link goes down, drop_all_sessions has closed every descriptor and every directory stream
  -- of the live sessions, each once and in order, and nothing else, and leaves those sessions blank
  -- and the others as they were; reap_idle does the same for the sessions that are idle.
  pub drop_all_sessions-IsFreed :
      (srv : TnfsState) (e : E)
      → IsFreed log
          (λ s. s.live)
          srv.sessions
          e
          ((drop_all_sessions os srv e).0.sessions, (drop_all_sessions os srv e).1)
        × IsFreed log
            (is_idle (os.now_us e))
            srv.sessions
            e
            ((reap_idle os srv e).0.sessions, (reap_idle os srv e).1)
  unfolding drop_all_sessions reap_idle
  drop_all_sessions-IsFreed srv e = (
    free_where-IsFreed (λ s. s.live) srv.sessions e,
    free_where-IsFreed (is_idle (os.now_us e)) srv.sessions e,
  )
