-- ===== src/TnfsServer/Serve.antt =====
-- src/net/tnfs_server.c: MOUNT, and the turns of the serve loop.
pub mod Replay
pub mod Invariant
pub mod Mounted
pub mod Reach
use fdc_sds_pio.Prelude.{
  Bool, Bytes, List, Option, [], drop, false, get_or, if◌then◌else◌, length, ltb, none, set, some,
  strlcpy, suc, take, true, ℕ, ◌&&◌, ◌++◌, ◌==◌, ◌∷◌,
}
use fdc_sds_pio.Sd.{sd_path}
use fdc_sds_pio.TnfsServer.Os.{Os, Peer}
use fdc_sds_pio.TnfsServer.State.{
  TnfsState, Session, abs_cap, min_retry_ms, root_cap, same_peer, zero_session,
}
use fdc_sds_pio.TnfsServer.Paths.{memchr_nul, skip_slashes, trim_slashes}
use fdc_sds_pio.TnfsServer.Sessions.{
  alloc_session, drop_all_sessions, find_session, free_session, free_where, next_sid, reap_idle,
  reply_and_cache,
}
use fdc_sds_pio.Tnfs.Status.{st_eagain, st_enoent, st_ok}
use fdc_sds_pio.Tnfs.Cmd.{cmd_mount}
use fdc_sds_pio.Tnfs.Proto.{hdr_len, msg_cap, rd16, ver_hi, ver_lo, wr16}
use fdc_sds_pio.TnfsServer.Process.{is_replay, process, replay}

abbrev pub session_at : TnfsState → ℕ → Session
session_at srv i = get_or srv.sessions i zero_session

abbrev pub put_session : TnfsState → ℕ → Session → TnfsState
put_session srv i s = record srv { sessions = set srv.sessions i s }

-- The loop of `handle_mount`: a session that this MOUNT has made.
unfoldable pub mounted_from : List Session → ℕ → ℕ → Peer → Option ℕ
unfolding same_peer is_replay
mounted_from [] i seq peer = none
mounted_from (s ∷ ss) i seq peer =
    let rest = mounted_from ss (suc i) seq peer in
    if s.live && same_peer s.peer peer && is_replay seq cmd_mount s.cached then some i else rest

unfoldable pub string_or_empty : Option (Bytes × Bytes) → Bytes
string_or_empty none = []
string_or_empty (some (s, _)) = s

-- The mount point of the payload, as a subdirectory under the SD root.
unfoldable pub mount_root : Bytes → Bytes
unfolding string_or_empty memchr_nul skip_slashes trim_slashes
mount_root pl =
    let mp = if ltb 2 (length pl) then string_or_empty (memchr_nul (drop 2 pl)) else [] in
    trim_slashes (strlcpy root_cap (skip_slashes mp))

unfoldable pub is_none : Option Bytes → Bool
is_none none = true
is_none (some _) = false

unfoldable pub is_bad_root : Bytes → Bool
unfolding is_none sd_path
is_bad_root root = ltb 0 (length root) && is_none (sd_path root abs_cap)

-- The reply to a client that finds no free session.
unfoldable pub full_reply : ℕ → Bytes
unfolding wr16
full_reply seq = wr16 0 ++ seq ∷ cmd_mount ∷ st_eagain ∷ wr16 min_retry_ms

unfoldable pub mount_body : Bytes
unfolding wr16
mount_body = st_ok ∷ ver_lo ∷ ver_hi ∷ wr16 min_retry_ms

-- From `alloc_session` on.
unfoldable pub mount_allocated :
    {E : Type 0} → Os E → ℕ → Bytes → Peer → Option ℕ × TnfsState × E → TnfsState × E
unfolding next_sid reply_and_cache free_session full_reply mount_body is_bad_root
mount_allocated os seq root peer (none, srv, e) = (srv, os.sendto (full_reply seq) peer e)
mount_allocated os seq root peer (some i, srv, e) =
    let (id, srv1) = next_sid srv in
    let s = session_at srv1 i in
    let bad = record s { sid = id } in
    let (bad1, e1) = reply_and_cache os bad seq cmd_mount (st_enoent ∷ []) e in
    let (bad2, e2) = free_session os bad1 e1 in
    let good = record s {
      sid = id;
      peer = peer;
      root = strlcpy root_cap root;
      last_active_us = os.now_us e;
    } in
    let (good1, e3) = reply_and_cache os good seq cmd_mount mount_body e in
    if is_bad_root root then (put_session srv1 i bad2, e2) else (put_session srv1 i good1, e3)

unfoldable pub mount_new :
    {E : Type 0} → Os E → Option ℕ → ℕ → Bytes → Peer → TnfsState → E → TnfsState × E
unfolding mount_allocated mount_root alloc_session replay
mount_new os (some i) seq pl peer srv e =
    let (s, e1) = replay os (session_at srv i) e in (put_session srv i s, e1)
mount_new os none seq pl peer srv e =
    mount_allocated os seq (mount_root pl) peer (alloc_session os srv e)

-- `handle_mount(seq, rx, n, peer)` on the payload of `rx`.
unfoldable pub handle_mount : {E : Type 0} → Os E → ℕ → Bytes → Peer → TnfsState → E → TnfsState × E
unfolding mount_new mounted_from
handle_mount os seq pl peer srv e =
    mount_new os (mounted_from srv.sessions 0 seq peer) seq pl peer srv e

-- A request in a session, or in none.
unfoldable pub serve_session :
    {E : Type 0} → Os E → Option ℕ → ℕ → ℕ → Bytes → TnfsState → E → TnfsState × E
unfolding process replay is_replay
serve_session os none seq cmd pl srv e = (srv, e)
serve_session os (some i) seq cmd pl srv e =
    let s = session_at srv i in
    let (s1, e1) =
      if is_replay seq cmd s.cached then replay os s e else process os s seq cmd pl e in
    (put_session srv i s1, e1)

unfoldable pub serve_request :
    {E : Type 0} → Os E → ℕ → ℕ → ℕ → Bytes → Peer → TnfsState → E → TnfsState × E
unfolding handle_mount serve_session find_session
serve_request os id seq cmd pl peer srv e =
    if cmd == cmd_mount
    then handle_mount os seq pl peer srv e
    else serve_session os (find_session srv id peer) seq cmd pl srv e

unfoldable pub serve_datagram : {E : Type 0} → Os E → Bytes → Peer → TnfsState × E → TnfsState × E
unfolding serve_request rd16
serve_datagram os rx peer (srv, e) =
    if ltb (length rx) hdr_len
    then (srv, e)
    else serve_request os (rd16 rx) (get_or rx 2 0) (get_or rx 3 0) (drop hdr_len rx) peer srv e

-- One turn of the loop of `serve`: what recvfrom gave, cut to the buffer, or none at its timeout.
unfoldable pub serve_turn :
    {E : Type 0} → Os E → Option (Bytes × Peer) → TnfsState → E → TnfsState × E
unfolding serve_datagram reap_idle
serve_turn os none srv e = reap_idle os srv e
serve_turn os (some (rx, peer)) srv e =
    serve_datagram os (take msg_cap rx) peer (reap_idle os srv e)

-- `serve()` from the bound socket on, over what arrives while the link is up.
unfoldable pub serve :
    {E : Type 0} → Os E → List (Option (Bytes × Peer)) → TnfsState → E → TnfsState × E
unfolding serve_turn drop_all_sessions
serve os [] srv e = drop_all_sessions os srv e
serve os (input ∷ inputs) srv e =
    let (srv1, e1) = serve_turn os input srv e in serve os inputs srv1 e1

-- `tnfsd_task` in front of its loop.
unfoldable pub start_task : {E : Type 0} → Os E → TnfsState → E → TnfsState × E
unfolding free_where
start_task os srv e =
    let (ss, e1) = free_where os (λ s. true) srv.sessions e in (record srv { sessions = ss }, e1)
