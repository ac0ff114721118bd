-- ===== src/TnfsServer/Serve/Replay.antt =====
-- src/net/tnfs_server.c: a request that arrives twice.
use fdc_sds_pio.Tnfs.Cmd.{cmd_mount}
use fdc_sds_pio.TnfsServer.Sessions.Find.{
  find_from_start, fits_request, found_from, get_or-set, same_peer_eq,
}
use fdc_sds_pio.Tnfs.Proto.{hdr_len, rd16}
use fdc_sds_pio.Prelude.{
  Bool-cases, Bytes, arith, drop, false, get_or, inl, inr, length, ltb, refl, some, true, ℕ, ◌==◌,
  ◌∙◌, ◌≡◌, ◌≢◌, ◌≤◌,
}
use fdc_sds_pio.TnfsServer.Os.{Os, Peer}
use fdc_sds_pio.TnfsServer.State.{TnfsState, Session, zero_session}
use fdc_sds_pio.TnfsServer.Sessions.{find_from, find_session, reply_and_cache}
use fdc_sds_pio.TnfsServer.Process.{
  cached_bytes, command_of, handle, is_replay, is_umount, process, replay, touch,
}
use fdc_sds_pio.TnfsServer.Process.Keeps.{Keeps}
use fdc_sds_pio.TnfsServer.Process.Outcome.{handle-Handles}
use fdc_sds_pio.TnfsServer.Serve.{
  put_session, serve_datagram, serve_request, serve_session, session_at,
}

-- What a turn has done with a request of session `i`.
pub record IsServedOnce {E : Type 0} (os : Os E) (rx : Bytes) (peer : Peer) (i : ℕ)
    (r : TnfsState × E) : Type 0 where
  pub reply : Bytes
  pub before : E
  -- The last thing that happened is that the reply went to the client,
  pub sent : r.1 ≡ os.sendto reply peer before
  -- and when the same request comes again, whatever the world is by then, that reply goes out once
  -- more, and but for the time of the session nothing else happens.
  pub again :
      (later : E)
      → serve_datagram os rx peer (r.0, later) ≡ (
        put_session r.0 i (touch (os.now_us (os.sendto reply peer later)) (session_at r.0 i)),
        os.sendto reply peer later,
      )

-- A session after its request: it answers to the same name, and has the reply that went out.
pub record IsAnswered {E : Type 0} (os : Os E) (s : Session) (seq cmd : ℕ) (r : Session × E)
    : Type 0 where
  pub same_live : r.0.live ≡ s.live
  pub same_sid : r.0.sid ≡ s.sid
  pub same_client : r.0.peer ≡ s.peer
  pub is_cached : is_replay seq cmd r.0.cached ≡ true
  pub earlier : E
  pub went : r.1 ≡ os.sendto (cached_bytes r.0.cached) s.peer earlier

module _ {E : Type 0} (os : Os E) where
  process-IsAnswered :
      (s : Session) (seq cmd : ℕ) (pl : Bytes) (e : E)
      → is_umount (command_of cmd) ≡ false
      → IsAnswered os s seq cmd (process os s seq cmd pl e)
  unfolding process reply_and_cache is_replay cached_bytes
  process-IsAnswered s seq cmd pl e h =
      let r = handle os (command_of cmd) s pl e in
      let k : Keeps s r.1 = (handle-Handles os (command_of cmd) s pl e).0 in
      rw h (record {
        same_live = k.live_kept;
        same_sid = k.sid_kept;
        same_client = k.peer_kept;
        is_cached = ground arith;
        earlier = r.2;
        went = rw k.peer_kept refl;
      })

  replay-IsAnswered :
      (s : Session) (seq cmd : ℕ) (e : E)
      → is_replay seq cmd s.cached ≡ true
      → IsAnswered os s seq cmd (replay os s e)
  unfolding replay
  replay-IsAnswered s seq cmd e h = record {
    same_live = refl;
    same_sid = refl;
    same_client = refl;
    is_cached = h;
    earlier = e;
    went = refl;
  }

  -- The session that was found is found again in its new state.
  find_session-put :
      (srv : TnfsState) (id : ℕ) (peer : Peer) (i : ℕ) (s1 : Session)
      → find_session srv id peer ≡ some i
      → s1.live ≡ (session_at srv i).live
      → s1.sid ≡ (session_at srv i).sid
      → s1.peer ≡ (session_at srv i).peer
      → (find_session (put_session srv i s1) id peer ≡ some i)
        × (session_at (put_session srv i s1) i ≡ s1)
        × ((session_at srv i).peer ≡ peer)
  unfolding find_session
  find_session-put srv id peer i s1 h l d p =
      let nonzero : (id == 0) ≡ false = ground (arith, h) in
      let here : find_from srv.sessions 0 id peer ≡ some i = rw nonzero at h in
      let (j, e, below, f) = found_from srv.sessions 0 id peer i here in
      let at_i : i ≡ j = omega (arith, e) in
      let fits : fits_request id peer (session_at srv i) ≡ true = rw at_i f in
      let fits1 : fits_request id peer s1 ≡ true = rw (l, d, p) fits in
      (
        rw nonzero (find_from_start srv.sessions id peer i s1 here fits1),
        get_or-set srv.sessions i s1 zero_session (rw at_i below),
        same_peer_eq (session_at srv i).peer peer (ground (arith, fits)),
      )

  serve_session-IsServedOnce :
      (rx : Bytes) (peer : Peer) (srv : TnfsState) (i : ℕ) (r : Session × E)
      → hdr_len ≤ length rx
      → get_or rx 3 0 ≢ cmd_mount
      → find_session srv (rd16 rx) peer ≡ some i
      → IsAnswered os (session_at srv i) (get_or rx 2 0) (get_or rx 3 0) r
      → IsServedOnce os rx peer i (put_session srv i r.0, r.1)
  unfolding serve_datagram serve_request serve_session replay
  serve_session-IsServedOnce rx peer srv i r long other found a =
      let (again_found, at_i, same) =
        find_session-put srv (rd16 rx) peer i r.0 found a.same_live a.same_sid a.same_client in
      let whole : ltb (length rx) hdr_len ≡ false = ground arith in
      let not_mount : (get_or rx 3 0 == cmd_mount) ≡ false = ground arith in
      let client : r.0.peer ≡ peer = a.same_client ∙ same in
      record {
        reply = cached_bytes r.0.cached;
        before = a.earlier;
        sent = rw (← same) a.went;
        again = λ later. rw (whole, not_mount, again_found, at_i, a.is_cached, client) refl;
      }

  -- A whole request of a session, other than MOUNT and UMOUNT, is carried out at most once: the
  -- reply goes to the client and is kept, and the same datagram, whenever it arrives while no other
  -- has been served, brings the same bytes out again and changes nothing but the time of the
  -- session. Whatever the state of the card and the network is by then.
  pub serve_datagram-IsServedOnce :
      (rx : Bytes) (peer : Peer) (srv : TnfsState) (e : E) (i : ℕ)
      → hdr_len ≤ length rx
      → get_or rx 3 0 ≢ cmd_mount
      → is_umount (command_of (get_or rx 3 0)) ≡ false
      → find_session srv (rd16 rx) peer ≡ some i
      → IsServedOnce os rx peer i (serve_datagram os rx peer (srv, e))
  unfolding serve_datagram serve_request serve_session
  serve_datagram-IsServedOnce rx peer srv e i long other stays found =
      let whole : ltb (length rx) hdr_len ≡ false = ground arith in
      let not_mount : (get_or rx 3 0 == cmd_mount) ≡ false = ground arith in
      let s = session_at srv i in
      let seq = get_or rx 2 0 in
      let cmd = get_or rx 3 0 in
      rw (whole, not_mount, found)
        (elim (Bool-cases (is_replay seq cmd s.cached)) [
          | inl q ↦ rw q (
              serve_session-IsServedOnce rx peer srv i (replay os s e) long other found
                (replay-IsAnswered s seq cmd e q))
          | inr q ↦ rw q (
              serve_session-IsServedOnce rx peer srv i (process os s seq cmd (drop hdr_len rx) e)
                long other found (process-IsAnswered s seq cmd (drop hdr_len rx) e stays))
        ])
