-- ===== src/TnfsServer/Serve/Reach.antt =====
-- src/net/tnfs_server.c: the pool of sessions under the turns of the server.
use fdc_sds_pio.Tnfs.Cmd.{cmd_mount}
use fdc_sds_pio.Prelude.{
  Bool, Bool-cases, Bytes, List, Option, Option-cases, [], arith, drop, false, get_or,
  if◌then◌else◌, inl, inr, length, ltb, none, refl, some, suc, take, true, ℕ, ◌&&◌, ◌+◌, ◌==◌, ◌∷◌,
  ◌≡◌,
}
use fdc_sds_pio.TnfsServer.Os.{Os, Peer}
use fdc_sds_pio.TnfsServer.State.{TnfsState, Session, same_peer, zero_session}
use fdc_sds_pio.TnfsServer.Sessions.{
  alloc_session, drop_all_sessions, find_session, first_unused, free_session, free_where, is_idle,
  reap_idle, reply_and_cache,
}
use fdc_sds_pio.TnfsServer.Sessions.Find.{found_from}
use fdc_sds_pio.TnfsServer.Process.{command_of, handle, is_replay, is_umount, process, replay}
use fdc_sds_pio.TnfsServer.Process.Keeps.{Keeps, Keeps-same}
use fdc_sds_pio.TnfsServer.Process.Outcome.{handle-Handles}
use fdc_sds_pio.TnfsServer.Serve.{
  handle_mount, mount_new, mount_root, mounted_from, put_session, serve, serve_datagram,
  serve_request, serve_session, serve_turn, session_at,
}
use fdc_sds_pio.TnfsServer.Serve.Invariant.{
  IsPool, IsServer, IsSession, Keeps-IsSession, Shrinks, free_where-IsPool, get_or-IsSession,
  set-IsPool, zero_session-IsSession,
}
use fdc_sds_pio.TnfsServer.Serve.Mounted.{mount_allocated-IsServer, mount_root-IsRoot}
use fdc_sds_pio.Tnfs.Proto.{hdr_len, msg_cap, rd16}

put-IsServer :
    (srv : TnfsState) (i : ℕ) (s1 : Session)
    → IsServer srv
    → Shrinks (session_at srv i) s1
    → IsSession s1
    → IsServer (put_session srv i s1)
put-IsServer srv i s1 v k w = record {
  is_pool = set-IsPool srv.sessions i s1 v.is_pool k w;
  counter_wide = v.counter_wide;
}

mounted_from_live :
    (ss : List Session) (k seq : ℕ) (peer : Peer) (i : ℕ)
    → mounted_from ss k seq peer ≡ some i
    → (j : ℕ) × (i ≡ k + j) × ((get_or ss j zero_session).live ≡ true)
unfolding mounted_from
mounted_from_live [] k seq peer i h = absurd (cc)
mounted_from_live (s ∷ ss) k seq peer i h =
    elim (Bool-cases (s.live && same_peer s.peer peer && is_replay seq cmd_mount s.cached)) [
      | inl q ↦ (0, ground (arith, h, q), ground (arith, q))
      | inr q ↦
          let (j, e, l) = mounted_from_live ss (suc k) seq peer i (rw q at h) in
          (suc j, omega arith, l)
    ]

module _ {E : Type 0} (os : Os E) where
  replay-IsSession :
      (s : Session) (e : E) → s.live ≡ true → IsSession s → IsSession (replay os s e).0
  unfolding replay
  replay-IsSession s e l v = Keeps-IsSession s s l (Keeps-same s) v s.cached _

  kept_replay : (s : Session) (e : E) → Shrinks s (replay os s e).0
  unfolding replay
  kept_replay s e = inl (refl, refl)

  process_pool :
      (s : Session) (seq cmd : ℕ) (pl : Bytes) (e : E)
      → s.live ≡ true
      → IsSession s
      → Shrinks s (process os s seq cmd pl e).0 × IsSession (process os s seq cmd pl e).0
  unfolding process reply_and_cache free_session
  process_pool s seq cmd pl e l v =
      let r = handle os (command_of cmd) s pl e in
      let k : Keeps s r.1 = (handle-Handles os (command_of cmd) s pl e).0 in
      elim (Bool-cases (is_umount (command_of cmd))) [
        | inl q ↦ rw q (inr refl, zero_session-IsSession)
        | inr q ↦ rw q (inl (k.live_kept, k.sid_kept), Keeps-IsSession s r.1 l k v _ _)
      ]

  serve_session-IsServer :
      (found : Option ℕ) (seq cmd : ℕ) (pl : Bytes) (srv : TnfsState) (e : E)
      → ((i : ℕ) → found ≡ some i → (session_at srv i).live ≡ true)
      → IsServer srv
      → IsServer (serve_session os found seq cmd pl srv e).0
  unfolding serve_session
  serve_session-IsServer none seq cmd pl srv e l v = v
  serve_session-IsServer (some i) seq cmd pl srv e l v =
      let s = session_at srv i in
      let w = get_or-IsSession srv.sessions i v.is_pool in
      elim (Bool-cases (is_replay seq cmd s.cached)) [
        | inl q ↦ rw q (
            put-IsServer srv i (replay os s e).0 v (kept_replay s e)
              (replay-IsSession s e (l i refl) w))
        | inr q ↦
            let k = process_pool s seq cmd pl e (l i refl) w in
            rw q (put-IsServer srv i (process os s seq cmd pl e).0 v k.0 k.1)
      ]

  handle_mount-IsServer :
      (seq : ℕ) (pl : Bytes) (peer : Peer) (srv : TnfsState) (e : E)
      → IsServer srv
      → IsServer (handle_mount os seq pl peer srv e).0
  unfolding handle_mount mount_new alloc_session
  handle_mount-IsServer seq pl peer srv e v =
      elim (Option-cases (mounted_from srv.sessions 0 seq peer)) [
        | inl q ↦ rw q (
            mount_allocated-IsServer os seq (mount_root pl) peer (first_unused srv.sessions 0) srv e
              (mount_root-IsRoot pl) v)
        | inr (i, q) ↦
            let (j, at_j, l) = mounted_from_live srv.sessions 0 seq peer i q in
            let same : j ≡ i = omega (arith, at_j) in
            let s = session_at srv i in
            rw q (
              put-IsServer srv i (replay os s e).0 v (kept_replay s e)
                (replay-IsSession s e (rw same at l) (get_or-IsSession srv.sessions i v.is_pool)))
      ]

  found_live :
      (srv : TnfsState) (id : ℕ) (peer : Peer) (i : ℕ)
      → find_session srv id peer ≡ some i
      → (session_at srv i).live ≡ true
  unfolding find_session
  found_live srv id peer i h =
      let nonzero : (id == 0) ≡ false = ground (arith, h) in
      let (j, e, _, f) = found_from srv.sessions 0 id peer i (rw nonzero at h) in
      let same : j ≡ i = omega (arith, e) in
      let l : (get_or srv.sessions j zero_session).live ≡ true = ground (arith, f) in rw same at l

  reap_idle-IsServer : (srv : TnfsState) (e : E) → IsServer srv → IsServer (reap_idle os srv e).0
  unfolding reap_idle
  reap_idle-IsServer srv e v = record {
    is_pool = free_where-IsPool os (is_idle (os.now_us e)) srv.sessions e v.is_pool;
    counter_wide = v.counter_wide;
  }

  serve_datagram-IsServer :
      (rx : Bytes) (peer : Peer) (srv : TnfsState) (e : E)
      → IsServer srv
      → IsServer (serve_datagram os rx peer (srv, e)).0
  unfolding serve_datagram serve_request
  serve_datagram-IsServer rx peer srv e v = elim (Bool-cases (ltb (length rx) hdr_len)) [
    | inl q ↦ rw q v
    | inr q ↦ rw q (elim (Bool-cases (get_or rx 3 0 == cmd_mount)) [
      | inl m ↦ rw m (handle_mount-IsServer (get_or rx 2 0) (drop hdr_len rx) peer srv e v)
      | inr m ↦ rw m (
          serve_session-IsServer (find_session srv (rd16 rx) peer) (get_or rx 2 0) (get_or rx 3 0)
            (drop hdr_len rx) srv e (λ i h. found_live srv (rd16 rx) peer i h) v)
    ])
  ]

  -- A turn of the serve loop, whatever arrives or none, keeps the pool: two sessions whose tables
  -- have their size, whose mounts fit and have no slash at their end; the live ones have ids other
  -- than 0 that differ, and one that is not live is blank, with nothing open.
  pub serve_turn-IsServer :
      (input : Option (Bytes × Peer)) (srv : TnfsState) (e : E)
      → IsServer srv
      → IsServer (serve_turn os input srv e).0
  unfolding serve_turn
  serve_turn-IsServer none srv e v = reap_idle-IsServer srv e v
  serve_turn-IsServer (some (rx, peer)) srv e v =
      serve_datagram-IsServer (take msg_cap rx) peer (reap_idle os srv e).0 (reap_idle os srv e).1
        (reap_idle-IsServer srv e v)

  blanked :
      (test : Session → Bool) (s : Session) (e : E)
      → (test s ≡ false → IsSession s → s ≡ zero_session)
      → IsSession s
      → (if test s then free_session os s e else (s, e)).0 ≡ zero_session
  unfolding free_session
  blanked test s e k v = elim (Bool-cases (test s)) [ inl q ↦ rw q refl | inr q ↦ rw q (k q v) ]

  -- What blanks the sessions that pass the test leaves only blank ones, if the others are blank.
  free_where_blank :
      (test : Session → Bool) (ss : List Session) (e : E)
      → IsPool ss
      → ((s : Session) → test s ≡ false → IsSession s → s ≡ zero_session)
      → (free_where os test ss e).0 ≡ zero_session ∷ zero_session ∷ []
  unfolding free_where
  free_where_blank test [] e h k = absurd h
  free_where_blank test (a ∷ []) e h k = absurd h
  free_where_blank test (a ∷ b ∷ []) e h k =
      let e1 = (if test a then free_session os a e else (a, e)).1 in
      let p = blanked test a e (k a) h.0 in let q = blanked test b e1 (k b) h.1 in rw (p, q) refl
  free_where_blank test (a ∷ b ∷ c ∷ ss) e h k = absurd h

  -- A run of the server over any sequence of datagrams and timeouts ends, when the link goes down,
  -- with every session closed and blank, and with the counter of ids still in its 16 bits.
  pub serve_blank :
      (inputs : List (Option (Bytes × Peer))) (srv : TnfsState) (e : E)
      → IsServer srv
      → ((serve os inputs srv e).0.sessions ≡ zero_session ∷ zero_session ∷ [])
        × IsServer (serve os inputs srv e).0
  unfolding serve drop_all_sessions
  serve_blank [] srv e v = (
    free_where_blank (λ s. s.live) srv.sessions e v.is_pool (λ s q w. w.is_blank q),
    record {
      is_pool = free_where-IsPool os (λ s. s.live) srv.sessions e v.is_pool;
      counter_wide = v.counter_wide;
    },
  )
  serve_blank (input ∷ inputs) srv e v =
      serve_blank inputs (serve_turn os input srv e).0 (serve_turn os input srv e).1
        (serve_turn-IsServer input srv e v)
