-- ===== src/TnfsServer/Sessions.antt =====
-- src/net/tnfs_server.c: the pool of sessions.
pub mod Find
pub mod Ids
pub mod Closed
use fdc_sds_pio.Tnfs.Proto.{hdr_len, msg_cap, wr16}
use fdc_sds_pio.Prelude.{
  Bool, Bytes, List, Option, [], false, get_or, if◌then◌else◌, ltb, none, not, set, some, suc, take,
  true, zero, ℕ, ◌%◌, ◌&&◌, ◌++◌, ◌+◌, ◌-◌, ◌==◌, ◌^◌, ◌||◌, ◌∷◌,
}
use fdc_sds_pio.TnfsServer.Os.{Os, Peer}
use fdc_sds_pio.TnfsServer.State.{Dirslot, TnfsState, Session, idle_us, same_peer, zero_session}

-- `find_session(sid, peer)`: the index of the session, none for NULL.
unfoldable pub find_from : List Session → ℕ → ℕ → Peer → Option ℕ
unfolding same_peer
find_from [] i id peer = none
find_from (s ∷ ss) i id peer =
    let rest = find_from ss (suc i) id peer in
    if s.live && s.sid == id && same_peer s.peer peer then some i else rest

unfoldable pub find_session : TnfsState → ℕ → Peer → Option ℕ
unfolding find_from
find_session srv id peer = if id == 0 then none else find_from srv.sessions 0 id peer

unfoldable pub close_files : {E : Type 0} → Os E → List (Option ℕ) → E → E
close_files os [] e = e
close_files os (none ∷ fs) e = close_files os fs e
close_files os (some fd ∷ fs) e = close_files os fs (os.close fd e)

unfoldable pub close_dirs : {E : Type 0} → Os E → List Dirslot → E → E
close_dirs os [] e = e
close_dirs os (d ∷ ds) e =
    close_dirs os ds (if d.in_use && not (d.dir == 0) then os.closedir d.dir e else e)

-- `free_session(s)`: what it leaves of the session is `zero_session`.
unfoldable pub free_session : {E : Type 0} → Os E → Session → E → Session × E
unfolding close_files close_dirs
free_session os s e = (zero_session, close_dirs os s.dirs (close_files os s.files e))

-- The loop of `alloc_session`: the first slot that is not live.
unfoldable pub first_unused : List Session → ℕ → Option ℕ
first_unused [] i = none
first_unused (s ∷ ss) i = let rest = first_unused ss (suc i) in if s.live then rest else some i

unfoldable pub alloc_at : {E : Type 0} → Os E → Option ℕ → TnfsState → E → Option ℕ × TnfsState × E
unfolding free_session
alloc_at os none srv e = (none, srv, e)
alloc_at os (some i) srv e =
    let (s, e1) = free_session os (get_or srv.sessions i zero_session) e in
    (some i, record srv { sessions = set srv.sessions i (record s { live = true }) }, e1)

unfoldable pub alloc_session : {E : Type 0} → Os E → TnfsState → E → Option ℕ × TnfsState × E
unfolding alloc_at first_unused
alloc_session os srv e = alloc_at os (first_unused srv.sessions 0) srv e

-- A loop over the sessions that frees those that pass a test.
unfoldable pub free_where :
    {E : Type 0} → Os E → (Session → Bool) → List Session → E → List Session × E
unfolding free_session
free_where os test [] e = ([], e)
free_where os test (s ∷ ss) e =
    let (s1, e1) = if test s then free_session os s e else (s, e) in
    let (rest, e2) = free_where os test ss e1 in (s1 ∷ rest, e2)

unfoldable pub drop_all_sessions : {E : Type 0} → Os E → TnfsState → E → TnfsState × E
unfolding free_where
drop_all_sessions os srv e =
    let (ss, e1) = free_where os (λ s. s.live) srv.sessions e in (record srv { sessions = ss }, e1)

unfoldable pub is_idle : ℕ → Session → Bool
is_idle t s = s.live && ltb (s.last_active_us + idle_us) t

unfoldable pub reap_idle : {E : Type 0} → Os E → TnfsState → E → TnfsState × E
unfolding free_where is_idle
reap_idle os srv e =
    let (ss, e1) = free_where os (is_idle (os.now_us e)) srv.sessions e in
    (record srv { sessions = ss }, e1)

unfoldable pub is_taken : List Session → ℕ → Bool
is_taken [] cand = false
is_taken (s ∷ ss) cand = s.live && s.sid == cand || is_taken ss cand

-- The loop of `next_sid` from the value of the counter: the id and the counter afterwards. `none`
-- means that the fuel ran out.
unfoldable pub next_sid_from : ℕ → List Session → ℕ → Option (ℕ × ℕ)
unfolding is_taken
next_sid_from zero ss cand = none
next_sid_from (suc f) ss cand =
    let rest = next_sid_from f ss ((cand + 1) % 2 ^ 16) in
    if cand == 0 || is_taken ss cand then rest else some (cand, (cand + 1) % 2 ^ 16)

unfoldable pub take_sid : Option (ℕ × ℕ) → TnfsState → ℕ × TnfsState
take_sid none srv = (0, srv)
take_sid (some (id, next)) srv = (id, record srv { next_id = next })

-- `next_sid()`; four turns are always enough.
unfoldable pub next_sid : TnfsState → ℕ × TnfsState
unfolding next_sid_from take_sid
next_sid srv = take_sid (next_sid_from 4 srv.sessions srv.next_id) srv

-- `reply_and_cache(s, seq, cmd, body, blen)`
unfoldable pub reply_and_cache : {E : Type 0} → Os E → Session → ℕ → ℕ → Bytes → E → Session × E
unfolding wr16
reply_and_cache os s seq cmd body e =
    let bytes = wr16 s.sid ++ seq ∷ cmd ∷ take (msg_cap - hdr_len) body in
    (
      record s { cached = some (record { last_seq = seq; last_cmd = cmd; reply = bytes }) },
      os.sendto bytes s.peer e,
    )
