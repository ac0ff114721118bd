-- ===== src/TnfsServer/Serve/Mounted.antt =====
-- src/net/tnfs_server.c: the pool of sessions under MOUNT.
use fdc_sds_pio.TnfsServer.Os.{Os, Peer}
use fdc_sds_pio.Prelude.{
  Bool-cases, Bytes, List, Option, [], arith, drop, get_or, if◌then◌else◌, inl, inr, length,
  length-take, ltb, none, refl, set, some, strlcpy, suc, sym, true, zero, ℕ, ◌-◌, ◌<◌, ◌∙◌, ◌∷◌,
  ◌≡◌, ◌≢◌, ◌≤◌,
}
use fdc_sds_pio.TnfsServer.State.{
  Reply, Session, TnfsState, max_dirs, max_files, root_cap, zero_session,
}
use fdc_sds_pio.TnfsServer.Paths.{memchr_nul, skip_slashes, trim_at, trim_slashes}
use fdc_sds_pio.TnfsServer.Paths.Jail.{IsTrimmed, take_short, trim_slashes-IsTrimmed}
use fdc_sds_pio.TnfsServer.Sessions.{alloc_at, free_session, next_sid, reply_and_cache}
use fdc_sds_pio.Prelude.{
  Bool-cases, Bytes, List, Option, [], arith, drop, get_or, if◌then◌else◌, inl, inr, length,
  length-take, ltb, none, refl, set, some, strlcpy, suc, sym, true, zero, ℕ, ◌-◌, ◌<◌, ◌∙◌, ◌∷◌,
  ◌≡◌, ◌≢◌, ◌≤◌,
}
use fdc_sds_pio.TnfsServer.Sessions.Ids.{IsFresh, Unused, next_sid-IsFresh}
use fdc_sds_pio.TnfsServer.Serve.{
  is_bad_root, mount_allocated, mount_root, put_session, session_at, string_or_empty,
}
use fdc_sds_pio.TnfsServer.Serve.Invariant.{IsPool, IsServer, IsSession, zero_session-IsSession}

length-trim_at : (c : ℕ) (t : Bytes) → length (trim_at c t) ≤ suc (length t)
unfolding trim_at
length-trim_at c [] = ground arith
length-trim_at c (x ∷ t) = omega arith

length-trim : (s : Bytes) → length (trim_slashes s) ≤ length s
unfolding trim_slashes
length-trim [] = omega arith
length-trim (c ∷ s) = omega (arith, length-trim_at c (trim_slashes s), length-trim s)

-- The root of a mount, cut to the field that it goes into.
abbrev pub IsRoot : Bytes → Type 0
IsRoot root = IsTrimmed (strlcpy root_cap root) × (length (strlcpy root_cap root) < root_cap)

pub mount_root-IsRoot : (pl : Bytes) → IsRoot (mount_root pl)
unfolding mount_root
mount_root-IsRoot pl =
    at (if ltb 2 (length pl) then string_or_empty (memchr_nul (drop 2 pl)) else [])
  where
    at : (mp : Bytes) → IsRoot (trim_slashes (strlcpy root_cap (skip_slashes mp)))
    at mp =
        let cut = strlcpy root_cap (skip_slashes mp) in
        let short : length (trim_slashes cut) ≤ root_cap - 1 =
          omega (arith, length-trim cut, length-take (root_cap - 1) (skip_slashes mp)) in
        rw (take_short (root_cap - 1) (trim_slashes cut) short)
          (trim_slashes-IsTrimmed cut, omega arith)

-- The session that `alloc_session` has taken, and what a successful MOUNT makes of it.
abbrev taken : Session
taken = record zero_session { live = true }

-- The new session is live and blank but for its id, its mount and its reply.
record IsNew (id : ℕ) (s : Session) : Type 0 where
  new_sid : s.sid ≡ id
  new_files : length s.files ≡ max_files
  new_dirs : length s.dirs ≡ max_dirs
  new_trimmed : IsTrimmed s.root
  new_fits : length s.root < root_cap
  new_live : s.live ≡ true

new-IsSession : (id : ℕ) (s : Session) → id ≢ 0 → IsNew id s → IsSession s
new-IsSession id s z n = record {
  four_files = n.new_files;
  two_dirs = n.new_dirs;
  root_trimmed = n.new_trimmed;
  root_fits = n.new_fits;
  has_sid = λ h. rw n.new_sid z;
  is_blank = λ h. absurd (cc (h, n.new_live));
}

-- An id that is free in the pool, with the slot taken, is another than that of the other session.
mounted-IsPool :
    (ss : List Session) (i : ℕ) (id : ℕ) (make : Session → Session)
    → IsPool ss
    → id ≢ 0
    → Unused (set ss i taken) id
    → IsNew id (make taken)
    → IsPool (set (set ss i taken) i (make (get_or (set ss i taken) i zero_session)))
mounted-IsPool [] i id make h z f n = absurd h
mounted-IsPool (a ∷ []) i id make h z f n = absurd h
mounted-IsPool (a ∷ b ∷ []) zero id make h z f n =
    (new-IsSession id (make taken) z n, h.1, λ p q e. f.1.0 q (sym e ∙ n.new_sid))
mounted-IsPool (a ∷ b ∷ []) (suc zero) id make h z f n =
    (h.0, new-IsSession id (make taken) z n, λ p q e. f.0 p (e ∙ n.new_sid))
mounted-IsPool (a ∷ b ∷ []) (suc (suc i)) id make h z f n = h
mounted-IsPool (a ∷ b ∷ c ∷ ss) i id make h z f n = absurd h

blank-IsPool :
    (ss : List Session) (i : ℕ) → IsPool ss → IsPool (set (set ss i taken) i zero_session)
blank-IsPool [] i h = absurd h
blank-IsPool (a ∷ []) i h = absurd h
blank-IsPool (a ∷ b ∷ []) zero h = (zero_session-IsSession, h.1, λ p q e. absurd (cc))
blank-IsPool (a ∷ b ∷ []) (suc zero) h = (h.0, zero_session-IsSession, λ p q e. absurd (cc))
blank-IsPool (a ∷ b ∷ []) (suc (suc i)) h = h
blank-IsPool (a ∷ b ∷ c ∷ ss) i h = absurd h

-- A pool has two sessions, and the pool with a slot taken has.
two_taken :
    (ss : List Session) (i : ℕ)
    → IsPool ss
    → (a : Session) × (b : Session) × (set ss i taken ≡ a ∷ b ∷ [])
two_taken [] i h = absurd h
two_taken (a ∷ []) i h = absurd h
two_taken (a ∷ b ∷ []) zero h = (taken, b, refl)
two_taken (a ∷ b ∷ []) (suc zero) h = (a, taken, refl)
two_taken (a ∷ b ∷ []) (suc (suc i)) h = (a, b, refl)
two_taken (a ∷ b ∷ c ∷ ss) i h = absurd h

-- What a successful MOUNT writes into the session it has taken.
abbrev mounted : ℕ → Peer → Bytes → ℕ → Option Reply → Session → Session
mounted id peer root t r s = record s {
  sid = id;
  peer = peer;
  root = strlcpy root_cap root;
  last_active_us = t;
  cached = r;
}

-- The pool with the new session, or with the slot blank again.
record IsTaken (ss : List Session) (i id : ℕ) (srv : TnfsState) : Type 0 where
  pool_before : IsPool ss
  one_taken : srv.sessions ≡ set ss i taken
  fresh_id : IsFresh srv.sessions id srv.next_id

mounted-IsServer :
    (ss : List Session) (i id : ℕ) (srv : TnfsState) (peer : Peer) (root : Bytes) (t : ℕ)
    (r : Option Reply)
    → IsTaken ss i id srv
    → IsRoot root
    → IsServer (put_session srv i (mounted id peer root t r (session_at srv i)))
mounted-IsServer ss i id srv peer root t r k ok = record {
  is_pool = rw k.one_taken (
      mounted-IsPool ss i id (mounted id peer root t r) k.pool_before k.fresh_id.nonzero
        (rw k.one_taken at k.fresh_id.unused)
        (record {
          new_sid = refl;
          new_files = refl;
          new_dirs = refl;
          new_trimmed = ok.0;
          new_fits = ok.1;
          new_live = refl;
        }));
  counter_wide = k.fresh_id.next_wide;
}

blank-IsServer :
    (ss : List Session) (i id : ℕ) (srv : TnfsState)
    → IsTaken ss i id srv
    → IsServer (put_session srv i zero_session)
blank-IsServer ss i id srv k = record {
  is_pool = rw k.one_taken (blank-IsPool ss i k.pool_before);
  counter_wide = k.fresh_id.next_wide;
}

next_sid-IsTaken :
    (srv : TnfsState) (i : ℕ)
    → IsServer srv
    → let srv1 = record srv { sessions = set srv.sessions i taken } in
      IsTaken srv.sessions i (next_sid srv1).0 (next_sid srv1).1
next_sid-IsTaken srv i v =
    let srv1 = record srv { sessions = set srv.sessions i taken } in
    let (a, b, two) = two_taken srv.sessions i v.is_pool in
    let (fresh, same, _) = next_sid-IsFresh srv1 a b two v.counter_wide in
    record { pool_before = v.is_pool; one_taken = same; fresh_id = rw same fresh }

module _ {E : Type 0} (os : Os E) where
  pub mount_allocated-IsServer :
      (seq : ℕ) (root : Bytes) (peer : Peer) (i : Option ℕ) (srv : TnfsState) (e : E)
      → IsRoot root
      → IsServer srv
      → IsServer (mount_allocated os seq root peer (alloc_at os i srv e)).0
  unfolding mount_allocated alloc_at free_session reply_and_cache
  mount_allocated-IsServer seq root peer none srv e ok v = v
  mount_allocated-IsServer seq root peer (some i) srv e ok v =
      let srv1 = record srv { sessions = set srv.sessions i taken } in
      let n = next_sid srv1 in
      let k = next_sid-IsTaken srv i v in
      elim (Bool-cases (is_bad_root root)) [
        | inl q ↦ rw q (blank-IsServer srv.sessions i n.0 n.1 k)
        | inr q ↦ rw q (mounted-IsServer srv.sessions i n.0 n.1 peer root _ _ k ok)
      ]
