-- ===== src/TnfsServer/Serve/Invariant.antt =====
-- src/net/tnfs_server.c: the invariant of the pool of sessions.
use fdc_sds_pio.Prelude.{
  Bool, Bool-cases, List, Option, [], arith, false, get_or, if◌then◌else◌, inl, inr, length, refl,
  set, suc, true, zero, ℕ, ◌<◌, ◌^◌, ◌∙◌, ◌∷◌, ◌≡◌, ◌≢◌, ◌⊎◌,
}
use fdc_sds_pio.TnfsServer.Os.{Os}
use fdc_sds_pio.TnfsServer.State.{
  Reply, TnfsState, Session, max_dirs, max_files, root_cap, zero_session,
}
use fdc_sds_pio.TnfsServer.Paths.Jail.{IsTrimmed}
use fdc_sds_pio.TnfsServer.Sessions.{free_session, free_where}
use fdc_sds_pio.TnfsServer.Process.{touch}
use fdc_sds_pio.TnfsServer.Process.Keeps.{Keeps}

-- One session: its tables have their size, its mount fits its buffer and has no slash at its end, a
-- live one has an id, and one that is not live is blank, with nothing open.
pub record IsSession (s : Session) : Type 0 where
  pub four_files : length s.files ≡ max_files
  pub two_dirs : length s.dirs ≡ max_dirs
  pub root_trimmed : IsTrimmed s.root
  pub root_fits : length s.root < root_cap
  pub has_sid : s.live ≡ true → s.sid ≢ 0
  pub is_blank : s.live ≡ false → s ≡ zero_session

-- Two live sessions do not share an id.
abbrev pub Distinct : Session → Session → Type 0
Distinct a b = a.live ≡ true → b.live ≡ true → a.sid ≢ b.sid

abbrev pub IsPool : List Session → Type 0
IsPool [] = ⊥
IsPool (a ∷ []) = ⊥
IsPool (a ∷ b ∷ []) = IsSession a × IsSession b × Distinct a b
IsPool (a ∷ b ∷ c ∷ ss) = ⊥

pub record IsServer (srv : TnfsState) : Type 0 where
  pub is_pool : IsPool srv.sessions
  pub counter_wide : srv.next_id < 2 ^ 16

pub zero_session-IsSession : IsSession zero_session
zero_session-IsSession = record {
  four_files = refl;
  two_dirs = refl;
  root_trimmed = tt;
  root_fits = omega arith;
  has_sid = λ h. absurd (cc);
  is_blank = λ h. refl;
}

-- What a turn may do to a session: it keeps its id and its life, or it becomes blank.
abbrev pub Shrinks : Session → Session → Type 0
Shrinks s s1 = ((s1.live ≡ s.live) × (s1.sid ≡ s.sid)) ⊎ (s1 ≡ zero_session)

blank_live : (s : Session) → s ≡ zero_session → s.live ≢ true
blank_live s e h = cc

Shrinks-Distinct :
    (a b a1 b1 : Session) → Shrinks a a1 → Shrinks b b1 → Distinct a b → Distinct a1 b1
Shrinks-Distinct a b a1 b1 (inr e) q d p r h = absurd (blank_live a1 e p)
Shrinks-Distinct a b a1 b1 (inl e) (inr f) d p r h = absurd (blank_live b1 f r)
Shrinks-Distinct a b a1 b1 (inl (la, ia)) (inl (lb, ib)) d p r h = d (cc) (cc) (cc)

pub set-IsPool :
    (ss : List Session) (i : ℕ) (s1 : Session)
    → IsPool ss
    → Shrinks (get_or ss i zero_session) s1
    → IsSession s1
    → IsPool (set ss i s1)
set-IsPool [] i s1 h k v = absurd h
set-IsPool (a ∷ []) i s1 h k v = absurd h
set-IsPool (a ∷ b ∷ []) zero s1 h k v = (v, h.1, Shrinks-Distinct a b s1 b k (inl (refl, refl)) h.2)
set-IsPool (a ∷ b ∷ []) (suc zero) s1 h k v =
    (h.0, v, Shrinks-Distinct a b a s1 (inl (refl, refl)) k h.2)
set-IsPool (a ∷ b ∷ []) (suc (suc i)) s1 h k v = h
set-IsPool (a ∷ b ∷ c ∷ ss) i s1 h k v = absurd h

pub get_or-IsSession :
    (ss : List Session) (i : ℕ) → IsPool ss → IsSession (get_or ss i zero_session)
get_or-IsSession [] i h = absurd h
get_or-IsSession (a ∷ []) i h = absurd h
get_or-IsSession (a ∷ b ∷ []) zero h = h.0
get_or-IsSession (a ∷ b ∷ []) (suc zero) h = h.1
get_or-IsSession (a ∷ b ∷ []) (suc (suc i)) h = zero_session-IsSession
get_or-IsSession (a ∷ b ∷ c ∷ ss) i h = absurd h

-- A session that has kept the rest is as good as before, while it is live.
pub Keeps-IsSession :
    (s s1 : Session)
    → s.live ≡ true
    → Keeps s s1
    → IsSession s
    → (r : Option Reply) (t : ℕ) → IsSession (touch t (record s1 { cached = r }))
Keeps-IsSession s s1 l k v r t = record {
  four_files = k.files_kept ∙ v.four_files;
  two_dirs = k.dirs_kept ∙ v.two_dirs;
  root_trimmed = rw k.root_kept v.root_trimmed;
  root_fits = rw k.root_kept v.root_fits;
  has_sid = λ h. rw k.sid_kept (v.has_sid l);
  is_blank = λ h. absurd (cc (h, k.live_kept, l));
}

module _ {E : Type 0} (os : Os E) where
  freed :
      (test : Session → Bool) (s : Session) (e : E)
      → IsSession s
      → Shrinks s (if test s then free_session os s e else (s, e)).0
        × IsSession (if test s then free_session os s e else (s, e)).0
  unfolding free_session
  freed test s e v = elim (Bool-cases (test s)) [
    | inl q ↦ rw q (inr refl, zero_session-IsSession)
    | inr q ↦ rw q (inl (refl, refl), v)
  ]

  -- What `free_where` and the two loops over it do to a pool.
  pub free_where-IsPool :
      (test : Session → Bool) (ss : List Session) (e : E)
      → IsPool ss
      → IsPool (free_where os test ss e).0
  unfolding free_where free_session
  free_where-IsPool test [] e h = absurd h
  free_where-IsPool test (a ∷ []) e h = absurd h
  free_where-IsPool test (a ∷ b ∷ []) e h =
      let ka = freed test a e h.0 in
      let e1 = (if test a then free_session os a e else (a, e)).1 in
      let kb = freed test b e1 h.1 in (ka.1, kb.1, Shrinks-Distinct a b _ _ ka.0 kb.0 h.2)
  free_where-IsPool test (a ∷ b ∷ c ∷ ss) e h = absurd h
