-- ===== src/TnfsServer/Sessions/Find.antt =====
-- src/net/tnfs_server.c: the session that find_session gives.
use fdc_sds_pio.Prelude.{
  Bool, Bool-cases, List, [], ap, arith, get_or, inl, inr, length, refl, set, some, suc, sym, true,
  zero, ℕ, ◌&&◌, ◌+◌, ◌<◌, ◌==◌, ◌∙◌, ◌∷◌, ◌≡◌,
}
use fdc_sds_pio.TnfsServer.Os.{Peer}
use fdc_sds_pio.TnfsServer.State.{Session, same_peer, zero_session}
use fdc_sds_pio.TnfsServer.Sessions.{find_from}

-- The test of the loop.
abbrev pub fits_request : ℕ → Peer → Session → Bool
fits_request id peer s = s.live && s.sid == id && same_peer s.peer peer

pub get_or-set {ℓ} :
    {A : Type ℓ} (xs : List A) (i : ℕ) (v z : A) → i < length xs → get_or (set xs i v) i z ≡ v
get_or-set [] i v z h = absurd (omega arith)
get_or-set (x ∷ xs) zero v z h = refl
get_or-set (x ∷ xs) (suc i) v z h = get_or-set xs i v z (omega arith)

pub same_peer_eq : (a b : Peer) → same_peer a b ≡ true → a ≡ b
unfolding same_peer
same_peer_eq a b h =
    let p : a.addr ≡ b.addr = ground (arith, h) in
    let q : a.port ≡ b.port = ground (arith, h) in λ i. record { addr = p i; port = q i }

pub found_from :
    (ss : List Session) (k id : ℕ) (peer : Peer) (i : ℕ)
    → find_from ss k id peer ≡ some i
    → (j : ℕ) × (i ≡ k + j)
      × (j < length ss)
      × (fits_request id peer (get_or ss j zero_session) ≡ true)
unfolding find_from
found_from [] k id peer i h = absurd (cc)
found_from (s ∷ ss) k id peer i h = elim (Bool-cases (fits_request id peer s)) [
  | inl q ↦ (0, ground (arith, h, q), omega arith, q)
  | inr q ↦
      let (j, e, l, f) = found_from ss (suc k) id peer i (rw q at h) in
      (suc j, omega arith, omega arith, f)
]

some_eq : (a b : ℕ) → some a ≡ some b → a ≡ b
some_eq a b h = cc

-- The same session is found once another that passes the test stands in its place.
pub find_from-set :
    (ss : List Session) (k id : ℕ) (peer : Peer) (j : ℕ) (s : Session)
    → find_from ss k id peer ≡ some (k + j)
    → fits_request id peer s ≡ true
    → find_from (set ss j s) k id peer ≡ some (k + j)
unfolding find_from
find_from-set [] k id peer j s h f = absurd (cc)
find_from-set (x ∷ ss) k id peer zero s h f = ground (arith, f)
find_from-set (x ∷ ss) k id peer (suc j) s h f = elim (Bool-cases (fits_request id peer x)) [
  | inl q ↦ absurd (omega (arith, some_eq k (k + suc j) (rw q at h)))
  | inr q ↦
      let at_next : k + suc j ≡ suc k + j = omega arith in
      rw q (rw at_next (find_from-set ss (suc k) id peer j s (rw (← at_next) (rw q at h)) f))
]

pub find_from_start :
    (ss : List Session) (id : ℕ) (peer : Peer) (i : ℕ) (s : Session)
    → find_from ss 0 id peer ≡ some i
    → fits_request id peer s ≡ true
    → find_from (set ss i s) 0 id peer ≡ some i
find_from_start ss id peer i s h f =
    let z : 0 + i ≡ i = omega arith in
    rw z at (find_from-set ss 0 id peer i s (h ∙ ap some (sym z)) f)
