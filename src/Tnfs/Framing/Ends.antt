-- ===== src/Tnfs/Framing/Ends.antt =====
-- src/net/tnfs.c: the fuel of the loops of the transport.
use fdc_sds_pio.Prelude.{
  Bytes, Option, [], arith, length, none, refl, some, suc, zero, ℕ, ◌++◌, ◌+◌, ◌-◌, ◌<◌, ◌∷◌, ◌≡◌,
  ◌≤◌,
}
use fdc_sds_pio.Tnfs.Proto.{msg_cap}
use fdc_sds_pio.Tnfs.Net.{Net}
use fdc_sds_pio.Tnfs.Framing.{read_from, read_turn, udp_from, udp_response, udp_turn}
use fdc_sds_pio.Tnfs.Framing.Pieces.{NetLaws}

read_turn_same :
    {E : Type 0} (rest other : ℕ → Bytes → E → Option Bytes × E) (n : ℕ) (acc : Bytes)
    (r : Option Bytes × E)
    → ((m : ℕ) (acc1 : Bytes) (e1 : E) → m < n → rest m acc1 e1 ≡ other m acc1 e1)
    → 0 < n
    → read_turn rest n acc r ≡ read_turn other n acc r
unfolding read_turn
read_turn_same rest other n acc (none, e) h l = refl
read_turn_same rest other n acc (some [], e) h l = refl
read_turn_same rest other n acc (some (b ∷ bs), e) h l =
    h (n - length (b ∷ bs)) (acc ++ b ∷ bs) e (omega arith)

udp_turn_same :
    {E : Type 0} (rest other : E → Option Bytes × E) (seq cmd : ℕ) (r : Option Bytes × E)
    → ((bytes : Bytes) → r.0 ≡ some bytes → rest r.1 ≡ other r.1)
    → udp_turn rest seq cmd r ≡ udp_turn other seq cmd r
unfolding udp_turn
udp_turn_same rest other seq cmd (none, e) h = refl
udp_turn_same rest other seq cmd (some resp, e) h = rw (h resp refl) refl

module _ {E : Type 0} (net : Net E) where
  -- The loop of tcp_read_exact on `n` missing bytes gives the same on any fuel from `n` on.
  pub read_from_ends :
      (sock f g n : ℕ) (acc : Bytes) (e : E)
      → n ≤ f
      → n ≤ g
      → read_from net sock f n acc e ≡ read_from net sock g n acc e
  unfolding read_from
  read_from_ends sock f g zero acc e a b = refl
  read_from_ends sock zero g (suc n) acc e a b = absurd (omega (arith, a))
  read_from_ends sock (suc f) zero (suc n) acc e a b = absurd (omega (arith, b))
  read_from_ends sock (suc f) (suc g) (suc n) acc e a b =
      read_turn_same (read_from net sock f) (read_from net sock g) (suc n) acc
        (net.recv sock (suc n) e)
        (λ m acc1 e1 l.
          read_from_ends sock f g m acc1 e1 (omega (arith, a, l)) (omega (arith, b, l)))
        (omega arith)

  udp_from_ends :
      (laws : NetLaws net) (sock f g seq cmd : ℕ) (e : E)
      → net.queued sock e < f
      → net.queued sock e < g
      → udp_from net sock f seq cmd e ≡ udp_from net sock g seq cmd e
  unfolding udp_from
  udp_from_ends laws sock zero g seq cmd e a b = absurd (omega (arith, a))
  udp_from_ends laws sock (suc f) zero seq cmd e a b = absurd (omega (arith, b))
  udp_from_ends laws sock (suc f) (suc g) seq cmd e a b =
      udp_turn_same (udp_from net sock f seq cmd) (udp_from net sock g seq cmd) seq cmd
        (net.recv sock msg_cap e)
        (λ bytes h.
          let fewer = laws.recv_queued sock msg_cap e bytes h in
          udp_from_ends laws sock f g seq cmd (net.recv sock msg_cap e).1 (omega (arith, a, fewer))
            (omega (arith, b, fewer)))

  -- The wait for a datagram is over within a turn for each thing that can still come and one for the
  -- timeout: on more fuel it gives the same, where every recv that gives something leaves fewer to
  -- come.
  pub udp_response_ends :
      (laws : NetLaws net) (sock seq cmd more : ℕ) (e : E)
      → udp_response net sock seq cmd e
        ≡ udp_from net sock (suc (net.queued sock e) + more) seq cmd e
  unfolding udp_response
  udp_response_ends laws sock seq cmd more e =
      udp_from_ends laws sock (suc (net.queued sock e)) (suc (net.queued sock e) + more) seq cmd e
        (omega arith) (omega arith)
