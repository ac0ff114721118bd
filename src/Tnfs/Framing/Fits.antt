-- ===== src/Tnfs/Framing/Fits.antt =====
-- src/net/tnfs.c: a response from the stream and its buffer.
use fdc_sds_pio.Prelude.{
  Bool, Bytes, Option, arith, inl, inr, leb, none, refl, some, true, ℕ, ◌&&◌, ◌+◌, ◌≡◌, ◌≤◌,
}
use fdc_sds_pio.Tnfs.Net.{Net, Ret}
use fdc_sds_pio.Tnfs.Framing.{tcp_response}
use fdc_sds_pio.Tnfs.Proto.{msg_cap}
use fdc_sds_pio.Tnfs.Framing.Pieces.{FitsIn, IsReceived, NetLaws, got_size, response-FitsIn}

-- A state with a meter: how many bytes of the response are in the buffer, and whether every recv so
-- far was of no more bytes than there was room for behind them.
pub record Meter (E : Type 0) : Type 0 where
  pub state : E
  pub filled : ℕ
  pub inside : Bool

abbrev metered_recv : {E : Type 0} → ℕ → Meter E → Option Bytes × E → Option Bytes × Meter E
metered_recv n m (r, e) = (
  r,
  record {
    state = e;
    filled = m.filled + got_size r;
    inside = m.inside && leb (m.filled + n) msg_cap;
  },
)

abbrev on_state : {E A : Type 0} → Meter E → A × E → A × Meter E
on_state m (a, e) = (a, record m { state = e })

-- The same network, with the meter on its recv.
abbrev pub metered : {E : Type 0} → Net E → Net (Meter E)
metered net = record {
  getaddrinfo = λ host port stream m. on_state m (net.getaddrinfo host port stream m.state);
  freeaddrinfo = λ addr m. record m { state = net.freeaddrinfo addr m.state };
  socket = λ addr ms m. on_state m (net.socket addr ms m.state);
  connect = λ sock addr m. on_state m (net.connect sock addr m.state);
  close = λ sock m. record m { state = net.close sock m.state };
  send = λ sock bytes m. on_state m (net.send sock bytes m.state);
  recv = λ sock n m. metered_recv n m (net.recv sock n m.state);
  queued = λ sock m. net.queued sock m.state;
  delay_ms = λ ms m. record m { state = net.delay_ms ms m.state };
  calloc = λ m. on_state m (net.calloc m.state);
  free = λ m. record m { state = net.free m.state };
}

abbrev pub empty_buffer : {E : Type 0} → E → Meter E
empty_buffer e = record { state = e; filled = 0; inside = true }

-- A response has from 5 to msg_cap bytes, and where there is none there is an error.
abbrev pub Fits : {E : Type 0} → Ret E Bytes → Type 0
Fits r = FitsIn (λ k e. Unit {0}) (λ e. Unit {0}) 5 msg_cap r

metered-NetLaws : {E : Type 0} (net : Net E) → NetLaws net → NetLaws (metered net)
metered-NetLaws net laws = record {
  recv_bounded = λ sock n m. laws.recv_bounded sock n m.state;
  recv_queued = λ sock n m bytes h. laws.recv_queued sock n m.state bytes h;
}

unmetered :
    {E : Type 0} (k : ℕ) (r : Option Bytes × E) → IsReceived (λ k e. Unit {0}) (λ e. Unit {0}) k r
unmetered k (none, e) = tt
unmetered k (some bytes, e) = tt

-- The meter shows `k` bytes, and nothing past the buffer.
abbrev Shows : {E : Type 0} → ℕ → Meter E → Type 0
Shows k m = (m.filled ≡ k) × (m.inside ≡ true)

abbrev StaysInside : {E : Type 0} → Meter E → Type 0
StaysInside m = m.inside ≡ true

recv-Shows :
    {E : Type 0} (k n : ℕ) (m : Meter E) (r : Option Bytes × E)
    → Shows k m
    → k + n ≤ msg_cap
    → IsReceived Shows StaysInside k (metered_recv n m r)
recv-Shows k n m (none, e) s h = ground (arith, s, h)
recv-Shows k n m (some bytes, e) s h = (omega (arith, s), ground (arith, s, h))

metered-FitsIn :
    {E : Type 0} (net : Net E) (laws : NetLaws net) (sock cmd : ℕ) (e : E)
    → FitsIn Shows StaysInside 5 msg_cap (tcp_response (metered net) sock cmd (empty_buffer e))
metered-FitsIn net laws sock cmd e =
    response-FitsIn (metered net) (metered-NetLaws net laws) Shows StaysInside (λ k m s. s.1)
      (λ sock1 k n m s h. recv-Shows k n m (net.recv sock1 n m.state) s h) sock cmd (empty_buffer e)
      (refl, refl)

inside_of :
    {E : Type 0} (r : Ret (Meter E) Bytes)
    → FitsIn Shows StaysInside 5 msg_cap r
    → r.1.inside ≡ true
inside_of (inl bytes, m) f = f.2.1
inside_of (inr err, m) f = f.1

-- Whatever the server sends over the stream, where recv gives no more than it is asked for, no recv
-- of tcp_response is ever asked for more than there is room for in the buffer behind what has been
-- received, on any path; and a response that is accepted has its header and status and ends inside
-- the buffer.
pub tcp_response-Fits :
    {E : Type 0} (net : Net E) (laws : NetLaws net) (sock cmd : ℕ) (e : E)
    → Fits (tcp_response net sock cmd e)
      × ((tcp_response (metered net) sock cmd (empty_buffer e)).1.inside ≡ true)
tcp_response-Fits net laws sock cmd e = (
  response-FitsIn net laws (λ k e1. Unit {0}) (λ e1. Unit {0}) (λ k e1 u. tt)
      (λ sock1 k n e1 u h. unmetered k (net.recv sock1 n e1)) sock cmd e tt,
  inside_of (tcp_response (metered net) sock cmd (empty_buffer e))
      (metered-FitsIn net laws sock cmd e),
)
