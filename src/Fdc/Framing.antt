-- ===== src/Fdc/Framing.antt =====
-- src/fdc/fdc.c: the receive and send loops of the two transports. A loop runs on fuel and gives `none`
-- where it runs out.
use fdc_sds_pio.Prelude.{
  Bool, Bytes, Option, [], drop, false, if◌then◌else◌, leb, length, none, some, suc, true, zero, ℕ,
  ◌%◌, ◌*◌, ◌++◌, ◌+◌, ◌-◌, ◌==◌, ◌^◌, ◌||◌, ◌∷◌,
}
pub mod Loop
pub mod Total

-- What `select` and `recv` tell the code. A positive result of `recv` is a byte and more.
pub data Select : Type 0 where
  select_failed select_timeout select_ready : Select

pub data Recv : Type 0 where
  received : ℕ → Bytes → Recv
  peer_closed would_block recv_failed : Recv

-- The sockets, the UART driver and the clocks: microseconds, and 32-bit ticks of which
-- `pdMS_TO_TICKS(ms)` is `ticks_of ms`.
pub record Driver (E : Type 0) : Type 0 where
  pub now : E → ℕ
  pub select : ℕ → ℕ → E → Select × E
  pub recv : ℕ → ℕ → E → Recv × E
  -- With MSG_DONTWAIT.
  pub recv_now : ℕ → ℕ → E → Recv × E
  -- How many bytes went out, 0 for a result that is not positive.
  pub send : ℕ → Bytes → E → ℕ × E
  pub ticks : E → ℕ
  pub ticks_of : ℕ → ℕ
  -- `none` for a negative result.
  pub uart_read_bytes : ℕ → ℕ → E → Option Bytes × E

-- One turn of a receive loop: it is over, or goes round again, with the bytes so far and the flag
-- `s_tcp_dead`.
pub data Turn (E : Type 0) : Type 0 where
  over again : Bytes → Bool → E → Turn E

module _ {E : Type 0} where
  unfoldable pub follow :
      (Bytes → Bool → E → Option (Bytes × Bool × E)) → Turn E → Option (Bytes × Bool × E)
  follow loop (over got dead e) = some (got, dead, e)
  follow loop (again got dead e) = loop got dead e

  unfoldable pub repeat :
      ℕ → (Bytes → Bool → E → Turn E) → Bytes → Bool → E → Option (Bytes × Bool × E)
  unfolding follow
  repeat zero turn got dead e = none
  repeat (suc fuel) turn got dead e = follow (repeat fuel turn) (turn got dead e)

  -- After the `recv` of `tcp_recv`.
  unfoldable pub recv_turn : Bytes → Recv × E → Turn E
  recv_turn got (received b bs, e) = again (got ++ b ∷ bs) false e
  recv_turn got (peer_closed, e) = again got true e
  recv_turn got (recv_failed, e) = again got true e
  recv_turn got (would_block, e) = again got false e

  -- After the read of `uart_recv`; there is no flag on this transport.
  unfoldable pub uart_turn : Bytes → Bool → Option Bytes × E → Turn E
  uart_turn got dead (none, e) = over got dead e
  uart_turn got dead (some bytes, e) = again (got ++ bytes) dead e

-- `(int32_t)(deadline - now) <= 0` on 32-bit ticks, and the difference.
unfoldable pub ticks_left : ℕ → ℕ → ℕ
ticks_left deadline now = (deadline + (2 ^ 32 - now)) % 2 ^ 32

unfoldable pub expired : ℕ → ℕ → Bool
unfolding ticks_left
expired deadline now = ticks_left deadline now == 0 || leb (2 ^ 31) (ticks_left deadline now)

module _ {E : Type 0} (l : Driver E) where
  -- After `select`.
  unfoldable pub select_turn : ℕ → ℕ → Bytes → Select × E → Turn E
  select_turn fd need got (select_failed, e) = over got true e
  select_turn fd need got (select_timeout, e) = over got false e
  select_turn fd need got (select_ready, e) = recv_turn got (l.recv fd (need - length got) e)

  unfoldable pub tcp_turn : ℕ → ℕ → ℕ → Bytes → Bool → E → Turn E
  tcp_turn fd need deadline got dead e =
      if leb need (length got) || dead
      then over got dead e
      else if leb deadline (l.now e)
      then over got dead e
      else select_turn fd need got (l.select fd (deadline - l.now e) e)

  unfoldable pub tcp_recv : ℕ → ℕ → Bool → ℕ → ℕ → E → Option (Bytes × Bool × E)
  tcp_recv fuel fd dead need ms e = repeat fuel (tcp_turn fd need (l.now e + ms * 1000)) [] dead e

  unfoldable pub uart_recv_turn : ℕ → ℕ → Bytes → Bool → E → Turn E
  uart_recv_turn need deadline got dead e =
      if leb need (length got) || expired deadline (l.ticks e)
      then over got dead e
      else uart_turn got dead
          (l.uart_read_bytes (need - length got) (ticks_left deadline (l.ticks e)) e)

  unfoldable pub uart_recv : ℕ → ℕ → ℕ → E → Option (Bytes × Bool × E)
  uart_recv fuel need ms e =
      repeat fuel (uart_recv_turn need ((l.ticks e + l.ticks_of ms) % 2 ^ 32)) [] false e

  -- `tcp_send`: what is left to send, the flag, and the world.
  unfoldable pub tcp_send : ℕ → ℕ → Bytes → Bool → E → Option (Bytes × Bool × E)
  tcp_send zero fd bytes dead e = none
  tcp_send (suc fuel) fd [] dead e = some ([], dead, e)
  tcp_send (suc fuel) fd (b ∷ bytes) true e = some (b ∷ bytes, true, e)
  tcp_send (suc fuel) fd (b ∷ bytes) false e =
      let r = l.send fd (b ∷ bytes) e in
      let rest = tcp_send fuel fd (drop (r.0) (b ∷ bytes)) false (r.1) in
      let stalled = tcp_send fuel fd (b ∷ bytes) true (r.1) in if r.0 == 0 then stalled else rest

  unfoldable pub flush_turn : Recv × E → Turn E
  flush_turn (received b bs, e) = again [] false e
  flush_turn (would_block, e) = over [] false e
  flush_turn (peer_closed, e) = over [] true e
  flush_turn (recv_failed, e) = over [] true e

  -- Nothing of what is read is kept.
  unfoldable pub tcp_flush_input : ℕ → ℕ → Bool → E → Option (Bytes × Bool × E)
  tcp_flush_input fuel fd dead e =
      repeat fuel (λ got gone w. if gone then over got gone w else flush_turn (l.recv_now fd 64 w))
        [] dead e
