-- ===== src/Fdc/Wire.antt =====
-- src/fdc/fdc.c: the active transport. The two framings and the UART driver come as an interface;
-- the loops of the framings are in Framing.
use fdc_sds_pio.Prelude.{Bool, Bytes, Option, false, none, some, true, ℕ}
use fdc_sds_pio.Fdc.State.{Fdc}

pub record Wire (E : Type 0) : Type 0 where
  -- At most `need` bytes within the timeout in milliseconds.
  pub uart_recv : ℕ → ℕ → E → Bytes × E
  pub uart_send : Bytes → E → E
  pub uart_flush_input : E → E
  pub uart_wait_tx_done : E → E
  -- `uart_set_baudrate(...) == ESP_OK`
  pub uart_set_baudrate : ℕ → E → Bool × E
  -- On a socket, with the flag `s_tcp_dead` before and after.
  pub tcp_recv : ℕ → Bool → ℕ → ℕ → E → Bytes × Bool × E
  pub tcp_send : ℕ → Bool → Bytes → E → Bool × E
  pub tcp_flush_input : ℕ → Bool → E → Bool × E
  pub close : ℕ → E → E

abbrev pub on_tcp : Fdc → Bool
on_tcp f = elim f.tcp_fd [ none ↦ false | some fd ↦ true ]

module _ {E : Type 0} (w : Wire E) where
  unfoldable pub recv_on : Option ℕ → ℕ → ℕ → Fdc → E → Bytes × Fdc × E
  recv_on none need ms f e = let (got, e1) = w.uart_recv need ms e in (got, f, e1)
  recv_on (some fd) need ms f e =
      let (got, dead, e1) = w.tcp_recv fd f.tcp_dead need ms e in
      (got, record f { tcp_dead = dead }, e1)

  unfoldable pub send_on : Option ℕ → Bytes → Fdc → E → Fdc × E
  send_on none bytes f e = (f, w.uart_send bytes e)
  send_on (some fd) bytes f e =
      let (dead, e1) = w.tcp_send fd f.tcp_dead bytes e in (record f { tcp_dead = dead }, e1)

  unfoldable pub flush_on : Option ℕ → Fdc → E → Fdc × E
  flush_on none f e = (f, w.uart_flush_input e)
  flush_on (some fd) f e =
      let (dead, e1) = w.tcp_flush_input fd f.tcp_dead e in (record f { tcp_dead = dead }, e1)

  unfoldable pub link_recv : ℕ → ℕ → Fdc → E → Bytes × Fdc × E
  unfolding recv_on
  link_recv need ms f e = recv_on f.tcp_fd need ms f e

  unfoldable pub link_send : Bytes → Fdc → E → Fdc × E
  unfolding send_on
  link_send bytes f e = send_on f.tcp_fd bytes f e

  unfoldable pub link_flush_input : Fdc → E → Fdc × E
  unfolding flush_on
  link_flush_input f e = flush_on f.tcp_fd f e
