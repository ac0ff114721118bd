-- ===== src/Fdc/Attach.antt =====
-- src/fdc/fdc.c: attaching a TCP client, and what the task does with it between commands.
use fdc_sds_pio.Prelude.{
  Bool, Bytes, Option, [], false, if◌then◌else◌, none, not, some, strlcpy, true, ℕ, ◌&&◌, ◌||◌,
}
use fdc_sds_pio.Fdc.State.{
  Fdc, TcpState, inc, led_drive_clear, tcp_connected, tcp_listening, tcp_off, xport_tcp, xport_uart,
}
use fdc_sds_pio.Fdc.Wire.{Wire}
pub mod Ownership
pub mod Commands
pub mod Detach
pub mod Turn

abbrev pub tcp_peer_cap : ℕ
tcp_peer_cap = 24

-- `fdc_tcp_attach` finds the slot empty.
unfoldable pub attach_free : Fdc → Bool
attach_free f = not f.tcp_active && elim f.tcp_pending [ none ↦ true | some fd ↦ false ]

unfoldable pub fdc_tcp_attach : ℕ → Option Bytes → Fdc → Bool × Fdc
fdc_tcp_attach fd peer f =
    if attach_free f
    then (
      true,
      record f {
        tcp_pending_peer = strlcpy tcp_peer_cap (elim peer [ none ↦ [] | some text ↦ text ]);
        tcp_pending = some fd;
        tcp_active = true;
      },
    )
    else (false, record f { stats = record f.stats { tcp_refused = inc f.stats.tcp_refused } })

unfoldable pub fdc_tcp_busy : Fdc → Bool
fdc_tcp_busy f = f.tcp_active

unfoldable pub fdc_tcp_detach : Fdc → Fdc
fdc_tcp_detach f = if f.tcp_active then record f { tcp_kick = true } else f

unfoldable pub fdc_tcp_set_state : TcpState → ℕ → Fdc → Fdc
fdc_tcp_set_state state port f = record f {
  stats = record f.stats { tcp_state = state; tcp_port = port };
}

-- Only a connected state goes back to listening.
unfoldable pub after_drop : TcpState → TcpState
after_drop tcp_connected = tcp_listening
after_drop tcp_off = tcp_off
after_drop tcp_listening = tcp_listening

-- The effect of `tcp_drop` on the variables, the socket closed.
unfoldable pub dropped : Fdc → Fdc
dropped f = record (led_drive_clear f) {
  tcp_fd = none;
  tcp_dead = false;
  tcp_kick = false;
  tcp_active = false;
  stats = record f.stats {
    tcp_disconnects = inc f.stats.tcp_disconnects;
    transport = xport_uart;
    tcp_peer = [];
    tcp_state = after_drop f.stats.tcp_state;
  };
}

-- A pending client becomes the client.
unfoldable pub adopted : ℕ → Fdc → Fdc
adopted fd f = record f {
  tcp_fd = some fd;
  tcp_pending = none;
  tcp_dead = false;
  tcp_kick = false;
  stats = record f.stats {
    tcp_connects = inc f.stats.tcp_connects;
    transport = xport_tcp;
    tcp_state = tcp_connected;
    tcp_peer = f.tcp_pending_peer;
  };
}

unfoldable pub adopt : Option ℕ → Option ℕ → Fdc → Fdc
adopt none (some fd) f = adopted fd f
adopt none none f = f
adopt (some fd) pending f = f

module _ {E : Type 0} (w : Wire E) where
  unfoldable pub tcp_drop : Option ℕ → Fdc → E → Fdc × E
  tcp_drop (some fd) f e = (dropped f, w.close fd e)
  tcp_drop none f e = (f, e)

  unfoldable pub tcp_service : Fdc → E → Fdc × E
  unfolding tcp_drop
  tcp_service f e =
      let (f1, e1) = if f.tcp_dead || f.tcp_kick then tcp_drop f.tcp_fd f e else (f, e) in
      (adopt f1.tcp_fd f1.tcp_pending f1, e1)
