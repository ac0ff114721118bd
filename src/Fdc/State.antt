-- ===== src/Fdc/State.antt =====
-- include/fdc.h, src/fdc/fdc.c: the counters, the LEDs, and the static variables of the engine.
use fdc_sds_pio.Prelude.{Bool, Bytes, Option, false, ltb, true, ℕ, ◌%◌, ◌&&◌, ◌+◌, ◌==◌, ◌^◌}

pub data Transport : Type 0 where
  xport_uart xport_tcp : Transport

pub data TcpState : Type 0 where
  tcp_off tcp_listening tcp_connected : TcpState

-- The last-operation string: its format and arguments, before it is printed and cut to 39 characters.
pub data LastOp : Type 0 where
  no_op : LastOp
  stat_op : ℕ → ℕ → LastOp
  read_not_ready read_ok : ℕ → ℕ → ℕ → LastOp
  writ_not_ready writ_data_timeout writ_csum_timeout : ℕ → ℕ → ℕ → LastOp
  writ_csum_err writ_write_err writ_ok : ℕ → ℕ → ℕ → LastOp
  unknown_op : Bytes → LastOp

pub record Stats : Type 0 where
  pub stat : ℕ
  pub read : ℕ
  pub writ : ℕ
  pub not_ready : ℕ
  pub cmd_csum : ℕ
  pub data_csum : ℕ
  pub cmd_timeout : ℕ
  pub data_timeout : ℕ
  pub fifo_ovf : ℕ
  pub frame_err : ℕ
  pub unknown : ℕ
  pub tcp_connects : ℕ
  pub tcp_disconnects : ℕ
  pub tcp_refused : ℕ
  pub last_op : LastOp
  pub transport : Transport
  pub tcp_state : TcpState
  pub tcp_port : ℕ
  pub tcp_peer : Bytes

-- `++` on a `uint32_t`
abbrev pub inc : ℕ → ℕ
inc n = (n + 1) % 2 ^ 32

pub record Loopback : Type 0 where
  pub ran : Bool
  pub sent : ℕ
  pub received : ℕ
  pub mismatches : ℕ
  pub first_bad : ℕ

-- The file descriptors `s_tcp_fd` and `s_tcp_pending` are `none` for -1. `led i` is the LED of drive
-- `i`; the timers are running or not.
pub record Fdc : Type 0 where
  pub stats : Stats
  pub status_led : Bool
  pub status_timer : Bool
  pub led : ℕ → Bool
  pub drive_timer : Bool
  pub cmd : Bytes
  pub resp : Bytes
  pub payload : Bytes
  pub baud : ℕ
  pub pending_baud : ℕ
  pub lb_req : Bool
  pub lb_result : Loopback
  pub tcp_fd : Option ℕ
  pub tcp_pending : Option ℕ
  pub tcp_pending_peer : Bytes
  pub tcp_active : Bool
  pub tcp_kick : Bool
  pub tcp_dead : Bool

-- Only the LED of a real drive number is lit.
abbrev pub led_drive_select : ℕ → Fdc → Fdc
led_drive_select drive f = record f { led = λ i. ltb i 4 && i == drive }

abbrev pub led_drive_clear : Fdc → Fdc
led_drive_clear f = record f { led = λ i. false }

abbrev pub led_status_blip : Fdc → Fdc
led_status_blip f = record f { status_led = true; status_timer = true }

abbrev pub led_drive_activity : Fdc → Fdc
led_drive_activity f = record f { drive_timer = true }

-- The callbacks of the two one-shot timers.
unfoldable pub led_timer_cb : Fdc → Fdc
led_timer_cb f = record f { status_led = false; status_timer = false }

unfoldable pub drive_led_timer_cb : Fdc → Fdc
drive_led_timer_cb f = record (led_drive_clear f) { drive_timer = false }

abbrev pub set_last_op : LastOp → Fdc → Fdc
set_last_op op f = record f { stats = record f.stats { last_op = op } }

unfoldable pub fdc_get_stats : Fdc → Stats
fdc_get_stats f = f.stats

-- Only the counters and the last operation are reset.
unfoldable pub fdc_clear_stats : Fdc → Fdc
fdc_clear_stats f = record f {
  stats = record {
    stat = 0;
    read = 0;
    writ = 0;
    not_ready = 0;
    cmd_csum = 0;
    data_csum = 0;
    cmd_timeout = 0;
    data_timeout = 0;
    fifo_ovf = 0;
    frame_err = 0;
    unknown = 0;
    tcp_connects = 0;
    tcp_disconnects = 0;
    tcp_refused = 0;
    last_op = no_op;
    transport = f.stats.transport;
    tcp_state = f.stats.tcp_state;
    tcp_port = f.stats.tcp_port;
    tcp_peer = f.stats.tcp_peer;
  };
}

unfoldable pub fdc_set_baud : ℕ → Fdc → Fdc
fdc_set_baud baud f = record f { pending_baud = baud }

unfoldable pub fdc_baud : Fdc → ℕ
fdc_baud f = f.baud
