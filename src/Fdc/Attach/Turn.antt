-- ===== src/Fdc/Attach/Turn.antt =====
-- The task of src/fdc/fdc.c and the TCP listener, interleaved.
use fdc_sds_pio.Fdc.Attach.{fdc_tcp_attach, fdc_tcp_detach, fdc_tcp_set_state, tcp_service}
use fdc_sds_pio.Protocol.{block_len, block_valid}
use fdc_sds_pio.Disk.Worker.{Handoff}
use fdc_sds_pio.Prelude.{
  Bool-cases, Bytes, List, Option, if◌then◌else◌, inl, inr, length, not, ℕ, ◌-◌, ◌==◌,
}
use fdc_sds_pio.Disk.Io.{Io}
use fdc_sds_pio.Disk.Table.{Disk}
use fdc_sds_pio.Fdc.State.{
  Fdc, TcpState, drive_led_timer_cb, fdc_clear_stats, fdc_set_baud, led_timer_cb,
}
use fdc_sds_pio.Fdc.Wire.{Wire, link_recv, on_tcp}
use fdc_sds_pio.Fdc.Handlers.{cmd_timeout_ms}
use fdc_sds_pio.Fdc.Task.{
  UartEvent, apply_pending_baud, command_timeout, drain_uart_events, fdc_task_turn, idle_poll_ms,
  receive_command, receive_rest, run_loopback, serve_command,
}
use fdc_sds_pio.Fdc.Attach.Ownership.{IsLinked, attach-IsLinked, detach-IsLinked, service-IsLinked}
use fdc_sds_pio.Fdc.Attach.Commands.{
  baud-IsLinked, dispatch-IsLinked, events-IsLinked, flush-IsLinked, recv-IsLinked,
}

module _ {E : Type 0} (w : Wire E) where
  module _ (io : Io E) (hand : Handoff E) where
    serve-IsLinked :
        (f : Fdc) (s : Disk) (e : E) → IsLinked f → IsLinked ((serve_command w io hand f s e).0)
    unfolding serve_command
    serve-IsLinked f s e linked = elim (Bool-cases (not (block_valid f.cmd))) [
      | inl bad ↦ rw bad linked
      | inr good ↦ rw good (dispatch-IsLinked w io hand f s e linked)
    ]

    rest-IsLinked :
        (first : Bytes) (f : Fdc) (s : Disk) (e : E)
        → IsLinked f
        → IsLinked ((receive_rest w io hand first f s e).0)
    unfolding receive_rest command_timeout
    rest-IsLinked first f s e linked =
        let r = link_recv w (block_len - 1) cmd_timeout_ms f e in
        let got = recv-IsLinked w (block_len - 1) cmd_timeout_ms f e linked in
        elim (Bool-cases (not (length (r.0) == block_len - 1))) [
          | inl short ↦ rw short (flush-IsLinked w _ _ got)
          | inr whole ↦ rw whole (serve-IsLinked _ s _ got)
        ]

    receive-IsLinked :
        (f : Fdc) (s : Disk) (e : E) → IsLinked f → IsLinked ((receive_command w io hand f s e).0)
    unfolding receive_command
    receive-IsLinked f s e linked =
        let e1 = if on_tcp f then w.uart_flush_input e else e in
        let got = recv-IsLinked w 1 idle_poll_ms f e1 linked in
        elim (Bool-cases (not (length ((link_recv w 1 idle_poll_ms f e1).0) == 1))) [
          | inl quiet ↦ rw quiet got
          | inr first ↦ rw first (rest-IsLinked _ _ s _ got)
        ]

    turn-IsLinked :
        (events : List UartEvent) (f : Fdc) (s : Disk) (e : E)
        → IsLinked f
        → IsLinked ((fdc_task_turn w io hand events f s e).0)
    unfolding fdc_task_turn run_loopback
    turn-IsLinked events f s e linked =
        let (f1, e1) = apply_pending_baud w f e in
        let (f2, e2) = drain_uart_events w events f1 e1 in
        let up =
          service-IsLinked w f2 e2 (events-IsLinked w events f1 e1 (baud-IsLinked w f e linked)) in
        elim (Bool-cases ((tcp_service w f2 e2).0).lb_req) [
          | inl asked ↦ rw asked up
          | inr free ↦ rw free (receive-IsLinked _ s _ up)
        ]

    -- One step of the task, or a call of the listener, the command line or the timers.
    pub data Step : Fdc × Disk × E → Fdc × Disk × E → Type 0 where
      turn :
          (events : List UartEvent) (f : Fdc) (s : Disk) (e : E)
          → Step (f, s, e) (fdc_task_turn w io hand events f s e)
      attach :
          (fd : ℕ) (peer : Option Bytes) (f : Fdc) (s : Disk) (e : E)
          → Step (f, s, e) ((fdc_tcp_attach fd peer f).1, s, e)
      detach : (f : Fdc) (s : Disk) (e : E) → Step (f, s, e) (fdc_tcp_detach f, s, e)
      state :
          (to : TcpState) (port : ℕ) (f : Fdc) (s : Disk) (e : E)
          → Step (f, s, e) (fdc_tcp_set_state to port f, s, e)
      clear : (f : Fdc) (s : Disk) (e : E) → Step (f, s, e) (fdc_clear_stats f, s, e)
      set_baud :
          (baud : ℕ) (f : Fdc) (s : Disk) (e : E) → Step (f, s, e) (fdc_set_baud baud f, s, e)
      status_timer : (f : Fdc) (s : Disk) (e : E) → Step (f, s, e) (led_timer_cb f, s, e)
      drive_timer : (f : Fdc) (s : Disk) (e : E) → Step (f, s, e) (drive_led_timer_cb f, s, e)
      -- The disks and the rest of the world change on their own.
      outside : (f : Fdc) (s s' : Disk) (e e' : E) → Step (f, s, e) (f, s', e')

    pub data Reach : Fdc × Disk × E → Fdc × Disk × E → Type 0 where
      here : (x : Fdc × Disk × E) → Reach x x
      then_step : {x y z : Fdc × Disk × E} → Reach x y → Step y z → Reach x z

    Step-IsLinked : {x y : Fdc × Disk × E} → Step x y → IsLinked (x.0) → IsLinked (y.0)
    unfolding fdc_tcp_set_state fdc_clear_stats fdc_set_baud led_timer_cb drive_led_timer_cb
    Step-IsLinked (turn events f s e) linked = turn-IsLinked events f s e linked
    Step-IsLinked (attach fd peer f s e) linked = attach-IsLinked fd peer f linked
    Step-IsLinked (detach f s e) linked = detach-IsLinked f linked
    Step-IsLinked (state to port f s e) linked = linked
    Step-IsLinked (clear f s e) linked = linked
    Step-IsLinked (set_baud baud f s e) linked = linked
    Step-IsLinked (status_timer f s e) linked = linked
    Step-IsLinked (drive_timer f s e) linked = linked
    Step-IsLinked (outside f s s2 e e2) linked = linked

    -- Whatever the order of the task's turns and of the calls of the listener, the command line and
    -- the timers, from a linked state: the slot is free, or holds one client that waits, or one that
    -- is attached, never two sockets, and the transport shown is TCP exactly for an attached client.
    pub Reach-IsLinked : {x y : Fdc × Disk × E} → Reach x y → IsLinked (x.0) → IsLinked (y.0)
    Reach-IsLinked (here x) linked = linked
    Reach-IsLinked (then_step path step) linked = Step-IsLinked step (Reach-IsLinked path linked)
