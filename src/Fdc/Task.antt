-- ===== src/Fdc/Task.antt =====
-- src/fdc/fdc.c: the loopback test and one turn of the task's loop.
pub mod SelfTest
use fdc_sds_pio.Prelude.{
  Bytes, List, Option, [], false, if◌then◌else◌, length, memcpy, none, not, some, suc, true, zero,
  ℕ, ◌%◌, ◌++◌, ◌+◌, ◌-◌, ◌==◌, ◌^◌, ◌∷◌,
}
use fdc_sds_pio.Protocol.{block_len, block_valid}
use fdc_sds_pio.Disk.Io.{Io}
use fdc_sds_pio.Disk.Table.{Disk}
use fdc_sds_pio.Disk.Worker.{Handoff}
use fdc_sds_pio.Fdc.State.{Fdc, inc}
use fdc_sds_pio.Fdc.Wire.{Wire, link_flush_input, link_recv, on_tcp}
use fdc_sds_pio.Fdc.Attach.{tcp_service}
use fdc_sds_pio.Fdc.Handlers.{cmd_timeout_ms, dispatch}

abbrev pub loopback_len : ℕ
loopback_len = 256

abbrev pub idle_poll_ms : ℕ
idle_poll_ms = 200

-- `tx[i] = i` from `i` on, `n` bytes.
unfoldable pub ramp : ℕ → ℕ → Bytes
ramp i zero = []
ramp i (suc n) = i % 2 ^ 8 ∷ ramp (i + 1) n

-- The comparison from byte `i` on: how many differ or are missing, and the first, or `none`.
unfoldable pub compare_from : ℕ → Bytes → Bytes → ℕ × Option ℕ
compare_from i [] rx = (0, none)
compare_from i (b ∷ tx) [] = let (count, first) = compare_from (i + 1) tx [] in (count + 1, some i)
compare_from i (b ∷ tx) (c ∷ rx) =
    let (count, first) = compare_from (i + 1) tx rx in
    if c == b then (count, first) else (count + 1, some i)

-- The events of the UART driver.
pub data UartEvent : Type 0 where
  uart_data uart_break uart_fifo_ovf uart_buffer_full uart_frame_err uart_parity_err : UartEvent

module _ {E : Type 0} (w : Wire E) where
  unfoldable pub run_loopback : Fdc → E → Fdc × E
  run_loopback f e =
      let tx = ramp 0 loopback_len in
      let e1 = w.uart_wait_tx_done (w.uart_send tx (w.uart_flush_input e)) in
      let (rx, e2) = w.uart_recv loopback_len 1000 e1 in
      let (count, first) = compare_from 0 tx rx in
      (
        record f {
          lb_result = record {
            ran = true;
            sent = loopback_len;
            received = length rx;
            mismatches = count;
            first_bad = elim first [ none ↦ loopback_len | some i ↦ i ];
          };
        },
        e2,
      )

  unfoldable pub apply_pending_baud : Fdc → E → Fdc × E
  apply_pending_baud f e =
      if f.pending_baud == 0
      then (f, e)
      else let (ok, e1) = w.uart_set_baudrate f.pending_baud e in
        if ok
        then (record f { pending_baud = 0; baud = f.pending_baud }, w.uart_flush_input e1)
        else (record f { pending_baud = 0 }, e1)

  -- One event of the driver's queue.
  unfoldable pub uart_event : UartEvent → Fdc → E → Fdc × E
  uart_event uart_data f e = (f, e)
  uart_event uart_break f e = (f, e)
  uart_event uart_fifo_ovf f e = (
    record f { stats = record f.stats { fifo_ovf = inc f.stats.fifo_ovf } },
    w.uart_flush_input e,
  )
  uart_event uart_buffer_full f e = (
    record f { stats = record f.stats { fifo_ovf = inc f.stats.fifo_ovf } },
    w.uart_flush_input e,
  )
  uart_event uart_frame_err f e =
      (record f { stats = record f.stats { frame_err = inc f.stats.frame_err } }, e)
  uart_event uart_parity_err f e =
      (record f { stats = record f.stats { frame_err = inc f.stats.frame_err } }, e)

  unfoldable pub drain_uart_events : List UartEvent → Fdc → E → Fdc × E
  drain_uart_events [] f e = (f, e)
  drain_uart_events (event ∷ events) f e =
      let (f1, e1) = uart_event event f e in drain_uart_events events f1 e1

  -- The rest of the block, after its first byte.
  unfoldable pub command_timeout : Fdc → E → Fdc × E
  command_timeout f e =
      let (f1, e1) = link_flush_input w f e in
      (record f1 { stats = record f1.stats { cmd_timeout = inc f1.stats.cmd_timeout } }, e1)

  module _ (io : Io E) (hand : Handoff E) where
    unfoldable pub serve_command : Fdc → Disk → E → Fdc × Disk × E
    serve_command f s e =
        if not (block_valid f.cmd)
        then (record f { stats = record f.stats { cmd_csum = inc f.stats.cmd_csum } }, s, e)
        else dispatch io w hand f s e

    unfoldable pub receive_rest : Bytes → Fdc → Disk → E → Fdc × Disk × E
    receive_rest first f s e =
        let (got, f1, e1) = link_recv w (block_len - 1) cmd_timeout_ms f e in
        let f2 = record f1 { cmd = memcpy f1.cmd (first ++ got) } in
        if not (length got == block_len - 1)
        then (let (f3, e2) = command_timeout f2 e1 in (f3, s, e2))
        else serve_command f2 s e1

    unfoldable pub receive_command : Fdc → Disk → E → Fdc × Disk × E
    receive_command f s e =
        let e1 = if on_tcp f then w.uart_flush_input e else e in
        let (first, f1, e2) = link_recv w 1 idle_poll_ms f e1 in
        let f2 = record f1 { cmd = memcpy f1.cmd first } in
        if not (length first == 1) then (f1, s, e2) else receive_rest first f2 s e2

    -- One turn of the loop, with the events that are in the driver's queue.
    unfoldable pub fdc_task_turn : List UartEvent → Fdc → Disk → E → Fdc × Disk × E
    fdc_task_turn events f s e =
        let (f1, e1) = apply_pending_baud f e in
        let (f2, e2) = drain_uart_events events f1 e1 in
        let (f3, e3) = tcp_service w f2 e2 in
        if f3.lb_req
        then (let (f4, e4) = run_loopback f3 e3 in (record f4 { lb_req = false }, s, e4))
        else receive_command f3 s e3
