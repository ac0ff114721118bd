-- ===== src/Fdc/Attach/Commands.antt =====
-- What the commands of src/fdc/fdc.c leave of the TCP attachment.
use fdc_sds_pio.Protocol.{checksum16, read_le16}
use fdc_sds_pio.Disk.Worker.{Handoff}
use fdc_sds_pio.Prelude.{
  Bool-cases, Bytes, List, Option, [], codes, eq_bytes, inl, inr, length, ltb, memcpy, none, not,
  some, take, ℕ, ◌%◌, ◌&&◌, ◌/◌, ◌==◌, ◌^◌, ◌∷◌,
}
use fdc_sds_pio.Esp.{Esp, is_ok}
use fdc_sds_pio.Disk.Io.{Io}
use fdc_sds_pio.Disk.Table.{Disk}
use fdc_sds_pio.Fdc.State.{Fdc, LastOp}
use fdc_sds_pio.Fdc.Wire.{Wire, flush_on, link_flush_input, link_recv, link_send, recv_on, send_on}
use fdc_sds_pio.Fdc.Handlers.{
  cmd_timeout_ms, data_timeout_ms, dispatch, drive_of, handle_read, handle_stat, handle_writ,
  is_ready, len_of, read_reply, track_of, word1_of, writ_checked, writ_payload, writ_status,
  writ_stored, writ_timeout,
}
use fdc_sds_pio.Fdc.Task.{
  UartEvent, apply_pending_baud, drain_uart_events, uart_break, uart_buffer_full, uart_data,
  uart_event, uart_fifo_ovf, uart_frame_err, uart_parity_err,
}
use fdc_sds_pio.Fdc.Attach.Ownership.{IsLinked}

module _ {E : Type 0} (w : Wire E) where
  recv_on-IsLinked :
      (o : Option ℕ) (need ms : ℕ) (f : Fdc) (e : E)
      → IsLinked f
      → IsLinked ((recv_on w o need ms f e).1)
  unfolding recv_on
  recv_on-IsLinked none need ms f e linked = linked
  recv_on-IsLinked (some fd) need ms f e linked = linked

  pub recv-IsLinked :
      (need ms : ℕ) (f : Fdc) (e : E) → IsLinked f → IsLinked ((link_recv w need ms f e).1)
  unfolding link_recv
  recv-IsLinked need ms f e linked = recv_on-IsLinked f.tcp_fd need ms f e linked

  send_on-IsLinked :
      (o : Option ℕ) (bytes : Bytes) (f : Fdc) (e : E)
      → IsLinked f
      → IsLinked ((send_on w o bytes f e).0)
  unfolding send_on
  send_on-IsLinked none bytes f e linked = linked
  send_on-IsLinked (some fd) bytes f e linked = linked

  send-IsLinked :
      (bytes : Bytes) (f : Fdc) (e : E) → IsLinked f → IsLinked ((link_send w bytes f e).0)
  unfolding link_send
  send-IsLinked bytes f e linked = send_on-IsLinked f.tcp_fd bytes f e linked

  flush_on-IsLinked :
      (o : Option ℕ) (f : Fdc) (e : E) → IsLinked f → IsLinked ((flush_on w o f e).0)
  unfolding flush_on
  flush_on-IsLinked none f e linked = linked
  flush_on-IsLinked (some fd) f e linked = linked

  pub flush-IsLinked : (f : Fdc) (e : E) → IsLinked f → IsLinked ((link_flush_input w f e).0)
  unfolding link_flush_input
  flush-IsLinked f e linked = flush_on-IsLinked f.tcp_fd f e linked

  pub baud-IsLinked : (f : Fdc) (e : E) → IsLinked f → IsLinked ((apply_pending_baud w f e).0)
  unfolding apply_pending_baud
  baud-IsLinked f e linked = elim (Bool-cases (f.pending_baud == 0)) [
    | inl none_set ↦ rw none_set linked
    | inr some_set ↦ rw some_set (elim (Bool-cases (w.uart_set_baudrate f.pending_baud e).0) [
      | inl ok ↦ rw ok linked
      | inr failed ↦ rw failed linked
    ])
  ]

  event-IsLinked :
      (event : UartEvent) (f : Fdc) (e : E) → IsLinked f → IsLinked ((uart_event w event f e).0)
  unfolding uart_event
  event-IsLinked uart_data f e linked = linked
  event-IsLinked uart_break f e linked = linked
  event-IsLinked uart_fifo_ovf f e linked = linked
  event-IsLinked uart_buffer_full f e linked = linked
  event-IsLinked uart_frame_err f e linked = linked
  event-IsLinked uart_parity_err f e linked = linked

  pub events-IsLinked :
      (events : List UartEvent) (f : Fdc) (e : E)
      → IsLinked f
      → IsLinked ((drain_uart_events w events f e).0)
  unfolding drain_uart_events
  events-IsLinked [] f e linked = linked
  events-IsLinked (event ∷ events) f e linked =
      events-IsLinked events _ _ (event-IsLinked event f e linked)

  module _ (io : Io E) where
    stat-IsLinked :
        (f : Fdc) (s : Disk) (e : E) → IsLinked f → IsLinked ((handle_stat io w f s e).0)
    unfolding handle_stat
    stat-IsLinked f s e linked =
        elim (Bool-cases (not (word1_of f / 2 ^ 8 % 2 ^ 8 == 0) && ltb (word1_of f % 2 ^ 8) 4)) [
          | inl sel ↦ rw sel (send-IsLinked _ _ e linked)
          | inr no_sel ↦ rw no_sel (send-IsLinked _ _ e linked)
        ]

    reply-IsLinked :
        (drive track len : ℕ) (err : Esp) (bytes : Bytes) (f : Fdc) (s : Disk) (e : E)
        → IsLinked f
        → IsLinked ((read_reply io w drive track len err bytes f s e).0)
    unfolding read_reply
    reply-IsLinked drive track len err bytes f s e linked = elim (Bool-cases (not (is_ok err))) [
      | inl bad ↦ rw bad linked
      | inr good ↦ rw good (send-IsLinked _ _ _ (send-IsLinked _ _ e linked))
    ]

    read-IsLinked :
        (hand : Handoff E) (f : Fdc) (s : Disk) (e : E)
        → IsLinked f
        → IsLinked ((handle_read io w hand f s e).0)
    unfolding handle_read
    read-IsLinked hand f s e linked =
        reply-IsLinked (drive_of f) (track_of f) (len_of f) _ _ _ _ _ linked

    status-IsLinked :
        (code : ℕ) (f : Fdc) (s : Disk) (e : E)
        → IsLinked f
        → IsLinked ((writ_status io w code f s e).0)
    unfolding writ_status
    status-IsLinked code f s e linked = send-IsLinked _ _ e linked

    stored-IsLinked :
        (drive track len : ℕ) (err : Esp) (f : Fdc) (s : Disk) (e : E)
        → IsLinked f
        → IsLinked ((writ_stored io w drive track len err f s e).0)
    unfolding writ_stored
    stored-IsLinked drive track len err f s e linked = elim (Bool-cases (is_ok err)) [
      | inl good ↦ rw good (status-IsLinked _ _ s e linked)
      | inr bad ↦ rw bad (status-IsLinked _ _ s e linked)
    ]

    writ_timeout-IsLinked :
        (op : LastOp) (f : Fdc) (s : Disk) (e : E)
        → IsLinked f
        → IsLinked ((writ_timeout io w op f s e).0)
    unfolding writ_timeout
    writ_timeout-IsLinked op f s e linked = flush-IsLinked f e linked

    checked-IsLinked :
        (hand : Handoff E) (drive track len : ℕ) (ck : Bytes) (f : Fdc) (s : Disk) (e : E)
        → IsLinked f
        → IsLinked ((writ_checked io w hand drive track len ck f s e).0)
    unfolding writ_checked
    checked-IsLinked hand drive track len ck f s e linked =
        elim (Bool-cases (not (read_le16 ck 0 == checksum16 (take len f.payload)))) [
          | inl bad ↦ rw bad (status-IsLinked _ _ s e linked)
          | inr good ↦ rw good (stored-IsLinked drive track len _ f _ _ linked)
        ]

    payload-IsLinked :
        (hand : Handoff E) (drive track len : ℕ) (f : Fdc) (s : Disk) (e : E)
        → IsLinked f
        → IsLinked ((writ_payload io w hand drive track len f s e).0)
    unfolding writ_payload
    payload-IsLinked hand drive track len f s e linked =
        let r = link_recv w len data_timeout_ms f e in
        let f2 = record (r.1) { payload = memcpy (r.1).payload (r.0) } in
        let got = recv-IsLinked len data_timeout_ms f e linked in
        elim (Bool-cases (not (length (r.0) == len))) [
          | inl short ↦ rw short (writ_timeout-IsLinked _ _ s _ got)
          | inr whole ↦ rw whole (
              let next = recv-IsLinked 2 cmd_timeout_ms f2 (r.2) got in
              elim (Bool-cases (not (length ((link_recv w 2 cmd_timeout_ms f2 (r.2)).0) == 2))) [
                | inl cut ↦ rw cut (writ_timeout-IsLinked _ _ s _ next)
                | inr full ↦ rw full (checked-IsLinked hand drive track len _ _ s _ next)
              ])
        ]

    writ-IsLinked :
        (hand : Handoff E) (f : Fdc) (s : Disk) (e : E)
        → IsLinked f
        → IsLinked ((handle_writ io w hand f s e).0)
    unfolding handle_writ
    writ-IsLinked hand f s e linked = elim (Bool-cases (is_ready io w (drive_of f) (len_of f) s)) [
      | inl ready ↦ rw ready (payload-IsLinked hand _ _ _ _ s _ (send-IsLinked _ _ e linked))
      | inr refused ↦ rw refused (send-IsLinked _ _ e linked)
    ]

    pub dispatch-IsLinked :
        (hand : Handoff E) (f : Fdc) (s : Disk) (e : E)
        → IsLinked f
        → IsLinked ((dispatch io w hand f s e).0)
    unfolding dispatch
    dispatch-IsLinked hand f s e linked =
        elim (Bool-cases (eq_bytes (take 4 f.cmd) (codes "STAT"))) [
          | inl stat ↦ rw stat (stat-IsLinked _ s e linked)
          | inr not_stat ↦ rw not_stat (elim (Bool-cases (eq_bytes (take 4 f.cmd) (codes "READ"))) [
            | inl read ↦ rw read (read-IsLinked hand _ s e linked)
            | inr not_read ↦
                rw not_read (elim (Bool-cases (eq_bytes (take 4 f.cmd) (codes "WRIT"))) [
                  | inl writ ↦ rw writ (writ-IsLinked hand _ s e linked)
                  | inr not_writ ↦ rw not_writ linked
                ])
          ])
        ]
