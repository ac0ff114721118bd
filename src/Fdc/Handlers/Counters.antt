-- ===== src/Fdc/Handlers/Counters.antt =====
-- The counters of src/fdc/fdc.c over a command: the fields of `fdc_stats_t` that the handlers count in.
use fdc_sds_pio.Fdc.Task.{serve_command}
use fdc_sds_pio.Protocol.{block_valid, checksum16, read_le16}
use fdc_sds_pio.Disk.Worker.{Handoff}
use fdc_sds_pio.Esp.{Esp, is_ok}
use fdc_sds_pio.Prelude.{
  Bool-cases, Bytes, Option, arith, codes, eq_bytes, inl, inr, length, ltb, memcpy, none, not, refl,
  some, take, ℕ, ◌%◌, ◌&&◌, ◌+◌, ◌/◌, ◌<◌, ◌==◌, ◌^◌, ◌∙◌, ◌≡◌,
}
use fdc_sds_pio.Disk.Io.{Io}
use fdc_sds_pio.Disk.Table.{Disk}
use fdc_sds_pio.Fdc.State.{Fdc, LastOp, Stats, inc, led_drive_select}
use fdc_sds_pio.Fdc.Wire.{Wire, flush_on, link_flush_input, link_recv, link_send, recv_on, send_on}
use fdc_sds_pio.Fdc.Handlers.{
  cmd_timeout_ms, data_timeout_ms, dispatch, drive_of, handle_read, handle_stat, handle_writ,
  is_ready, len_of, read_reply, track_of, word1_of, writ_checked, writ_payload, writ_status,
  writ_stored, writ_timeout,
}

-- The commands that have been counted.
unfoldable pub counted : Stats → ℕ
counted t =
    t.stat + t.read + t.writ + t.not_ready + t.cmd_csum + t.data_csum + t.data_timeout + t.unknown

-- No counter is about to wrap.
pub record HasRoom (t : Stats) : Type 0 where
  pub stat : t.stat + 1 < 2 ^ 32
  pub read : t.read + 1 < 2 ^ 32
  pub writ : t.writ + 1 < 2 ^ 32
  pub not_ready : t.not_ready + 1 < 2 ^ 32
  pub cmd_csum : t.cmd_csum + 1 < 2 ^ 32
  pub data_csum : t.data_csum + 1 < 2 ^ 32
  pub data_timeout : t.data_timeout + 1 < 2 ^ 32
  pub unknown : t.unknown + 1 < 2 ^ 32

-- One command more is counted.
abbrev pub IsCountedOnce : Stats → Stats → Type 0
IsCountedOnce t t' = HasRoom t → counted t' ≡ counted t + 1

counted_from : (t u v : Stats) → t ≡ u → IsCountedOnce t v → IsCountedOnce u v
counted_from t u v same once = rw (← same) once

refused-counted :
    (t u : Stats) (op : LastOp)
    → u ≡ t
    → IsCountedOnce t (record u { not_ready = inc u.not_ready; last_op = op })
unfolding counted
refused-counted t u op same room = rw same (omega (arith, room.not_ready))

module _ {E : Type 0} (w : Wire E) where
  recv_on-stats :
      (o : Option ℕ) (need ms : ℕ) (f : Fdc) (e : E) → ((recv_on w o need ms f e).1).stats ≡ f.stats
  unfolding recv_on
  recv_on-stats none need ms f e = refl
  recv_on-stats (some fd) need ms f e = refl

  recv-stats : (need ms : ℕ) (f : Fdc) (e : E) → ((link_recv w need ms f e).1).stats ≡ f.stats
  unfolding link_recv
  recv-stats need ms f e = recv_on-stats f.tcp_fd need ms f e

  send_on-stats :
      (o : Option ℕ) (bytes : Bytes) (f : Fdc) (e : E) → ((send_on w o bytes f e).0).stats ≡ f.stats
  unfolding send_on
  send_on-stats none bytes f e = refl
  send_on-stats (some fd) bytes f e = refl

  send-stats : (bytes : Bytes) (f : Fdc) (e : E) → ((link_send w bytes f e).0).stats ≡ f.stats
  unfolding link_send
  send-stats bytes f e = send_on-stats f.tcp_fd bytes f e

  flush_on-stats : (o : Option ℕ) (f : Fdc) (e : E) → ((flush_on w o f e).0).stats ≡ f.stats
  unfolding flush_on
  flush_on-stats none f e = refl
  flush_on-stats (some fd) f e = refl

  flush-stats : (f : Fdc) (e : E) → ((link_flush_input w f e).0).stats ≡ f.stats
  unfolding link_flush_input
  flush-stats f e = flush_on-stats f.tcp_fd f e

  module _ (io : Io E) where
    stat-counted :
        (f : Fdc) (s : Disk) (e : E) → IsCountedOnce f.stats (((handle_stat io w f s e).0).stats)
    unfolding handle_stat counted
    stat-counted f s e room =
        elim (Bool-cases (not (word1_of f / 2 ^ 8 % 2 ^ 8 == 0) && ltb (word1_of f % 2 ^ 8) 4)) [
          | inl sel ↦ rw (sel, send-stats) (omega (arith, room.stat))
          | inr no_sel ↦ rw (no_sel, send-stats) (omega (arith, room.stat))
        ]

    reply-counted :
        (drive track len : ℕ) (err : Esp) (bytes : Bytes) (f : Fdc) (s : Disk) (e : E)
        → IsCountedOnce f.stats (((read_reply io w drive track len err bytes f s e).0).stats)
    unfolding read_reply counted
    reply-counted drive track len err bytes f s e room = elim (Bool-cases (not (is_ok err))) [
      | inl bad ↦ rw bad (omega (arith, room.not_ready))
      | inr good ↦ rw (good, send-stats, send-stats) (omega (arith, room.read))
    ]

    read-counted :
        (hand : Handoff E) (f : Fdc) (s : Disk) (e : E)
        → IsCountedOnce f.stats (((handle_read io w hand f s e).0).stats)
    unfolding handle_read
    read-counted hand f s e room =
        reply-counted (drive_of f) (track_of f) (len_of f) _ _ (led_drive_select (drive_of f) f) _ _
          room

    status-stats :
        (code : ℕ) (f : Fdc) (s : Disk) (e : E) → ((writ_status io w code f s e).0).stats ≡ f.stats
    unfolding writ_status
    status-stats code f s e = send-stats _ _ e

    stored-counted :
        (drive track len : ℕ) (err : Esp) (f : Fdc) (s : Disk) (e : E)
        → IsCountedOnce f.stats (((writ_stored io w drive track len err f s e).0).stats)
    unfolding writ_stored counted
    stored-counted drive track len err f s e room = elim (Bool-cases (is_ok err)) [
      | inl good ↦ rw (good, status-stats) (omega (arith, room.writ))
      | inr bad ↦ rw (bad, status-stats) (omega (arith, room.not_ready))
    ]

    writ_timeout-counted :
        (op : LastOp) (f : Fdc) (s : Disk) (e : E)
        → IsCountedOnce f.stats (((writ_timeout io w op f s e).0).stats)
    unfolding writ_timeout counted
    writ_timeout-counted op f s e room = rw flush-stats (omega (arith, room.data_timeout))

    checked-counted :
        (hand : Handoff E) (drive track len : ℕ) (ck : Bytes) (f : Fdc) (s : Disk) (e : E)
        → IsCountedOnce f.stats (((writ_checked io w hand drive track len ck f s e).0).stats)
    unfolding writ_checked counted
    checked-counted hand drive track len ck f s e room =
        elim (Bool-cases (not (read_le16 ck 0 == checksum16 (take len f.payload)))) [
          | inl bad ↦ rw (bad, status-stats) (omega (arith, room.data_csum))
          | inr good ↦ rw good (stored-counted drive track len _ f _ _ room)
        ]

    payload-counted :
        (hand : Handoff E) (drive track len : ℕ) (f : Fdc) (s : Disk) (e : E)
        → IsCountedOnce f.stats (((writ_payload io w hand drive track len f s e).0).stats)
    unfolding writ_payload
    payload-counted hand drive track len f s e room =
        let r = link_recv w len data_timeout_ms f e in
        let f2 = record (r.1) { payload = memcpy (r.1).payload (r.0) } in
        let same = recv-stats len data_timeout_ms f e in
        let next = recv-stats 2 cmd_timeout_ms f2 (r.2) ∙ same in
        elim (Bool-cases (not (length (r.0) == len))) [
          | inl short ↦ rw short (counted_from _ _ _ same (writ_timeout-counted _ f2 s _) room)
          | inr whole ↦ rw whole (
              let r3 = link_recv w 2 cmd_timeout_ms f2 (r.2) in
              elim (Bool-cases (not (length (r3.0) == 2))) [
                | inl cut ↦
                    rw cut (counted_from _ _ _ next (writ_timeout-counted _ (r3.1) s _) room)
                | inr full ↦ rw full (
                    counted_from _ _ _ next
                      (checked-counted hand drive track len (r3.0) (r3.1) s (r3.2)) room)
              ])
        ]

    writ-counted :
        (hand : Handoff E) (f : Fdc) (s : Disk) (e : E)
        → IsCountedOnce f.stats (((handle_writ io w hand f s e).0).stats)
    unfolding handle_writ
    writ-counted hand f s e room = elim (Bool-cases (is_ready io w (drive_of f) (len_of f) s)) [
      | inl ready ↦ rw ready (
          counted_from _ _ _ (send-stats _ _ e)
            (payload-counted hand (drive_of f) (track_of f) (len_of f) _ s _) room)
      | inr refused ↦ rw refused (refused-counted _ _ _ (send-stats _ _ e) room)
    ]

    dispatch-counted :
        (hand : Handoff E) (f : Fdc) (s : Disk) (e : E)
        → IsCountedOnce f.stats (((dispatch io w hand f s e).0).stats)
    unfolding dispatch
    dispatch-counted hand f s e room = elim (Bool-cases (eq_bytes (take 4 f.cmd) (codes "STAT"))) [
      | inl stat ↦ rw stat (stat-counted _ s e room)
      | inr not_stat ↦ rw not_stat (elim (Bool-cases (eq_bytes (take 4 f.cmd) (codes "READ"))) [
        | inl read ↦ rw read (read-counted hand _ s e room)
        | inr not_read ↦ rw not_read (elim (Bool-cases (eq_bytes (take 4 f.cmd) (codes "WRIT"))) [
          | inl writ ↦ rw writ (writ-counted hand _ s e room)
          | inr not_writ ↦ rw not_writ (unfold counted in omega (arith, room.unknown))
        ])
      ])
    ]

    -- Every block of ten bytes that the task has received is counted in exactly one of the counters
    -- (served, not ready, bad command checksum, bad data checksum, data timeout or unknown), where
    -- none of them is about to wrap.
    pub serve_command-IsCountedOnce :
        (hand : Handoff E) (f : Fdc) (s : Disk) (e : E)
        → HasRoom f.stats
        → counted (((serve_command w io hand f s e).0).stats) ≡ counted f.stats + 1
    unfolding serve_command counted
    serve_command-IsCountedOnce hand f s e room = elim (Bool-cases (not (block_valid f.cmd))) [
      | inl bad ↦ rw bad (omega (arith, room.cmd_csum))
      | inr good ↦ rw good (dispatch-counted hand f s e room)
    ]
