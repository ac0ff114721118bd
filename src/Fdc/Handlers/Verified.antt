-- ===== src/Fdc/Handlers/Verified.antt =====
-- WRIT of src/fdc/fdc.c: what reaches the disk.
use fdc_sds_pio.Prelude.{
  Bool, Bool-cases, Bytes, Option, ap, arith, codes, inl, inr, length, memcpy, none, not, pos, refl,
  some, take, take-append_left, true, ℕ, ◌==◌, ◌∙◌, ◌≡◌, ◌⊎◌,
}
use fdc_sds_pio.Esp.{Esp, is_ok}
use fdc_sds_pio.Protocol.{checksum16, read_le16, resp_ok}
use fdc_sds_pio.Disk.Io.{Io}
use fdc_sds_pio.Disk.Track.{disk_write_track}
use fdc_sds_pio.Disk.Table.{Disk}
use fdc_sds_pio.Disk.Worker.{Handoff}
use fdc_sds_pio.Fdc.State.{Fdc, LastOp, led_drive_select}
use fdc_sds_pio.Fdc.Wire.{Wire, flush_on, link_flush_input, link_recv, link_send, recv_on, send_on}
use fdc_sds_pio.Prelude.{
  Bool, Bool-cases, Bytes, Option, ap, arith, codes, inl, inr, length, memcpy, none, not, pos, refl,
  some, take, take-append_left, true, ℕ, ◌==◌, ◌∙◌, ◌≡◌, ◌⊎◌,
}
use fdc_sds_pio.Fdc.Handlers.{
  build_resp, cmd_timeout_ms, data_timeout_ms, drive_of, handle_writ, is_ready, len_of, track_of,
  writ_checked, writ_payload, writ_status, writ_stored, writ_timeout,
}

-- The transports leave the view `keep` of the world alone, as they leave the images alone.
pub record WireKeeps {E : Type 0} {A : Type 0} (w : Wire E) (keep : E → A) : Type 0 where
  pub uart_recv : (need ms : ℕ) (e : E) → keep ((w.uart_recv need ms e).1) ≡ keep e
  pub uart_send : (bytes : Bytes) (e : E) → keep (w.uart_send bytes e) ≡ keep e
  pub uart_flush : (e : E) → keep (w.uart_flush_input e) ≡ keep e
  pub tcp_recv :
      (fd : ℕ) (dead : Bool) (need ms : ℕ) (e : E)
      → keep ((w.tcp_recv fd dead need ms e).2) ≡ keep e
  pub tcp_send :
      (fd : ℕ) (dead : Bool) (bytes : Bytes) (e : E)
      → keep ((w.tcp_send fd dead bytes e).1) ≡ keep e
  pub tcp_flush : (fd : ℕ) (dead : Bool) (e : E) → keep ((w.tcp_flush_input fd dead e).1) ≡ keep e

-- The engine and the world after WRIT has answered that the drive is ready.
abbrev pub after_reply : {E : Type 0} → Wire E → Fdc → E → Fdc × E
after_reply w f e =
    let f1 = build_resp (codes "WRIT") resp_ok 0 (led_drive_select (drive_of f) f) in
    link_send w f1.resp f1 e

-- What is then received as the payload, and after that as its checksum.
abbrev pub payload_from : {E : Type 0} → Wire E → ℕ → Fdc → E → Bytes × Fdc × E
payload_from w len f e = link_recv w len data_timeout_ms f e

abbrev pub checksum_from : {E : Type 0} → Wire E → ℕ → Fdc → E → Bytes × Fdc × E
checksum_from w len f e =
    let r = payload_from w len f e in
    link_recv w 2 cmd_timeout_ms (record (r.1) { payload = memcpy (r.1).payload (r.0) }) (r.2)

-- A write of the payload that was received from the engine `f` and the world `e1` on: it came whole,
-- the checksum that came behind it is its own, the drive may be written, and until the write the
-- view is that of the world `e` before.
pub record IsVerified {E : Type 0} {A : Type 0} (io : Io E) (w : Wire E) (hand : Handoff E)
    (keep : E → A) (drive track len : ℕ) (f : Fdc) (e1 : E) (s : Disk) (e : E) (s' : Disk)
    : Type 0 where
  pub ready : is_ready io w drive len s ≡ true
  pub whole : length (payload_from w len f e1).0 ≡ len
  pub whole_checksum : length (checksum_from w len f e1).0 ≡ 2
  pub matches : read_le16 (checksum_from w len f e1).0 0 ≡ checksum16 (payload_from w len f e1).0
  pub kept : keep (checksum_from w len f e1).2 ≡ keep e
  pub written :
      s'
      ≡ (disk_write_track io hand
          (pos drive)
          track
          (payload_from w len f e1).0
          s
          (checksum_from w len f e1).2).1

module _ {E : Type 0} {A : Type 0} (w : Wire E) (keep : E → A) (k : WireKeeps w keep) where
  recv_on-keep :
      (o : Option ℕ) (need ms : ℕ) (f : Fdc) (e : E) → keep ((recv_on w o need ms f e).2) ≡ keep e
  unfolding recv_on
  recv_on-keep none need ms f e = k.uart_recv need ms e
  recv_on-keep (some fd) need ms f e = k.tcp_recv fd f.tcp_dead need ms e

  recv-keep : (need ms : ℕ) (f : Fdc) (e : E) → keep ((link_recv w need ms f e).2) ≡ keep e
  unfolding link_recv
  recv-keep need ms f e = recv_on-keep f.tcp_fd need ms f e

  recv_on-payload :
      (o : Option ℕ) (need ms : ℕ) (f : Fdc) (e : E)
      → ((recv_on w o need ms f e).1).payload ≡ f.payload
  unfolding recv_on
  recv_on-payload none need ms f e = refl
  recv_on-payload (some fd) need ms f e = refl

  recv-payload : (need ms : ℕ) (f : Fdc) (e : E) → ((link_recv w need ms f e).1).payload ≡ f.payload
  unfolding link_recv
  recv-payload need ms f e = recv_on-payload f.tcp_fd need ms f e

  send_on-keep :
      (o : Option ℕ) (bytes : Bytes) (f : Fdc) (e : E) → keep ((send_on w o bytes f e).1) ≡ keep e
  unfolding send_on
  send_on-keep none bytes f e = k.uart_send bytes e
  send_on-keep (some fd) bytes f e = k.tcp_send fd f.tcp_dead bytes e

  send-keep : (bytes : Bytes) (f : Fdc) (e : E) → keep ((link_send w bytes f e).1) ≡ keep e
  unfolding link_send
  send-keep bytes f e = send_on-keep f.tcp_fd bytes f e

  flush_on-keep : (o : Option ℕ) (f : Fdc) (e : E) → keep ((flush_on w o f e).1) ≡ keep e
  unfolding flush_on
  flush_on-keep none f e = k.uart_flush e
  flush_on-keep (some fd) f e = k.tcp_flush fd f.tcp_dead e

  flush-keep : (f : Fdc) (e : E) → keep ((link_flush_input w f e).1) ≡ keep e
  unfolding link_flush_input
  flush-keep f e = flush_on-keep f.tcp_fd f e

  module _ (io : Io E) (hand : Handoff E) where
    -- Nothing is written, or a verified payload is.
    abbrev pub IsGuarded : ℕ → ℕ → ℕ → Fdc → E → Disk → E → Fdc × Disk × E → Type 0
    IsGuarded drive track len f e1 s e out =
        ((out.1 ≡ s) × (keep (out.2) ≡ keep e))
        ⊎ IsVerified io w hand keep drive track len f e1 s e (out.1)

    status-disk :
        (code : ℕ) (f : Fdc) (s : Disk) (e : E)
        → ((writ_status io w code f s e).1 ≡ s) × (keep ((writ_status io w code f s e).2) ≡ keep e)
    unfolding writ_status
    status-disk code f s e = (refl, send-keep _ _ e)

    stored-disk :
        (drive track len : ℕ) (err : Esp) (f : Fdc) (s : Disk) (e : E)
        → (writ_stored io w drive track len err f s e).1 ≡ s
    unfolding writ_stored writ_status
    stored-disk drive track len err f s e = elim (Bool-cases (is_ok err)) [
      | inl good ↦ rw good refl
      | inr bad ↦ rw bad refl
    ]

    writ_timeout-disk :
        (op : LastOp) (f : Fdc) (s : Disk) (e : E)
        → ((writ_timeout io w op f s e).1 ≡ s) × (keep ((writ_timeout io w op f s e).2) ≡ keep e)
    unfolding writ_timeout
    writ_timeout-disk op f s e = (refl, flush-keep f e)

    checked-IsGuarded :
        (drive track len : ℕ) (ck got : Bytes) (f : Fdc) (s : Disk) (e : E) (f0 : Fdc) (e1 e0 : E)
        → keep e ≡ keep e0
        → is_ready io w drive len s ≡ true
        → take len f.payload ≡ got
        → (payload_from w len f0 e1).0 ≡ got
        → checksum_from w len f0 e1 ≡ (ck, f, e)
        → length got ≡ len
        → length ck ≡ 2
        → IsGuarded drive track len f0 e1 s e0 (writ_checked io w hand drive track len ck f s e)
    unfolding writ_checked
    checked-IsGuarded drive track len ck got f s e f0 e1 e0 same ready payload from behind whole
          full =
        elim (Bool-cases (not (read_le16 ck 0 == checksum16 (take len f.payload)))) [
          | inl bad ↦ rw bad (let facts = status-disk _ _ s e in inl (facts.0, facts.1 ∙ same))
          | inr good ↦ rw good (
              inr record {
                ready = ready;
                whole = rw from whole;
                whole_checksum = rw behind full;
                matches = rw (behind, from) (ground (arith, good, ap checksum16 payload));
                kept = rw behind same;
                written = rw (behind, from) (rw (← payload) (stored-disk drive track len _ _ _ _));
              })
        ]

    payload-IsGuarded :
        (drive track len : ℕ) (f : Fdc) (s : Disk) (e e0 : E)
        → keep e ≡ keep e0
        → is_ready io w drive len s ≡ true
        → IsGuarded drive track len f e s e0 (writ_payload io w hand drive track len f s e)
    unfolding writ_payload
    payload-IsGuarded drive track len f s e e0 same ready =
        let r = link_recv w len data_timeout_ms f e in
        let f2 = record (r.1) { payload = memcpy (r.1).payload (r.0) } in
        let r3 = link_recv w 2 cmd_timeout_ms f2 (r.2) in
        let kept = recv-keep len data_timeout_ms f e ∙ same in
        let kept3 = recv-keep 2 cmd_timeout_ms f2 (r.2) ∙ kept in
        elim (Bool-cases (not (length (r.0) == len))) [
          | inl short ↦
              rw short (let facts = writ_timeout-disk _ f2 s (r.2) in inl (facts.0, facts.1 ∙ kept))
          | inr whole ↦ rw whole (elim (Bool-cases (not (length (r3.0) == 2))) [
            | inl cut ↦
                rw cut (
                  let facts = writ_timeout-disk _ (r3.1) s (r3.2) in inl (facts.0, facts.1 ∙ kept3))
            | inr full ↦ rw full (
                checked-IsGuarded drive track len (r3.0) (r.0) (r3.1) s (r3.2) f e e0 kept3 ready
                  (rw recv-payload (take-append_left len (r.0) _ (ground arith))) refl refl
                  (ground arith) (ground arith))
          ])
        ]

    -- WRIT leaves the disk table and the images alone unless the drive was ready, the payload received
    -- behind the answer came with its whole announced length, and the two bytes received behind it
    -- are its checksum; the disk table is then that of one write of exactly the payload received.
    pub handle_writ-IsGuarded :
        (f : Fdc) (s : Disk) (e : E)
        → IsGuarded
            (drive_of f)
            (track_of f)
            (len_of f)
            (after_reply w f e).0
            (after_reply w f e).1
            s
            e
            (handle_writ io w hand f s e)
    unfolding handle_writ
    handle_writ-IsGuarded f s e = elim (Bool-cases (is_ready io w (drive_of f) (len_of f) s)) [
      | inl ready ↦
          rw ready
            (payload-IsGuarded (drive_of f) (track_of f) (len_of f) _ s _ e (send-keep _ _ e) ready)
      | inr refused ↦ rw refused (inl (refl, send-keep _ _ e))
    ]
