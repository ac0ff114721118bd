-- ===== src/Fdc/Handlers.antt =====
-- src/fdc/fdc.c: the handlers of STAT, READ and WRIT, and the dispatch.
pub mod Counters
pub mod Blocks
pub mod Verified
use fdc_sds_pio.Disk.Track.{disk_read_track, disk_write_track}
use fdc_sds_pio.Prelude.{
  Bool, Bytes, [], codes, eq_bytes, if◌then◌else◌, leb, length, ltb, memcpy, not, pos, take, ℕ, ◌%◌,
  ◌&&◌, ◌/◌, ◌==◌, ◌^◌, ◌∷◌,
}
use fdc_sds_pio.Esp.{Esp, is_ok}
use fdc_sds_pio.Protocol.{
  block_finalize, checksum16, off_word1, off_word2, read_le16, resp_csum_err, resp_not_ready,
  resp_ok, resp_write_err, track_buf_size, word1_drive, word1_track, write_le16,
}
use fdc_sds_pio.Disk.Io.{Io}
use fdc_sds_pio.Disk.Table.{Disk, disk_is_mounted, disk_is_readonly, disk_status_bitmap}
use fdc_sds_pio.Disk.Worker.{Handoff}
use fdc_sds_pio.Fdc.State.{
  Fdc, LastOp, inc, led_drive_activity, led_drive_clear, led_drive_select, led_status_blip,
  read_not_ready, read_ok, set_last_op, stat_op, unknown_op, writ_csum_err, writ_csum_timeout,
  writ_data_timeout, writ_not_ready, writ_ok, writ_write_err,
}
use fdc_sds_pio.Fdc.Wire.{Wire, link_flush_input, link_recv, link_send}

abbrev pub cmd_timeout_ms : ℕ
cmd_timeout_ms = 1000

abbrev pub data_timeout_ms : ℕ
data_timeout_ms = 7000

-- A block in the response buffer: mnemonic, two words, checksum.
unfoldable pub build_block : Bytes → Bytes → ℕ → ℕ → Bytes
build_block resp cmd word1 word2 =
    block_finalize (write_le16 (write_le16 (memcpy resp cmd) off_word1 word1) off_word2 word2)

abbrev pub build_resp : Bytes → ℕ → ℕ → Fdc → Fdc
build_resp cmd word1 word2 f = record f { resp = build_block f.resp cmd word1 word2 }

-- The two bytes of a payload's checksum.
unfoldable pub checksum_bytes : Bytes → Bytes
checksum_bytes bytes = write_le16 (0 ∷ 0 ∷ []) 0 (checksum16 bytes)

-- The words of the command, and the drive, track and length of READ and WRIT.
abbrev pub word1_of : Fdc → ℕ
word1_of f = read_le16 f.cmd off_word1

abbrev pub drive_of : Fdc → ℕ
drive_of f = word1_drive (word1_of f)

abbrev pub track_of : Fdc → ℕ
track_of f = word1_track (word1_of f)

abbrev pub len_of : Fdc → ℕ
len_of f = read_le16 f.cmd off_word2

module _ {E : Type 0} (io : Io E) (w : Wire E) where
  unfoldable pub handle_stat : Fdc → Disk → E → Fdc × Disk × E
  handle_stat f s e =
      let sel = word1_of f % 2 ^ 8 in
      let head = word1_of f / 2 ^ 8 % 2 ^ 8 in
      let f1 = if not (head == 0) && ltb sel 4 then led_drive_select sel f else led_drive_clear f in
      let bitmap = disk_status_bitmap s in
      let f2 = build_resp (codes "STAT") resp_ok bitmap f1 in
      let (f3, e1) = link_send w f2.resp f2 e in
      let f4 = record f3 { stats = record f3.stats { stat = inc f3.stats.stat } } in
      (set_last_op (stat_op sel bitmap) f4, s, e1)

  -- READ once the disk has answered.
  unfoldable pub read_reply : ℕ → ℕ → ℕ → Esp → Bytes → Fdc → Disk → E → Fdc × Disk × E
  read_reply drive track len err bytes f s e =
      if not (is_ok err)
      then (
        set_last_op (read_not_ready drive track len)
            (record f { stats = record f.stats { not_ready = inc f.stats.not_ready } }),
        s,
        e,
      )
      else let f1 = record f { payload = memcpy f.payload bytes } in
        let (f2, e1) = link_send w (take len f1.payload) f1 e in
        let (f3, e2) = link_send w (checksum_bytes (take len f1.payload)) f2 e1 in
        (
          set_last_op (read_ok drive track len)
              (record f3 { stats = record f3.stats { read = inc f3.stats.read } }),
          s,
          e2,
        )

  unfoldable pub handle_read : Handoff E → Fdc → Disk → E → Fdc × Disk × E
  handle_read hand f s e =
      let f1 = led_drive_select (drive_of f) f in
      let (err, bytes, s1, e1) =
        disk_read_track io hand (pos (drive_of f)) (track_of f) (len_of f) s e in
      read_reply (drive_of f) (track_of f) (len_of f) err bytes f1 s1 e1

  -- `READ` and `WRIT` give the drive as a nibble; WRIT is ready under this test.
  unfoldable pub is_ready : ℕ → ℕ → Disk → Bool
  is_ready drive len s =
      not (len == 0)
      && leb len track_buf_size
      && disk_is_mounted (pos drive) s
      && not (disk_is_readonly (pos drive) s)

  -- The end of WRIT: the counters, the last operation and the WSTA block.
  unfoldable pub writ_status : ℕ → Fdc → Disk → E → Fdc × Disk × E
  writ_status code f s e =
      let f1 = build_resp (codes "WSTA") code 0 f in
      let (f2, e1) = link_send w f1.resp f1 e in (f2, s, e1)

  unfoldable pub writ_stored : ℕ → ℕ → ℕ → Esp → Fdc → Disk → E → Fdc × Disk × E
  writ_stored drive track len err f s e =
      if is_ok err
      then writ_status resp_ok
          (set_last_op (writ_ok drive track len)
            (record f { stats = record f.stats { writ = inc f.stats.writ } }))
          s e
      else writ_status resp_write_err
          (set_last_op (writ_write_err drive track len)
            (record f { stats = record f.stats { not_ready = inc f.stats.not_ready } }))
          s e

  -- WRIT with the payload in the buffer and its checksum received.
  unfoldable pub writ_checked : Handoff E → ℕ → ℕ → ℕ → Bytes → Fdc → Disk → E → Fdc × Disk × E
  writ_checked hand drive track len ck f s e =
      let bytes = take len f.payload in
      if not (read_le16 ck 0 == checksum16 bytes)
      then writ_status resp_csum_err
          (set_last_op (writ_csum_err drive track len)
            (record f { stats = record f.stats { data_csum = inc f.stats.data_csum } }))
          s e
      else let (err, s1, e1) = disk_write_track io hand (pos drive) track bytes s e in
        writ_stored drive track len err f s1 e1

  -- A payload or a checksum that did not arrive whole.
  unfoldable pub writ_timeout : LastOp → Fdc → Disk → E → Fdc × Disk × E
  writ_timeout op f s e =
      let (f1, e1) = link_flush_input w f e in
      (
        set_last_op op
            (record f1 { stats = record f1.stats { data_timeout = inc f1.stats.data_timeout } }),
        s,
        e1,
      )

  unfoldable pub writ_payload : Handoff E → ℕ → ℕ → ℕ → Fdc → Disk → E → Fdc × Disk × E
  writ_payload hand drive track len f s e =
      let (got, f1, e1) = link_recv w len data_timeout_ms f e in
      let f2 = record f1 { payload = memcpy f1.payload got } in
      if not (length got == len)
      then writ_timeout (writ_data_timeout drive track len) f2 s e1
      else let (ck, f3, e2) = link_recv w 2 cmd_timeout_ms f2 e1 in
        if not (length ck == 2)
        then writ_timeout (writ_csum_timeout drive track len) f3 s e2
        else writ_checked hand drive track len ck f3 s e2

  unfoldable pub handle_writ : Handoff E → Fdc → Disk → E → Fdc × Disk × E
  handle_writ hand f s e =
      let drive = drive_of f in
      let track = track_of f in
      let len = len_of f in
      let ready = is_ready drive len s in
      let f1 =
        build_resp (codes "WRIT") (if ready then resp_ok else resp_not_ready) 0
          (led_drive_select drive f) in
      let (f2, e1) = link_send w f1.resp f1 e in
      if not ready
      then (
        set_last_op (writ_not_ready drive track len)
            (record f2 { stats = record f2.stats { not_ready = inc f2.stats.not_ready } }),
        s,
        e1,
      )
      else writ_payload hand drive track len f2 s e1

  unfoldable pub dispatch : Handoff E → Fdc → Disk → E → Fdc × Disk × E
  dispatch hand f s e =
      let f1 = led_drive_activity (led_status_blip f) in
      let name = take 4 f1.cmd in
      if eq_bytes name (codes "STAT")
      then handle_stat f1 s e
      else if eq_bytes name (codes "READ")
      then handle_read hand f1 s e
      else if eq_bytes name (codes "WRIT")
      then handle_writ hand f1 s e
      else (
        set_last_op (unknown_op name)
            (record f1 { stats = record f1.stats { unknown = inc f1.stats.unknown } }),
        s,
        e,
      )
