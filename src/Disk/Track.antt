-- ===== src/Disk/Track.antt =====
-- src/disk/disk.c: whole-track reads and writes.
use fdc_sds_pio.Prelude.{
  Bytes, Option, [], eq_int, false, if◌then◌else◌, length, ltb, memcpy, none, not, some, take, ℕ, ℤ,
  ◌&&◌, ◌==◌, ◌||◌,
}
use fdc_sds_pio.Esp.{
  Esp, err_invalid_arg, err_invalid_size, err_invalid_state, err_not_supported, esp_ok, is_ok,
}
use fdc_sds_pio.Protocol.{track_buf_size, track_in_bounds, track_offset}
use fdc_sds_pio.Disk.Io.{Io}
use fdc_sds_pio.Disk.Backing.{Backing, read_at, size_of, write_at}
use fdc_sds_pio.Disk.Table.{Disk, cache_drop_drive, cache_fill, drive_ok}
use fdc_sds_pio.Disk.Worker.{Handoff, post_wait, worker_read, worker_write}

-- The copy of the cached track, if the cache holds exactly this one.
unfoldable pub cache_copy_out : ℤ → ℕ → ℕ → Disk → Option Bytes
cache_copy_out d track len s =
    if s.cache.valid && eq_int s.cache.drive d && s.cache.track == track && s.cache.len == len
    then some (take len s.buf)
    else none

module _ {E : Type 0} (io : Io E) where
  unfoldable pub check_track : ℤ → ℕ → ℕ → Disk → E → Esp
  unfolding drive_ok
  check_track d track len s e =
      if not (drive_ok d)
      then err_invalid_arg
      else if len == 0 || ltb track_buf_size len
      then err_invalid_size
      else if not (s.drv d).mounted
      then err_invalid_state
      else elim (s.drv d).backing [
        | none ↦ err_invalid_state
        | some b ↦ if track_in_bounds track len (size_of io b e) then esp_ok else err_invalid_size
      ]

  -- The end of a remote read: the copy is made if the cache still holds the track.
  unfoldable pub copy_remote : ℤ → ℕ → ℕ → Esp → Disk → E → Esp × Bytes × Disk × E
  copy_remote d track len err s e =
      if is_ok err
      then elim (cache_copy_out d track len s) [
        | none ↦ (err_invalid_state, [], s, e)
        | some bytes ↦ (esp_ok, bytes, s, e)
      ]
      else (err, [], s, e)

  -- The read of a remote track: the worker fills the buffer.
  unfoldable pub read_remote : Handoff E → ℤ → ℕ → ℕ → Disk → E → Esp × Bytes × Disk × E
  read_remote hand d track len s e =
      let (err, s1, e1) = post_wait io hand (λ others. worker_read io others d track len) s e in
      copy_remote d track len err s1 e1

  -- The read of a local track into the shared buffer. A read that fails leaves what has arrived.
  unfoldable pub read_local : ℤ → ℕ → ℕ → Option Backing → Disk → E → Esp × Bytes × Disk × E
  read_local d track len none s e = (err_invalid_state, [], s, e)
  read_local d track len (some b) s e =
      let (err, got, e1) = read_at io b (track_offset track len) len e in
      if is_ok err then (esp_ok, take len got, cache_fill d track (take len got) s, e1) else (
        err,
        [],
        record s { buf = memcpy s.buf got; cache = record s.cache { valid = false } },
        e1,
      )

  -- What follows the lookup in the cache.
  unfoldable pub read_looked_up :
      Handoff E → ℤ → ℕ → ℕ → Option Bytes → Disk → E → Esp × Bytes × Disk × E
  read_looked_up hand d track len (some bytes) s e = (esp_ok, bytes, s, e)
  read_looked_up hand d track len none s e =
      if (s.drv d).remote
      then read_remote hand d track len s e
      else read_local d track len (s.drv d).backing s e

  -- `disk_read_track`: the error, what `dst` has received, and the state.
  unfoldable pub disk_read_track : Handoff E → ℤ → ℕ → ℕ → Disk → E → Esp × Bytes × Disk × E
  disk_read_track hand d track len s e =
      if is_ok (check_track d track len s e)
      then read_looked_up hand d track len (cache_copy_out d track len s) s e
      else (check_track d track len s e, [], s, e)

  unfoldable pub write_local : ℤ → ℕ → Bytes → Option Backing → Disk → E → Esp × Disk × E
  write_local d track bytes none s e = (err_invalid_state, s, e)
  write_local d track bytes (some b) s e =
      let (err, e1) = write_at io b (track_offset track (length bytes)) bytes e in
      (err, (if is_ok err then cache_fill d track bytes s else cache_drop_drive d s), e1)

  unfoldable pub disk_write_track : Handoff E → ℤ → ℕ → Bytes → Disk → E → Esp × Disk × E
  disk_write_track hand d track bytes s e =
      if not (is_ok (check_track d track (length bytes) s e))
      then (check_track d track (length bytes) s e, s, e)
      else if (s.drv d).readonly
      then (err_not_supported, s, e)
      else if (s.drv d).remote
      then post_wait io hand (λ others. worker_write io others d track bytes) s e
      else write_local d track bytes (s.drv d).backing s e
