-- ===== src/Disk/Worker.antt =====
-- src/disk/disk.c: the disk-I/O worker, which owns the remote sessions, and the hand-off to it.
use fdc_sds_pio.Prelude.{
  Bool, Bytes, Option, [], false, if◌then◌else◌, length, none, not, some, take, true, ℕ, ℤ, ◌&&◌,
  ◌++◌, ◌∷◌,
}
use fdc_sds_pio.Esp.{Esp, err_invalid_state, err_no_mem, err_timeout, esp_ok, is_ok}
use fdc_sds_pio.Protocol.{track_in_bounds, track_offset}
use fdc_sds_pio.Disk.Io.{Io}
use fdc_sds_pio.Disk.Backing.{Backing, close, read_at, same_backing, size_of, write_at}
use fdc_sds_pio.Disk.Table.{AsyncJob, Disk, cache_drop_drive, cache_fill, drive_ok, job_close}

-- What the other tasks do between two locked parts of an operation.
abbrev pub Others : Type 0 → Type 0
Others E = Disk → E → Disk × E

-- How a job that a caller waits for fares: no memory for the job, no queue, no place in the queue in
-- time, the worker serves it (with what happens before, during and after), or the wait ends first
-- and the job is abandoned to the worker.
pub data Handoff (E : Type 0) : Type 0 where
  no_memory no_queue queue_full : Handoff E
  served : Others E → Others E → Others E → Handoff E
  abandoned : Others E → Handoff E

-- The locked end of a read: the staged bytes go to the buffer if the backing is still there.
unfoldable pub read_install : ℤ → ℕ → Backing → Bytes → Disk → Esp × Disk
read_install d track b stage s =
    if (s.drv d).mounted && same_backing (s.drv d).backing b
    then (esp_ok, cache_fill d track stage s)
    else (err_invalid_state, s)

-- The locked end of a write.
unfoldable pub write_install : ℤ → ℕ → Backing → Bytes → Esp → Disk → Disk
write_install d track b bytes err s =
    if is_ok err
    then (if (s.drv d).mounted && same_backing (s.drv d).backing b
        then cache_fill d track bytes s
        else s)
    else cache_drop_drive d s

module _ {E : Type 0} (io : Io E) where
  -- The locked choice of the backing, with the test on the mount and the bounds.
  unfoldable pub pick : Bool → ℤ → ℕ → ℕ → Disk → E → Option Backing
  pick writing d track len s e =
      let x = s.drv d in
      if drive_ok d && x.mounted && x.remote && not (writing && x.readonly)
      then elim x.backing [
        | none ↦ none
        | some b ↦ if track_in_bounds track len (size_of io b e) then some b else none
      ]
      else none

  -- The read once the backing is picked; `others` act between the transfer and the locked end.
  unfoldable pub read_picked : Others E → ℤ → ℕ → ℕ → Option Backing → Disk → E → Esp × Disk × E
  read_picked others d track len none s e = (err_invalid_state, s, e)
  read_picked others d track len (some b) s e =
      if not (io.net_is_connected e)
      then (err_invalid_state, s, e)
      else let (err, stage, e1) = read_at io b (track_offset track len) len e in
        let (s2, e2) = others s e1 in
        let (err', s3) = read_install d track b (take len stage) s2 in
        if is_ok err then (err', s3, e2) else (err, s2, e2)

  unfoldable pub worker_read : Others E → ℤ → ℕ → ℕ → Disk → E → Esp × Disk × E
  worker_read others d track len s e =
      read_picked others d track len (pick false d track len s e) s e

  unfoldable pub write_picked :
      Others E → ℤ → ℕ → Bytes → Option Backing → Disk → E → Esp × Disk × E
  write_picked others d track bytes none s e = (err_invalid_state, s, e)
  write_picked others d track bytes (some b) s e =
      if not (io.net_is_connected e)
      then (err_invalid_state, s, e)
      else let (err, e1) = write_at io b (track_offset track (length bytes)) bytes e in
        let (s2, e2) = others s e1 in (err, write_install d track b bytes err s2, e2)

  unfoldable pub worker_write : Others E → ℤ → ℕ → Bytes → Disk → E → Esp × Disk × E
  worker_write others d track bytes s e =
      write_picked others d track bytes (pick true d track (length bytes) s e) s e

  -- `rjob_post_wait` on a job whose work is `work`.
  unfoldable pub post_wait :
      Handoff E → (Others E → Disk → E → Esp × Disk × E) → Disk → E → Esp × Disk × E
  post_wait no_memory work s e = (err_no_mem, s, e)
  post_wait no_queue work s e = (err_invalid_state, s, e)
  post_wait queue_full work s e = (err_timeout, s, e)
  post_wait (served before during after) work s e =
      let (s1, e1) = before s e in
      let (err, s2, e2) = work during s1 e1 in let (s3, e3) = after s2 e2 in (err, s3, e3)
  post_wait (abandoned others) work s e = let (s1, e1) = others s e in (err_timeout, s1, e1)

  -- `rjob_post_async` on a job, or on NULL.
  unfoldable pub post_object : AsyncJob → Option ℕ → Disk → E → Esp × Disk × E
  post_object job none s e = (err_no_mem, s, e)
  post_object job (some a) s e =
      let (sent, e1) = io.queue_send e in
      if sent then (esp_ok, record s { queue = s.queue ++ job ∷ [] }, e1) else (err_timeout, s, e1)

  -- `rjob_post_async(rjob_new(...))`: the error, and the queue with the job if there is none.
  unfoldable pub post_async : AsyncJob → Disk → E → Esp × Disk × E
  unfolding post_object
  post_async job s e = let (object, e1) = io.calloc e in post_object job object s e1

  -- A local backing is closed here; a remote one is left to the worker, and leaked if that fails.
  unfoldable pub backing_dispose : Option Backing → Bool → Disk → E → Disk × E
  unfolding post_async
  backing_dispose none remote s e = (s, e)
  backing_dispose (some b) remote s e =
      if not remote
      then (s, close io b e)
      else let (err, s1, e1) = post_async (job_close b) s e in (s1, e1)
