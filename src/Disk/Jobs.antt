-- ===== src/Disk/Jobs.antt =====
-- src/disk/disk.c: the life of one job object of the worker, between its caller and the worker. Each
-- function is what the C function does to the object in one critical section.
use fdc_sds_pio.Prelude.{Bool, false, if◌then◌else◌, not, true, ℕ, ◌+◌, ◌||◌}
use fdc_sds_pio.Esp.{Esp, err_invalid_state, err_no_mem, err_timeout, esp_ok}
pub mod Freed

-- `sync`: the job has its semaphore `done`; `signalled`: it has been given; `frees` counts `free(j)`.
pub record Job : Type 0 where
  pub sync : Bool
  pub signalled : Bool
  pub completed : Bool
  pub abandoned : Bool
  pub result : Esp
  pub frees : ℕ

unfoldable pub rjob_new : Job
rjob_new = record {
  sync = false;
  signalled = false;
  completed = false;
  abandoned = false;
  result = esp_ok;
  frees = 0;
}

unfoldable pub rjob_free : Job → Job
rjob_free j = record j { frees = j.frees + 1 }

-- The worker's end of a job.
unfoldable pub rjob_complete : Esp → Job → Job
unfolding rjob_free
rjob_complete result j =
    if j.abandoned || not j.sync
    then rjob_free j
    else record j { result = result; completed = true; signalled = true }

-- The caller has the semaphore.
unfoldable pub wait_taken : Job → Esp × Job
unfolding rjob_free
wait_taken j = (j.result, rjob_free (record j { signalled = false }))

-- The wait has timed out.
unfoldable pub wait_expired : Job → Esp × Job
unfolding rjob_free
wait_expired j =
    if j.completed then (j.result, rjob_free j) else (err_timeout, record j { abandoned = true })

-- Where the caller of `rjob_post_wait` or `rjob_post_async` is, and whether the job still is in the
-- queue or with the worker.
pub data Caller : Type 0 where
  nobody waiting late : Caller
  returned : Esp → Caller

pub data Server : Type 0 where
  pending finished : Server

-- The two functions up to the queue: no queue, no semaphore, no place in time, or the job is sent.
pub data Post : Type 0 where
  no_queue no_semaphore no_place sent : Post

unfoldable pub rjob_post_wait : Post → Job → Job × Caller × Server
unfolding rjob_free
rjob_post_wait no_queue j = (rjob_free j, returned err_invalid_state, finished)
rjob_post_wait no_semaphore j = (rjob_free j, returned err_no_mem, finished)
rjob_post_wait no_place j = (rjob_free (record j { sync = true }), returned err_timeout, finished)
rjob_post_wait sent j = (record j { sync = true }, waiting, pending)

-- No semaphore is made here.
unfoldable pub rjob_post_async : Post → Job → Job × Caller × Server
unfolding rjob_free
rjob_post_async no_queue j = (rjob_free j, returned err_invalid_state, finished)
rjob_post_async no_place j = (rjob_free j, returned err_timeout, finished)
rjob_post_async _ j = (j, nobody, pending)
