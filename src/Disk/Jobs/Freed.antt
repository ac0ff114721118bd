-- ===== src/Disk/Jobs/Freed.antt =====
-- src/disk/disk.c: when a job of the worker is freed.
use fdc_sds_pio.Prelude.{Bool, arith, false, refl, true, ◌≡◌}
use fdc_sds_pio.Esp.{Esp}
use fdc_sds_pio.Disk.Jobs.{
  Caller, Job, Post, Server, finished, late, no_place, no_queue, no_semaphore, nobody, pending,
  returned, rjob_complete, rjob_free, rjob_new, rjob_post_async, rjob_post_wait, sent, wait_expired,
  wait_taken, waiting,
}

-- The steps of the caller and the worker that touch the job, in any order.
pub data JobStep : Job × Caller × Server → Job × Caller × Server → Type 0 where
  complete :
      (result : Esp) (j : Job) (c : Caller)
      → JobStep (j, c, pending) (rjob_complete result j, c, finished)
  take_done :
      (j : Job) (w : Server)
      → j.signalled ≡ true
      → JobStep (j, waiting, w) ((wait_taken j).1, returned ((wait_taken j).0), w)
  -- The wait ends without the semaphore, which may be given right after.
  expire : (j : Job) (w : Server) → JobStep (j, waiting, w) (j, late, w)
  check :
      (j : Job) (w : Server)
      → JobStep (j, late, w) ((wait_expired j).1, returned ((wait_expired j).0), w)

pub data Life : Job × Caller × Server → Job × Caller × Server → Type 0 where
  here : (x : Job × Caller × Server) → Life x x
  then_step : {x y z : Job × Caller × Server} → Life x y → JobStep y z → Life x z

-- A job that somebody may still touch has not been freed, and one that nobody will has been, once.
abbrev pub IsOnce : Job × Caller × Server → Type 0
IsOnce (j, nobody, finished) = j.frees ≡ 1
IsOnce (j, returned r, finished) = j.frees ≡ 1
IsOnce (j, _, finished) = (j.frees ≡ 0) × (j.completed ≡ true)
IsOnce (j, nobody, pending) = (j.frees ≡ 0) × (j.sync ≡ false)
IsOnce (j, returned r, pending) = (j.frees ≡ 0) × (j.abandoned ≡ true)
IsOnce (j, _, pending) =
    (j.frees ≡ 0)
    × (j.sync ≡ true)
    × (j.abandoned ≡ false)
    × (j.completed ≡ false)
    × (j.signalled ≡ false)

complete-IsOnce :
    (result : Esp) (j : Job) (c : Caller)
    → IsOnce (j, c, pending)
    → IsOnce (rjob_complete result j, c, finished)
unfolding rjob_complete rjob_free
complete-IsOnce result j nobody h = ground (arith, h)
complete-IsOnce result j (returned r) h = ground (arith, h)
complete-IsOnce result j waiting h = ground (arith, h)
complete-IsOnce result j late h = ground (arith, h)

take_done-IsOnce :
    (j : Job) (w : Server)
    → j.signalled ≡ true
    → IsOnce (j, waiting, w)
    → IsOnce ((wait_taken j).1, returned ((wait_taken j).0), w)
unfolding wait_taken rjob_free
take_done-IsOnce j finished given h = ground (arith, h)
take_done-IsOnce j pending given h = ground (arith, h, given)

check-IsOnce :
    (j : Job) (w : Server)
    → IsOnce (j, late, w)
    → IsOnce ((wait_expired j).1, returned ((wait_expired j).0), w)
unfolding wait_expired rjob_free
check-IsOnce j finished h = ground (arith, h)
check-IsOnce j pending h = ground (arith, h)

step-IsOnce : {x y : Job × Caller × Server} → JobStep x y → IsOnce x → IsOnce y
step-IsOnce (complete result j c) h = complete-IsOnce result j c h
step-IsOnce (take_done j w given) h = take_done-IsOnce j w given h
step-IsOnce (expire j finished) h = h
step-IsOnce (expire j pending) h = h
step-IsOnce (check j w) h = check-IsOnce j w h

lived-IsOnce : {x y : Job × Caller × Server} → Life x y → IsOnce x → IsOnce y
lived-IsOnce (here x) h = h
lived-IsOnce (then_step path step) h = step-IsOnce step (lived-IsOnce path h)

wait-IsOnce : (p : Post) → IsOnce (rjob_post_wait p rjob_new)
unfolding rjob_post_wait rjob_new rjob_free
wait-IsOnce no_queue = refl
wait-IsOnce no_semaphore = refl
wait-IsOnce no_place = refl
wait-IsOnce sent = (refl, refl, refl, refl, refl)

async-IsOnce : (p : Post) → IsOnce (rjob_post_async p rjob_new)
unfolding rjob_post_async rjob_new rjob_free
async-IsOnce no_queue = refl
async-IsOnce no_semaphore = (refl, refl)
async-IsOnce no_place = refl
async-IsOnce sent = (refl, refl)

-- A job as it is posted, by a caller that waits or by one that does not.
abbrev pub posted : Bool → Post → Job × Caller × Server
posted true p = rjob_post_wait p rjob_new
posted false p = rjob_post_async p rjob_new

posted_lem : (waits : Bool) (p : Post) → IsOnce (posted waits p)
posted_lem true p = wait-IsOnce p
posted_lem false p = async-IsOnce p

-- A posted job, through any order of what its caller and the worker do: while either of them can
-- still touch it, it has not been freed, and once neither can, it has been freed exactly once.
pub Life-IsOnce :
    (waits : Bool) (p : Post) {y : Job × Caller × Server} → Life (posted waits p) y → IsOnce y
Life-IsOnce waits p path = lived-IsOnce path (posted_lem waits p)
