-- ===== src/Tests/Jobs.antt =====
-- A run of the theorem on the jobs of src/disk/disk.c: the wait ends just as the worker completes.
use fdc_sds_pio.Prelude.{false, true}
use fdc_sds_pio.Esp.{esp_fail, esp_ok}
use fdc_sds_pio.Disk.Jobs.{
  Job, finished, late, pending, returned, rjob_complete, rjob_new, rjob_post_wait, sent,
  wait_expired, waiting,
}
use fdc_sds_pio.Disk.Jobs.Freed.{
  IsOnce, Life, Life-IsOnce, check, complete, expire, here, posted, then_step,
}

abbrev sent_job : Job
sent_job = record {
  sync = true;
  signalled = false;
  completed = false;
  abandoned = false;
  result = esp_ok;
  frees = 0;
}

abbrev done_job : Job
done_job = rjob_complete esp_fail sent_job

race :
    Life
      (posted true sent)
      ((wait_expired done_job).1, returned ((wait_expired done_job).0), finished)
unfolding rjob_post_wait rjob_new
race =
    then_step
      (then_step (then_step (here (sent_job, waiting, pending)) (expire sent_job pending))
        (complete esp_fail sent_job late))
      (check done_job finished)

Life-IsOnce_example :
    IsOnce ((wait_expired done_job).1, returned ((wait_expired done_job).0), finished)
Life-IsOnce_example = Life-IsOnce true sent race
