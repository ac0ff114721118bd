-- ===== src/Disk/Remote.antt =====
-- src/disk/disk.c: boot auto-mount, the WiFi hooks, and the worker's loop over its queue.
use fdc_sds_pio.Prelude.{
  Bytes, List, [], eq_bytes, false, if◌then◌else◌, none, not, pos, some, strlcpy, true, ℤ, ◌&&◌,
  ◌∷◌,
}
use fdc_sds_pio.Tnfs.{tnfs_is_url}
use fdc_sds_pio.Disk.Io.{Io}
use fdc_sds_pio.Disk.Backing.{Backing, close, file_cap}
use fdc_sds_pio.Disk.Table.{Disk, cache_drop_drive, job_close, job_mount, set_drive}
use fdc_sds_pio.Disk.Worker.{Others, backing_dispose, no_queue, post_async}
use fdc_sds_pio.Disk.Mount.{disk_mount, worker_mount}

abbrev pub all_drives : List ℤ
all_drives = pos 0 ∷ pos 1 ∷ pos 2 ∷ pos 3 ∷ []

-- The locked loop of `disk_remote_unmount_all`: every live remote drive is made not-ready, and its
-- session goes to the list.
unfoldable pub drop_remote : List ℤ → Disk → Disk × List Backing
drop_remote [] s = (s, [])
drop_remote (d ∷ ds) s =
    let x = s.drv d in
    let s1 =
      cache_drop_drive d
        (set_drive s d (record x { backing = none; mounted = false; readonly = false })) in
    let rest = drop_remote ds s in
    let dropped = drop_remote ds s1 in
    if x.remote && x.mounted
    then (dropped.0, elim x.backing [ none ↦ dropped.1 | some b ↦ b ∷ dropped.1 ])
    else rest

module _ {E : Type 0} (io : Io E) where
  unfoldable pub dispose_all : List Backing → Disk → E → Disk × E
  dispose_all [] s e = (s, e)
  dispose_all (b ∷ bs) s e =
      let (s1, e1) = backing_dispose io (some b) true s e in dispose_all bs s1 e1

  unfoldable pub disk_remote_unmount_all : Disk → E → Disk × E
  unfolding drop_remote dispose_all
  disk_remote_unmount_all s e =
      let (s1, sessions) = drop_remote all_drives s in dispose_all sessions s1 e

  pub post_mounts : List ℤ → Disk → E → Disk × E
  post_mounts [] s e = (s, e)
  post_mounts (d ∷ ds) s e =
      let x = s.drv d in
      let (_, s1, e1) = post_async io (job_mount d) s e in
      let posted = post_mounts ds s1 e1 in
      let rest = post_mounts ds s e in
      if x.remote && not x.mounted && not (eq_bytes x.name []) then posted else rest

  unfoldable pub disk_remote_mount_all : Disk → E → Disk × E
  unfolding post_mounts
  disk_remote_mount_all s e = post_mounts all_drives s e

  -- One drive of `disk_automount`. Nothing is remote yet at boot, so no hand-off takes place.
  unfoldable pub automount_one : ℤ → Bytes → Disk → E → Disk × E
  automount_one d name s e =
      let x = s.drv d in
      if eq_bytes name []
      then (s, e)
      else if tnfs_is_url name
      then (
        set_drive s d (record x {
          remote = true;
          mounted = false;
          readonly = false;
          name = strlcpy file_cap name;
        }),
        e,
      )
      else let (_, s1, e1) = disk_mount io no_queue d name s e in (s1, e1)

  unfoldable pub disk_automount : (ℤ → Bytes) → Disk → E → Disk × E
  unfolding automount_one
  disk_automount names s e =
      let (s0, e0) = automount_one (pos 0) (names (pos 0)) s e in
      let (s1, e1) = automount_one (pos 1) (names (pos 1)) s0 e0 in
      let (s2, e2) = automount_one (pos 2) (names (pos 2)) s1 e1 in
      automount_one (pos 3) (names (pos 3)) s2 e2

  -- `diskio_task`: the next job that nobody waits for.
  unfoldable pub diskio_step : Others E → Disk → E → Disk × E
  diskio_step others s e = elim s.queue [
    | [] ↦ (s, e)
    | job ∷ rest ↦
        let s1 = record s { queue = rest } in
        elim job [
          | job_mount d ↦ let (_, s2, e2) = worker_mount io others d s1 e in (s2, e2)
          | job_close b ↦ (s1, close io b e)
        ]
  ]
