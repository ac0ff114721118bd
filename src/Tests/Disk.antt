-- ===== src/Tests/Disk.antt =====
-- Runs of the theorems on src/disk/disk.c: an image of eight bytes on drive 0.
use fdc_sds_pio.Protocol.{track_in_bounds, track_offset}
use fdc_sds_pio.Prelude.{
  Bool, Bool-cases, Bytes, [], codes, eq_int, eq_int_iff, false, if◌then◌else◌, inl, inr, pos, refl,
  some, true, ℤ, ◌∷◌, ◌≡◌, ◌≢◌,
}
use fdc_sds_pio.Esp.{esp_ok}
use fdc_sds_pio.Tnfs.{has_prefix_ci, tnfs_is_url}
use fdc_sds_pio.Disk.Backing.{Backing, local_write_at, remote_backing, size_of, write_at}
use fdc_sds_pio.Disk.Table.{Disk, cache_fill, disk_is_mounted, drive_ok}
use fdc_sds_pio.Prelude.{
  Bool, Bool-cases, Bytes, [], codes, eq_int, eq_int_iff, false, if◌then◌else◌, inl, inr, pos, refl,
  some, true, ℤ, ◌∷◌, ◌≡◌, ◌≢◌,
}
use fdc_sds_pio.Disk.Table.{Disk, cache_fill, disk_is_mounted, drive_ok}
use fdc_sds_pio.Tests.World.{World, image_drive, off_drive, table, world, world_io, world_laws}
use fdc_sds_pio.Disk.Backing.{Backing, local_write_at, remote_backing, size_of, write_at}
use fdc_sds_pio.Disk.Worker.{
  Others, no_memory, pick, post_wait, served, worker_write, write_install, write_picked,
}
use fdc_sds_pio.Disk.Track.{check_track, disk_read_track, disk_write_track, write_local}
use fdc_sds_pio.Disk.Mount.{disk_mount}
use fdc_sds_pio.Disk.Change.{disk_change_begin}
use fdc_sds_pio.Disk.Coherent.Invariant.{IsCoherent, invalid-IsCoherent}
use fdc_sds_pio.Disk.Coherent.Track.{IsRead, disk_read_track-IsRead}
use fdc_sds_pio.Disk.Coherent.WriteTrack.{disk_read_track-disk_write_track}
use fdc_sds_pio.Disk.Mount.Consistent.{IsDrive, IsTable, disk_mount-IsTable}
use fdc_sds_pio.Disk.Mount.Outcome.{IsMountOutcome, disk_mount-IsMountOutcome}
use fdc_sds_pio.Disk.Change.Guard.{IsGuarding, disk_change_begin-IsGuarding}
use fdc_sds_pio.Tests.World.{World, image_drive, off_drive, table, world, world_io, world_laws}

abbrev patch : Bytes
patch = 1 ∷ 2 ∷ 3 ∷ 4 ∷ []

coherent : IsCoherent world_laws.image table world
coherent = invalid-IsCoherent world_laws.image table world refl

-- The same on a session of the worker, with no other task.
abbrev remote_table : Disk
remote_table = record table {
  drv = λ d.
      if eq_int d (pos 0)
      then record image_drive { remote = true; backing = some (remote_backing 100 7) }
      else off_drive;
}

abbrev idle : Others World
idle s e = (s, e)

disk_read_track-IsRead_example :
    IsRead world_laws.image (pos 0) 1 4 (disk_read_track world_io no_memory (pos 0) 1 4 table world)
disk_read_track-IsRead_example =
    disk_read_track-IsRead world_io world_laws no_memory (pos 0) 1 4 table world tt coherent

-- The worker has written it, and has put it into the cache.
sent :
    (disk_write_track world_io (served idle idle idle) (pos 0) 1 patch remote_table world).0
    ≡ esp_ok
unfolding disk_write_track post_wait worker_write pick write_picked write_install write_at
    check_track disk_is_mounted drive_ok size_of track_in_bounds track_offset cache_fill
sent = refl

stored : (disk_write_track world_io no_memory (pos 0) 1 patch table world).0 ≡ esp_ok
unfolding disk_write_track write_local write_at local_write_at check_track disk_is_mounted drive_ok
    size_of track_in_bounds track_offset cache_fill
stored = refl

disk_read_track-disk_write_track_example :
    disk_read_track world_io no_memory
      (pos 0)
      1
      4
      ((disk_write_track world_io no_memory (pos 0) 1 patch table world).1)
      ((disk_write_track world_io no_memory (pos 0) 1 patch table world).2)
    ≡ (
      esp_ok,
      patch,
      (disk_write_track world_io no_memory (pos 0) 1 patch table world).1,
      (disk_write_track world_io no_memory (pos 0) 1 patch table world).2,
    )
disk_read_track-disk_write_track_example =
    disk_read_track-disk_write_track world_io world_laws no_memory no_memory (pos 0) 1 patch table
      world refl refl stored

consistent : IsTable table
consistent d = go (eq_int d (pos 0))
  where
    go : (b : Bool) → IsDrive (if b then image_drive else off_drive)
    go true = record { kind = tt; read_only = λ r. absurd (cc) }
    go false = record { kind = tt; read_only = λ r. absurd (cc) }

disk_mount-IsTable_example :
    IsTable ((disk_mount world_io no_memory (pos 1) (codes "B.DSK") table world).1)
disk_mount-IsTable_example =
    disk_mount-IsTable world_io no_memory (pos 1) (codes "B.DSK") table world tt consistent

local_name : tnfs_is_url (codes "B.DSK") ≡ false
unfolding tnfs_is_url has_prefix_ci
local_name = refl

on_board : drive_ok (pos 1) ≡ true
unfolding drive_ok
on_board = refl

disk_mount-IsMountOutcome_example :
    IsMountOutcome world_io
      (pos 1)
      (codes "B.DSK")
      (disk_mount world_io no_memory (pos 1) (codes "B.DSK") table world)
disk_mount-IsMountOutcome_example =
    disk_mount-IsMountOutcome world_io no_memory (pos 1) (codes "B.DSK") table world on_board
      (λ e. absurd (cc)) local_name

disk_change_begin-IsGuarding_example :
    IsGuarding world_io
      (codes "A.DSK")
      0
      table
      world
      (disk_change_begin world_io (codes "A.DSK") 0 table world)
disk_change_begin-IsGuarding_example =
    disk_change_begin-IsGuarding world_io (codes "A.DSK") 0 table world
