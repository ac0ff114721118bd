-- ===== src/Disk/Table.antt =====
-- src/disk/disk.c: the mount table, the track buffer, the cache, and the queries on them. Each
-- function is what its C function does under the lock.
use fdc_sds_pio.Prelude.{
  Bool, Bytes, List, Option, [], eq_int, false, if◌then◌else◌, length, ltb, memcpy, negsuc, none,
  not, pos, some, take, true, ℕ, ℤ, ◌&&◌,
}
use fdc_sds_pio.Protocol.{status_bitmap_of}
use fdc_sds_pio.Disk.Io.{Io}
use fdc_sds_pio.Disk.Backing.{Backing, size_of}

pub record Drive : Type 0 where
  pub mounted : Bool
  pub remote : Bool
  pub readonly : Bool
  pub name : Bytes
  pub canon : Bytes
  pub backing : Option Backing

pub record Cache : Type 0 where
  pub valid : Bool
  pub drive : ℤ
  pub track : ℕ
  pub len : ℕ

-- A job that nobody waits for.
pub data AsyncJob : Type 0 where
  job_mount : ℤ → AsyncJob
  job_close : Backing → AsyncJob

-- `drv` stands for the array of four; the code reads and writes it at drives that `drive_ok` passes.
pub record Disk : Type 0 where
  pub drv : ℤ → Drive
  pub buf : Bytes
  pub cache : Cache
  pub queue : List AsyncJob

abbrev pub max_drive : ℕ
max_drive = 4

unfoldable pub drive_ok : ℤ → Bool
drive_ok (pos n) = ltb n max_drive
drive_ok (negsuc n) = false

-- One entry of the table is replaced.
abbrev pub set_drive : Disk → ℤ → Drive → Disk
set_drive s d x = record s { drv = λ i. if eq_int d i then x else s.drv i }

unfoldable pub cache_drop_drive : ℤ → Disk → Disk
cache_drop_drive d s =
    if s.cache.valid && eq_int s.cache.drive d
    then record s { cache = record s.cache { valid = false } }
    else s

-- The buffer holds this track of this drive.
unfoldable pub cache_fill : ℤ → ℕ → Bytes → Disk → Disk
cache_fill d track bytes s = record s {
  buf = memcpy s.buf bytes;
  cache = record { valid = true; drive = d; track = track; len = length bytes };
}

unfoldable pub disk_is_mounted : ℤ → Disk → Bool
unfolding drive_ok
disk_is_mounted d s = drive_ok d && (s.drv d).mounted

unfoldable pub disk_is_remote : ℤ → Disk → Bool
unfolding drive_ok
disk_is_remote d s = drive_ok d && (s.drv d).remote

unfoldable pub disk_is_readonly : ℤ → Disk → Bool
unfolding drive_ok
disk_is_readonly d s = drive_ok d && (s.drv d).readonly

unfoldable pub disk_name : ℤ → Disk → Bytes
unfolding drive_ok
disk_name d s = if drive_ok d then (s.drv d).name else []

unfoldable pub disk_status_bitmap : Disk → ℕ
disk_status_bitmap s = status_bitmap_of (λ i. (s.drv (pos i)).mounted) max_drive

-- The copy of the cached track, its drive (-1 if there is none), its number and its length.
unfoldable pub disk_copy_track_buffer : Disk → Bytes × ℤ × ℕ × ℕ
disk_copy_track_buffer s =
    if s.cache.valid
    then (take s.cache.len s.buf, s.cache.drive, s.cache.track, s.cache.len)
    else ([], negsuc 0, 0, 0)

module _ {E : Type 0} (io : Io E) where
  unfoldable pub disk_image_size : ℤ → Disk → E → ℕ
  unfolding disk_is_mounted
  disk_image_size d s e =
      if not (disk_is_mounted d s)
      then 0
      else elim (s.drv d).backing [ none ↦ 0 | some b ↦ size_of io b e ]
