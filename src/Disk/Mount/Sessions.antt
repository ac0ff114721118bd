-- ===== src/Disk/Mount/Sessions.antt =====
-- src/disk/disk.c: the TNFS sessions that mount and unmount close.
use fdc_sds_pio.Tnfs.{tnfs_is_url}
use fdc_sds_pio.Esp.{Esp}
use fdc_sds_pio.Disk.Worker.{Handoff, backing_dispose}
use fdc_sds_pio.Disk.Backing.{Backing, close, local_backing, local_open, remote_backing}
use fdc_sds_pio.Disk.Mount.{
  canon_of, disk_mount, disk_unmount, empty_drive, install_local, local_slot, mount_local,
  mount_opened,
}
use fdc_sds_pio.Prelude.{
  Bool, Bytes, Option, false, inl, inr, none, refl, some, true, ℕ, ℤ, ◌≡◌, ◌⊎◌,
}
use fdc_sds_pio.Disk.Io.{Io}
use fdc_sds_pio.Disk.Table.{Disk, cache_drop_drive, set_drive}
use fdc_sds_pio.Disk.Mount.Consistent.{HasKind, IsTable}

-- The same surroundings with another function in place of `tnfs_close`.
abbrev pub with_tnfs_close : {E : Type 0} → Io E → (ℕ → E → E) → Io E
with_tnfs_close io shut = record io { tnfs_close = shut }

module _ {E : Type 0} (io : Io E) (shut : ℕ → E → E) where
  dispose-tnfs_close :
      (mounted remote : Bool) (o : Option Backing) (s : Disk) (e : E)
      → HasKind mounted remote o
      → backing_dispose (with_tnfs_close io shut) o remote s e ≡ backing_dispose io o remote s e
  unfolding backing_dispose close
  dispose-tnfs_close mounted remote none s e k = refl
  dispose-tnfs_close false remote (some b) s e k = absurd k
  dispose-tnfs_close true false (some (local_backing a fp size)) s e k = refl
  dispose-tnfs_close true false (some (remote_backing a tf)) s e k = absurd k
  dispose-tnfs_close true true (some (local_backing a fp size)) s e k = absurd k
  dispose-tnfs_close true true (some (remote_backing a tf)) s e k = refl

  -- On a consistent table an unmount behaves the same whatever `tnfs_close` does: it never closes a
  -- session itself, but leaves that to the worker.
  pub disk_unmount-tnfs_close :
      (d : ℤ) (s : Disk) (e : E)
      → IsTable s
      → disk_unmount (with_tnfs_close io shut) d s e ≡ disk_unmount io d s e
  unfolding disk_unmount
  disk_unmount-tnfs_close d s e h = rw (
      dispose-tnfs_close (s.drv d).mounted (s.drv d).remote (s.drv d).backing
        (cache_drop_drive d (set_drive s d empty_drive)) e (h d).kind)

  mount_opened-tnfs_close :
      (d : ℤ) (name : Bytes) (o : Backing ⊎ Esp) (s : Disk) (e : E)
      → IsTable s
      → mount_opened (with_tnfs_close io shut) d name o s e ≡ mount_opened io d name o s e
  unfolding mount_opened install_local canon_of
  mount_opened-tnfs_close d name (inr err) s e h = rw (disk_unmount-tnfs_close d s e h)
  mount_opened-tnfs_close d name (inl b) s e h = rw (
      dispose-tnfs_close (s.drv d).mounted (s.drv d).remote (s.drv d).backing
        (cache_drop_drive d (set_drive s d (local_slot b name (canon_of io name e)))) e (h d).kind)

  local_open-tnfs_close :
      (name : Bytes) (e : E) → local_open (with_tnfs_close io shut) name e ≡ local_open io name e
  unfolding local_open
  local_open-tnfs_close name e = refl

  -- So does the mount of an SD image, whatever was on the drive before.
  pub disk_mount-tnfs_close :
      (hand : Handoff E) (d : ℤ) (name : Bytes) (s : Disk) (e : E)
      → tnfs_is_url name ≡ false
      → IsTable s
      → disk_mount (with_tnfs_close io shut) hand d name s e ≡ disk_mount io hand d name s e
  unfolding disk_mount mount_local
  disk_mount-tnfs_close hand d name s e file h =
      rw (file, local_open-tnfs_close, mount_opened-tnfs_close) (rw mount_opened-tnfs_close)
