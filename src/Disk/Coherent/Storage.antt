-- ===== src/Disk/Coherent/Storage.antt =====
-- src/disk/disk.c: the reads and writes of the two backings.
use fdc_sds_pio.Prelude.{Bytes, arith, length, refl, true, ℕ, ◌≡◌}
use fdc_sds_pio.Esp.{Esp, esp_ok, is_ok}
use fdc_sds_pio.Disk.Io.{Io}
use fdc_sds_pio.Disk.Backing.{Backing, local_backing, read_at, remote_backing, write_at}
use fdc_sds_pio.Disk.Laws.{IoLaws, slice}

pub is_ok_iff : (err : Esp) → is_ok err ≡ true → err ≡ esp_ok
is_ok_iff esp_ok h = refl
is_ok_iff _ h = cc

module _ {E : Type 0} (io : Io E) (laws : IoLaws io) where
  open laws use {
    image, apart, fseek_keeps, fread_keeps, fflush_keeps, fsync_keeps, fseek_moves, fread_gives,
    fwrite_puts, fwrite_keeps, tnfs_read_keeps, tnfs_read_gives, tnfs_write_puts, tnfs_write_keeps,
  }

  pub read_at-keeps :
      (b c : Backing) (off n : ℕ) (e : E) → image (read_at io b off n e).2 c ≡ image e c
  unfolding read_at
  read_at-keeps (local_backing a fp size) c off n e =
      ground (arith, fseek_keeps fp off c e, fread_keeps fp n c (io.fseek_set fp off e).1)
  read_at-keeps (remote_backing a tf) c off n e = tnfs_read_keeps tf off n c e

  -- A read that succeeds gives all the bytes asked for, and they are those of the image.
  pub read_at-image :
      (b : Backing) (off n : ℕ) (e : E)
      → (read_at io b off n e).0 ≡ esp_ok
      → (length (read_at io b off n e).1 ≡ n) × ((read_at io b off n e).1 ≡ slice off n (image e b))
  unfolding read_at
  read_at-image (local_backing a fp size) off n e h = ground (
    arith,
    fseek_keeps fp off (local_backing a fp size) e,
    fseek_moves fp off e,
    fread_gives a fp size n (io.fseek_set fp off e).1,
  )
  read_at-image (remote_backing a tf) off n e h = tnfs_read_gives a tf off n e h

  -- A write that succeeds has put the bytes into the image.
  pub write_at-image :
      (b : Backing) (off : ℕ) (bytes : Bytes) (e : E)
      → (write_at io b off bytes e).0 ≡ esp_ok
      → slice off (length bytes) (image (write_at io b off bytes e).1 b) ≡ bytes
  unfolding write_at
  write_at-image (local_backing a fp size) off bytes e h =
      let e1 = (io.fseek_set fp off e).1 in
      let e2 = (io.fwrite fp bytes e1).1 in
      let e3 = (io.fflush fp e2).1 in
      ground (
        arith,
        fseek_moves fp off e,
        fwrite_puts a fp size bytes e1,
        fflush_keeps fp (local_backing a fp size) e2,
        fsync_keeps fp (local_backing a fp size) e3,
      )
  write_at-image (remote_backing a tf) off bytes e h = tnfs_write_puts a tf off bytes e h

  -- A write, whether it succeeds or not, leaves the other files alone.
  pub write_at-keeps :
      (b c : Backing) (off : ℕ) (bytes : Bytes) (e : E)
      → apart b c ≡ true
      → image (write_at io b off bytes e).1 c ≡ image e c
  unfolding write_at
  write_at-keeps (local_backing a fp size) c off bytes e h =
      let e1 = (io.fseek_set fp off e).1 in
      let e2 = (io.fwrite fp bytes e1).1 in
      let e3 = (io.fflush fp e2).1 in
      ground (
        arith,
        fseek_keeps fp off c e,
        fwrite_keeps a fp size bytes c e1 h,
        fflush_keeps fp c e2,
        fsync_keeps fp c e3,
      )
  write_at-keeps (remote_backing a tf) c off bytes e h = tnfs_write_keeps a tf off bytes c e h
