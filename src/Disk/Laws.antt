-- ===== src/Disk/Laws.antt =====
-- What src/disk/disk.c relies on of the storage behind a backing: the C library and the file system
-- for a local image, the TNFS session for a remote one.
use fdc_sds_pio.Prelude.{Bool, Bytes, drop, false, length, take, true, ℕ, ◌≡◌}
use fdc_sds_pio.Esp.{esp_ok}
use fdc_sds_pio.Disk.Io.{Io}
use fdc_sds_pio.Disk.Backing.{Backing, local_backing, remote_backing}

-- `n` bytes from offset `off` on.
abbrev pub slice : ℕ → ℕ → Bytes → Bytes
slice off n bytes = take n (drop off bytes)

pub record IoLaws {E : Type 0} (io : Io E) : Type 0 where
  -- What the file behind a backing holds.
  pub image : E → Backing → Bytes
  -- Where a stream stands.
  pub position : E → ℕ → ℕ
  -- The two backings are open on different files.
  pub apart : Backing → Backing → Bool
  -- Seeking, reading and syncing change no file.
  pub fseek_keeps :
      (fp off : ℕ) (b : Backing) (e : E) → image (io.fseek_set fp off e).1 b ≡ image e b
  pub fread_keeps : (fp n : ℕ) (b : Backing) (e : E) → image (io.fread fp n e).1 b ≡ image e b
  pub fflush_keeps : (fp : ℕ) (b : Backing) (e : E) → image (io.fflush fp e).1 b ≡ image e b
  pub fsync_keeps : (fp : ℕ) (b : Backing) (e : E) → image (io.fsync fp e).1 b ≡ image e b
  pub tnfs_read_keeps :
      (tf off n : ℕ) (b : Backing) (e : E) → image (io.tnfs_read_at tf off n e).2 b ≡ image e b
  -- Opening, closing, allocating and queueing change no file either. (No open creates or truncates.)
  pub fopen_keeps : (path : Bytes) (b : Backing) (e : E) → image (io.fopen path e).1 b ≡ image e b
  pub fseek_end_keeps : (fp : ℕ) (b : Backing) (e : E) → image (io.fseek_end fp e).1 b ≡ image e b
  pub fclose_keeps : (fp : ℕ) (b : Backing) (e : E) → image (io.fclose fp e) b ≡ image e b
  pub calloc_keeps : (b : Backing) (e : E) → image (io.calloc e).1 b ≡ image e b
  pub queue_send_keeps : (b : Backing) (e : E) → image (io.queue_send e).1 b ≡ image e b
  pub tnfs_open_keeps :
      (url : Bytes) (writing : Bool) (b : Backing) (e : E)
      → image (io.tnfs_open url writing false e).1 b ≡ image e b
  pub tnfs_close_keeps : (tf : ℕ) (b : Backing) (e : E) → image (io.tnfs_close tf e) b ≡ image e b
  -- A seek that succeeds puts the stream at the offset.
  pub fseek_moves :
      (fp off : ℕ) (e : E)
      → (io.fseek_set fp off e).0 ≡ true
      → position (io.fseek_set fp off e).1 fp ≡ off
  -- A read that gives all bytes gives those at the stream's position.
  pub fread_gives :
      (a fp size n : ℕ) (e : E)
      → length (io.fread fp n e).0 ≡ n
      → (io.fread fp n e).0 ≡ slice (position e fp) n (image e (local_backing a fp size))
  -- A write that takes all bytes puts them at the stream's position.
  pub fwrite_puts :
      (a fp size : ℕ) (bytes : Bytes) (e : E)
      → (io.fwrite fp bytes e).0 ≡ length bytes
      → slice
          (position e fp)
          (length bytes)
          (image (io.fwrite fp bytes e).1 (local_backing a fp size))
        ≡ bytes
  -- A write, complete or not, changes no other file.
  pub fwrite_keeps :
      (a fp size : ℕ) (bytes : Bytes) (b : Backing) (e : E)
      → apart (local_backing a fp size) b ≡ true
      → image (io.fwrite fp bytes e).1 b ≡ image e b
  -- The same of a TNFS session.
  pub tnfs_read_gives :
      (a tf off n : ℕ) (e : E)
      → (io.tnfs_read_at tf off n e).0 ≡ esp_ok
      → (length (io.tnfs_read_at tf off n e).1 ≡ n)
        × ((io.tnfs_read_at tf off n e).1 ≡ slice off n (image e (remote_backing a tf)))
  pub tnfs_write_puts :
      (a tf off : ℕ) (bytes : Bytes) (e : E)
      → (io.tnfs_write_at tf off bytes e).0 ≡ esp_ok
      → slice off (length bytes) (image (io.tnfs_write_at tf off bytes e).1 (remote_backing a tf))
        ≡ bytes
  pub tnfs_write_keeps :
      (a tf off : ℕ) (bytes : Bytes) (b : Backing) (e : E)
      → apart (remote_backing a tf) b ≡ true
      → image (io.tnfs_write_at tf off bytes e).1 b ≡ image e b
