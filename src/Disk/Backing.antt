-- ===== src/Disk/Backing.antt =====
-- src/disk/disk.c: the backing interface with its two implementations. The virtual calls through
-- `disk_backing_t` are functions by cases on the implementation.
use fdc_sds_pio.Prelude.{
  Bool, Bytes, Option, [], false, if◌then◌else◌, inl, inr, length, none, not, some, ℕ, ◌%◌, ◌+◌,
  ◌==◌, ◌^◌, ◌⊎◌,
}
use fdc_sds_pio.Esp.{Esp, err_invalid_arg, err_no_mem, err_not_found, esp_fail, esp_ok}
use fdc_sds_pio.Sd.{sd_path}
use fdc_sds_pio.Disk.Io.{Io}

-- The address of the object, and its members: `fp` and `size`, or `tf`.
pub data Backing : Type 0 where
  local_backing : ℕ → ℕ → ℕ → Backing
  remote_backing : ℕ → ℕ → Backing

abbrev pub address : Backing → ℕ
address (local_backing a fp size) = a
address (remote_backing a tf) = a

-- `a == b` on two pointers, the first of which may be NULL.
abbrev pub same_backing : Option Backing → Backing → Bool
same_backing none b = false
same_backing (some a) b = address a == address b

abbrev pub file_cap : ℕ
file_cap = 129

module _ {E : Type 0} (io : Io E) where
  -- The bytes are those that have arrived in the buffer.
  unfoldable pub local_read_at : ℕ → ℕ → ℕ → E → Esp × Bytes × E
  local_read_at fp off len e =
      let (sought, e1) = io.fseek_set fp off e in
      if not sought
      then (esp_fail, [], e1)
      else let (got, e2) = io.fread fp len e1 in
        ((if length got == len then esp_ok else esp_fail), got, e2)

  unfoldable pub local_write_at : ℕ → ℕ → Bytes → E → Esp × E
  local_write_at fp off bytes e =
      let (sought, e1) = io.fseek_set fp off e in
      if not sought
      then (esp_fail, e1)
      else let (n, e2) = io.fwrite fp bytes e1 in
        if not (n == length bytes)
        then (esp_fail, e2)
        else let (flushed, e3) = io.fflush fp e2 in
          if not flushed
          then (esp_fail, e3)
          else let (synced, e4) = io.fsync fp e3 in ((if synced then esp_ok else esp_fail), e4)

  unfoldable pub read_at : Backing → ℕ → ℕ → E → Esp × Bytes × E
  unfolding local_read_at
  read_at (local_backing a fp size) off len e = local_read_at fp off len e
  read_at (remote_backing a tf) off len e = io.tnfs_read_at tf off len e

  unfoldable pub write_at : Backing → ℕ → Bytes → E → Esp × E
  unfolding local_write_at
  write_at (local_backing a fp size) off bytes e = local_write_at fp off bytes e
  write_at (remote_backing a tf) off bytes e = io.tnfs_write_at tf off bytes e

  unfoldable pub size_of : Backing → E → ℕ
  size_of (local_backing a fp size) e = size
  size_of (remote_backing a tf) e = io.tnfs_size tf e

  unfoldable pub close : Backing → E → E
  close (local_backing a fp size) e = io.fclose fp e
  close (remote_backing a tf) e = io.tnfs_close tf e

  -- The parts of `local_open`, from the last one on: the object, the size, the stream, the path.
  unfoldable pub open_object : ℕ → ℕ → Option ℕ → E → (Backing ⊎ Esp) × E
  open_object fp sz none e = (inr err_no_mem, io.fclose fp e)
  open_object fp sz (some a) e = (inl (local_backing a fp (sz % 2 ^ 32)), e)

  unfoldable pub open_sized : ℕ → Option ℕ → E → (Backing ⊎ Esp) × E
  unfolding open_object
  open_sized fp none e = (inr esp_fail, io.fclose fp e)
  open_sized fp (some sz) e = let (object, e1) = io.calloc e in open_object fp sz object e1

  unfoldable pub open_stream : Option ℕ → E → (Backing ⊎ Esp) × E
  unfolding open_sized
  open_stream none e = (inr err_not_found, e)
  open_stream (some fp) e =
      let (sought, e1) = io.fseek_end fp e in
      if not sought then (inr esp_fail, io.fclose fp e1) else open_sized fp (io.ftell fp e1) e1

  unfoldable pub open_path : Option Bytes → E → (Backing ⊎ Esp) × E
  unfolding open_stream
  open_path none e = (inr err_invalid_arg, e)
  open_path (some path) e = let (stream, e1) = io.fopen path e in open_stream stream e1

  unfoldable pub local_open : Bytes → E → (Backing ⊎ Esp) × E
  unfolding open_path
  local_open name e = open_path (sd_path name (16 + file_cap)) e
