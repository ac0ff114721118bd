-- ===== src/TnfsServer/Os.antt =====
-- What src/net/tnfs_server.c calls outside itself, over a state `E` of the card, the network and
-- errno: the POSIX calls over FatFs, the clock, the socket, and the guard of disk.c.
use fdc_sds_pio.Prelude.{Bool, Bytes, List, Option, ℕ, ℤ, ◌⊎◌}

-- The values of errno that the server tells apart.
pub data Errno : Type 0 where
  e_zero e_noent e_acces e_perm e_exist e_notdir e_isdir e_inval e_mfile e_nfile e_nospc : Errno
  e_rofs e_nametoolong e_notempty e_badf e_nomem e_busy e_io : Errno
  e_other : ℕ → Errno

pub data Access : Type 0 where
  read_only write_only read_write : Access

-- The flags of `open`.
pub record OpenFlags : Type 0 where
  pub access : Access
  pub append : Bool
  pub creat : Bool
  pub trunc : Bool
  pub excl : Bool

pub data Whence : Type 0 where
  seek_set seek_cur seek_end : Whence

-- The fields of `struct stat` that are read; `is_dir` is S_ISDIR of the mode.
pub record Stat : Type 0 where
  pub st_mode : ℕ
  pub is_dir : Bool
  pub st_size : ℕ
  pub st_mtime : ℕ

-- `d_name`, and `d_type == DT_DIR`.
pub record Dirent : Type 0 where
  pub d_name : Bytes
  pub d_dir : Bool

-- `sin_addr.s_addr` and `sin_port`
pub record Peer : Type 0 where
  pub addr : ℕ
  pub port : ℕ

pub record Os (E : Type 0) : Type 0 where
  pub errno : E → Errno
  pub set_errno : Errno → E → E
  -- esp_timer_get_time
  pub now_us : E → ℕ
  pub sendto : Bytes → Peer → E → E
  -- `none` for a negative result.
  pub open_file : Bytes → OpenFlags → E → Option ℕ × E
  pub read : ℕ → ℕ → E → Option Bytes × E
  pub write : ℕ → Bytes → E → Option ℕ × E
  pub lseek : ℕ → ℤ → Whence → E → Option ℕ × E
  pub close : ℕ → E → E
  -- The status, or the errno of the failure.
  pub stat : Bytes → E → Stat ⊎ Errno
  -- Whether the result is 0.
  pub mkdir : Bytes → E → Bool × E
  pub rmdir : Bytes → E → Bool × E
  pub unlink : Bytes → E → Bool × E
  pub rename : Bytes → Bytes → E → Bool × E
  -- A stream is an address, 0 for NULL.
  pub opendir : Bytes → E → ℕ × E
  pub readdir : ℕ → E → Option Dirent × E
  pub rewinddir : ℕ → E → E
  pub closedir : ℕ → E → E
  -- What a stream has still to give; it only bounds the loops over readdir.
  pub entries : ℕ → E → List Dirent
  -- disk.c: a drive number, or negative with the mount lock held.
  pub disk_change_begin : Bytes → E → ℤ × E
  pub disk_change_end : E → E
