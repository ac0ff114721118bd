-- ===== src/Disk/Mount.antt =====
-- src/disk/disk.c: mount and unmount of local and remote images.
pub mod Consistent
pub mod Outcome
pub mod Sessions
use fdc_sds_pio.Prelude.{
  Bool, Bytes, Option, [], eq_bytes, false, if◌then◌else◌, inl, inr, none, not, pos, some, strlcpy,
  true, ℕ, ℤ, ◌&&◌, ◌*◌, ◌+◌, ◌||◌, ◌⊎◌,
}
use fdc_sds_pio.Esp.{Esp, err_invalid_arg, err_invalid_state, err_no_mem, esp_ok}
use fdc_sds_pio.Sd.{sd_path}
use fdc_sds_pio.Tnfs.{tnfs_is_url}
use fdc_sds_pio.Disk.Io.{Io}
use fdc_sds_pio.Disk.Backing.{Backing, file_cap, local_open, remote_backing}
use fdc_sds_pio.Disk.Table.{Disk, Drive, cache_drop_drive, drive_ok, set_drive}
use fdc_sds_pio.Disk.Worker.{Handoff, Others, backing_dispose, post_wait}

abbrev pub empty_drive : Drive
empty_drive = record {
  mounted = false;
  remote = false;
  readonly = false;
  name = [];
  canon = [];
  backing = none;
}

-- A remote slot with no session yet.
abbrev pub configured : Bytes → Drive
configured url = record {
  backing = none;
  mounted = false;
  remote = true;
  readonly = false;
  name = strlcpy file_cap url;
  canon = [];
}

-- A slot with a local image.
abbrev pub local_slot : Backing → Bytes → Bytes → Drive
local_slot b name canon = record {
  backing = some b;
  mounted = true;
  remote = false;
  readonly = false;
  name = strlcpy file_cap name;
  canon = strlcpy (2 * file_cap) canon;
}

-- The locked part of `worker_mount` that reads the slot: the URL, if a session is wanted.
unfoldable pub mount_wanted : ℤ → Disk → Option Bytes
mount_wanted d s =
    let x = s.drv d in
    if drive_ok d && x.remote && not x.mounted && not (eq_bytes x.name [])
    then some (strlcpy file_cap x.name)
    else none

-- The locked part that installs the session, if the slot is still the one that asked for it.
unfoldable pub mount_install : ℤ → Bytes → Bool → Backing → Disk → Option Disk
mount_install d url readonly b s =
    let x = s.drv d in
    if drive_ok d && x.remote && not x.mounted && eq_bytes x.name url
    then some (
        cache_drop_drive d
          (set_drive s d (record x { backing = some b; mounted = true; readonly = readonly })))
    else none

module _ {E : Type 0} (io : Io E) where
  -- The end of a mount by the worker: the session is discarded if the slot has changed.
  unfoldable pub mount_finish : ℕ → Option Disk → Disk → E → Esp × Disk × E
  mount_finish tf none s e = (esp_ok, s, io.tnfs_close tf e)
  mount_finish tf (some s') s e = (esp_ok, s', e)

  -- `remote_backing_new` and what follows it; `others` act before the table is locked again.
  unfoldable pub mount_object :
      Others E → ℤ → Bytes → Bool → ℕ → Option ℕ → Disk → E → Esp × Disk × E
  mount_object others d url readonly tf none s e = (err_no_mem, s, io.tnfs_close tf e)
  mount_object others d url readonly tf (some a) s e =
      let (s2, e2) = others s e in
      mount_finish tf (mount_install d url readonly (remote_backing a tf) s2) s2 e2

  unfoldable pub mount_session : Others E → ℤ → Bytes → Bool → ℕ → Disk → E → Esp × Disk × E
  mount_session others d url readonly tf s e =
      let (object, e1) = io.calloc e in mount_object others d url readonly tf object s e1

  unfoldable pub mount_read_only : Others E → ℤ → Bytes → ℕ ⊎ Esp → Disk → E → Esp × Disk × E
  mount_read_only others d url (inl tf) s e = mount_session others d url true tf s e
  mount_read_only others d url (inr err_ro) s e = (err_ro, s, e)

  -- Read-write first, then read-only; the error of a failure is that of the second attempt.
  unfoldable pub mount_read_write : Others E → ℤ → Bytes → ℕ ⊎ Esp → Disk → E → Esp × Disk × E
  mount_read_write others d url (inl tf) s e = mount_session others d url false tf s e
  mount_read_write others d url (inr err_rw) s e =
      let (opened, e1) = io.tnfs_open url false false e in mount_read_only others d url opened s e1

  unfoldable pub mount_url : Others E → ℤ → Option Bytes → Disk → E → Esp × Disk × E
  mount_url others d none s e = (esp_ok, s, e)
  mount_url others d (some url) s e =
      if not (io.net_is_connected e)
      then (err_invalid_state, s, e)
      else let (opened, e1) = io.tnfs_open url true false e in
        mount_read_write others d url opened s e1

  unfoldable pub worker_mount : Others E → ℤ → Disk → E → Esp × Disk × E
  worker_mount others d s e = mount_url others d (mount_wanted d s) s e

  unfoldable pub remote_configure : Handoff E → ℤ → Bytes → Disk → E → Esp × Disk × E
  remote_configure hand d url s e =
      let x = s.drv d in
      let (s2, e2) =
        backing_dispose io x.backing x.remote (cache_drop_drive d (set_drive s d (configured url)))
          e in
      if not (io.net_is_connected e2)
      then (esp_ok, s2, e2)
      else post_wait io hand (λ others. worker_mount others d) s2 e2

  unfoldable pub disk_unmount : ℤ → Disk → E → Esp × Disk × E
  disk_unmount d s e =
      if not (drive_ok d)
      then (err_invalid_arg, s, e)
      else let x = s.drv d in
        let (s2, e2) =
          backing_dispose io x.backing x.remote (cache_drop_drive d (set_drive s d empty_drive))
            e in
        (esp_ok, s2, e2)

  -- The canonical name, or the name as typed.
  unfoldable pub canon_of : Bytes → E → Bytes
  canon_of name e = elim (sd_path name (16 + file_cap)) [
    | none ↦ strlcpy (2 * file_cap) name
    | some path ↦ elim (io.sd_canonical path e) [
      | none ↦ strlcpy (2 * file_cap) name
      | some canon ↦ canon
    ]
  ]

  -- The table update of a local mount, and the close of what was there.
  unfoldable pub install_local : ℤ → Bytes → Backing → Disk → E → Disk × E
  install_local d name b s e =
      let x = s.drv d in
      backing_dispose io x.backing x.remote
        (cache_drop_drive d (set_drive s d (local_slot b name (canon_of name e)))) e

  unfoldable pub mount_opened : ℤ → Bytes → Backing ⊎ Esp → Disk → E → Esp × Disk × E
  mount_opened d name (inr err) s e = let (_, s1, e1) = disk_unmount d s e in (err, s1, e1)
  mount_opened d name (inl b) s e = let (s1, e1) = install_local d name b s e in (esp_ok, s1, e1)

  -- A local image that cannot be opened takes the old one off the drive all the same.
  unfoldable pub mount_local : ℤ → Bytes → Disk → E → Esp × Disk × E
  mount_local d name s e =
      if not (io.sd_mounted e)
      then mount_opened d name (inr err_invalid_state) s e
      else let (opened, e1) = local_open io name e in mount_opened d name opened s e1

  unfoldable pub disk_mount : Handoff E → ℤ → Bytes → Disk → E → Esp × Disk × E
  disk_mount hand d name s e =
      if not (drive_ok d) || eq_bytes name []
      then (err_invalid_arg, s, e)
      else if tnfs_is_url name
      then remote_configure hand d name s e
      else mount_local d name s e

  unfoldable pub disk_unmount_all : Disk → E → Disk × E
  unfolding disk_unmount
  disk_unmount_all s e =
      let (_, s0, e0) = disk_unmount (pos 0) s e in
      let (_, s1, e1) = disk_unmount (pos 1) s0 e0 in
      let (_, s2, e2) = disk_unmount (pos 2) s1 e1 in
      let (_, s3, e3) = disk_unmount (pos 3) s2 e2 in (s3, e3)
