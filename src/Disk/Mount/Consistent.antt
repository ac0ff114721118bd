-- ===== src/Disk/Mount/Consistent.antt =====
-- src/disk/disk.c: the mount table under mount and unmount, on and off the worker.
use fdc_sds_pio.Tnfs.{tnfs_is_url}
use fdc_sds_pio.Esp.{Esp, err_invalid_state, esp_ok}
use fdc_sds_pio.Disk.Backing.{Backing, local_backing, local_open, remote_backing}
use fdc_sds_pio.Disk.Mount.{
  configured, disk_mount, disk_unmount, empty_drive, install_local, mount_finish, mount_install,
  mount_local, mount_object, mount_opened, mount_read_only, mount_read_write, mount_session,
  mount_url, mount_wanted, remote_configure, worker_mount,
}
use fdc_sds_pio.Prelude.{
  Bool, Bool-cases, Bytes, Option, [], arith, eq_bytes, eq_int, false, if◌then◌else◌, inl, inr,
  none, not, refl, some, true, ℕ, ℤ, ◌||◌, ◌≡◌, ◌≢◌, ◌⊎◌,
}
use fdc_sds_pio.Disk.Io.{Io}
use fdc_sds_pio.Disk.Table.{Disk, Drive, cache_drop_drive, drive_ok, set_drive}
use fdc_sds_pio.Disk.Worker.{
  Handoff, Others, abandoned, backing_dispose, no_memory, no_queue, post_wait, queue_full, served,
}

-- A drive that is mounted has a backing of the kind that its `remote` flag says; one that is not has
-- none.
abbrev pub HasKind : Bool → Bool → Option Backing → Type 0
HasKind false remote none = Unit {0}
HasKind false remote (some b) = ⊥
HasKind true remote none = ⊥
HasKind true false (some (local_backing a fp size)) = Unit {0}
HasKind true false (some (remote_backing a tf)) = ⊥
HasKind true true (some (local_backing a fp size)) = ⊥
HasKind true true (some (remote_backing a tf)) = Unit {0}

pub record IsDrive (x : Drive) : Type 0 where
  pub kind : HasKind x.mounted x.remote x.backing
  pub read_only : x.readonly ≡ true → (x.remote ≡ true) × (x.mounted ≡ true)

abbrev pub IsTable : Disk → Type 0
IsTable s = (d : ℤ) → IsDrive (s.drv d)

pub cache_drop_drive-drv : (d : ℤ) (s : Disk) → (cache_drop_drive d s).drv ≡ s.drv
unfolding cache_drop_drive
cache_drop_drive-drv d s = ground arith

pub set_drive-IsTable :
    (d : ℤ) (x : Drive) (s : Disk)
    → IsDrive x
    → IsTable s
    → IsTable (cache_drop_drive d (set_drive s d x))
set_drive-IsTable d x s hx h i = rw cache_drop_drive-drv (go (eq_int d i))
  where
    go : (b : Bool) → IsDrive (if b then x else s.drv i)
    go true = hx
    go false = h i

module _ {E : Type 0} (io : Io E) where
  pub dispose-drv :
      (o : Option Backing) (remote : Bool) (s : Disk) (e : E)
      → (backing_dispose io o remote s e).0.drv ≡ s.drv
  unfolding backing_dispose
  dispose-drv none remote s e = refl
  dispose-drv (some b) remote s e = ground arith

  IsDrive-empty : IsDrive empty_drive
  IsDrive-empty = record { kind = tt; read_only = λ h. absurd (ground arith) }

  pub disk_unmount-IsTable :
      (d : ℤ) (s : Disk) (e : E) → IsTable s → IsTable (disk_unmount io d s e).1
  unfolding disk_unmount
  disk_unmount-IsTable d s e h = elim (Bool-cases (drive_ok d)) [
    | inr bad ↦ rw bad h
    | inl good ↦ rw (good, dispose-drv) (set_drive-IsTable d empty_drive s IsDrive-empty h)
  ]

  install_local-IsTable :
      (d : ℤ) (name : Bytes) (a fp size : ℕ) (s : Disk) (e : E)
      → IsTable s
      → IsTable (install_local io d name (local_backing a fp size) s e).0
  unfolding install_local
  install_local-IsTable d name a fp size s e h =
      rw dispose-drv
        (set_drive-IsTable d _ s (record { kind = tt; read_only = λ r. absurd (cc) }) h)

  -- What `local_open` returns is a local backing.
  abbrev IsLocal : Backing ⊎ Esp → Type 0
  IsLocal o = (a tf : ℕ) → o ≢ inl (remote_backing a tf)

  local_open-IsLocal : (name : Bytes) (e : E) → IsLocal (local_open io name e).0
  unfolding local_open
  local_open-IsLocal name e a tf = ground arith

  mount_opened-IsTable :
      (d : ℤ) (name : Bytes) (o : Backing ⊎ Esp) (s : Disk) (e : E)
      → IsLocal o
      → IsTable s
      → IsTable (mount_opened io d name o s e).1
  unfolding mount_opened
  mount_opened-IsTable d name (inr err) s e l h = disk_unmount-IsTable d s e h
  mount_opened-IsTable d name (inl (local_backing a fp size)) s e l h =
      install_local-IsTable d name a fp size s e h
  mount_opened-IsTable d name (inl (remote_backing a tf)) s e l h = absurd (l a tf refl)

  mount_local-IsTable :
      (d : ℤ) (name : Bytes) (s : Disk) (e : E) → IsTable s → IsTable (mount_local io d name s e).1
  unfolding mount_local
  mount_local-IsTable d name s e h = elim (Bool-cases (io.sd_mounted e)) [
    | inr no_card ↦
        rw no_card (mount_opened-IsTable d name (inr err_invalid_state) s e (λ a tf q. cc) h)
    | inl card ↦ rw card (
        mount_opened-IsTable d name (local_open io name e).0 s (local_open io name e).1
          (local_open-IsLocal name e) h)
  ]

  mount_install-IsTable :
      (d : ℤ) (url : Bytes) (readonly : Bool) (a tf : ℕ) (s t : Disk)
      → mount_install d url readonly (remote_backing a tf) s ≡ some t
      → IsTable s
      → IsTable t
  unfolding mount_install
  mount_install-IsTable d url readonly a tf s t h table =
      let x = s.drv d in
      let y = record x {
        backing = some (remote_backing a tf);
        mounted = true;
        readonly = readonly;
      } in
      let facts : (x.remote ≡ true) × (cache_drop_drive d (set_drive s d y) ≡ t) = ground arith in
      rw (← facts.1) (
        set_drive-IsTable d y s (record { kind = rw facts.0 tt; read_only = λ r. (facts.0, refl) })
          table)

  -- What the others do keeps the table consistent.
  abbrev pub KeepsTable : Others E → Type 0
  KeepsTable others = (s : Disk) (e : E) → IsTable s → IsTable (others s e).0

  abbrev pub HandoffTable : Handoff E → Type 0
  HandoffTable no_memory = Unit {0}
  HandoffTable no_queue = Unit {0}
  HandoffTable queue_full = Unit {0}
  HandoffTable (served before during after) =
      KeepsTable before × KeepsTable during × KeepsTable after
  HandoffTable (abandoned others) = KeepsTable others

  mount_finish-IsTable :
      (d : ℤ) (url : Bytes) (readonly : Bool) (a tf : ℕ) (o : Option Disk) (s : Disk) (e : E)
      → mount_install d url readonly (remote_backing a tf) s ≡ o
      → IsTable s
      → IsTable (mount_finish io tf o s e).1
  unfolding mount_finish
  mount_finish-IsTable d url readonly a tf none s e q h = h
  mount_finish-IsTable d url readonly a tf (some t) s e q h =
      mount_install-IsTable d url readonly a tf s t q h

  mount_session-IsTable :
      (others : Others E) (d : ℤ) (url : Bytes) (readonly : Bool) (tf : ℕ) (s : Disk) (e : E)
      → KeepsTable others
      → IsTable s
      → IsTable (mount_session io others d url readonly tf s e).1
  unfolding mount_session
  mount_session-IsTable others d url readonly tf s e keep h = go (io.calloc e).0
    where
      go : (o : Option ℕ) → IsTable (mount_object io others d url readonly tf o s (io.calloc e).1).1
      go none = unfold mount_object in h
      go (some a) =
          unfold mount_object in
          mount_finish-IsTable d url readonly a tf _ (others s (io.calloc e).1).0
            (others s (io.calloc e).1).1 refl (keep s (io.calloc e).1 h)

  mount_url-IsTable :
      (others : Others E) (d : ℤ) (o : Option Bytes) (s : Disk) (e : E)
      → KeepsTable others
      → IsTable s
      → IsTable (mount_url io others d o s e).1
  unfolding mount_url
  mount_url-IsTable others d none s e keep h = h
  mount_url-IsTable others d (some url) s e keep h = elim (Bool-cases (io.net_is_connected e)) [
    | inr down ↦ rw down h
    | inl up ↦ rw up (first (io.tnfs_open url true false e).0 (io.tnfs_open url true false e).1)
  ]
    where
      second : (o : ℕ ⊎ Esp) (e : E) → IsTable (mount_read_only io others d url o s e).1
      second (inl tf) e =
          unfold mount_read_only in mount_session-IsTable others d url true tf s e keep h
      second (inr err) e = unfold mount_read_only in h

      first : (o : ℕ ⊎ Esp) (e : E) → IsTable (mount_read_write io others d url o s e).1
      first (inl tf) e =
          unfold mount_read_write in mount_session-IsTable others d url false tf s e keep h
      first (inr err) e =
          unfold mount_read_write in
          second (io.tnfs_open url false false e).0 (io.tnfs_open url false false e).1

  pub worker_mount-IsTable :
      (others : Others E) (d : ℤ) (s : Disk) (e : E)
      → KeepsTable others
      → IsTable s
      → IsTable (worker_mount io others d s e).1
  unfolding worker_mount
  worker_mount-IsTable others d s e = mount_url-IsTable others d (mount_wanted d s) s e

  post_mount-IsTable :
      (hand : Handoff E) (d : ℤ) (s : Disk) (e : E)
      → HandoffTable hand
      → IsTable s
      → IsTable (post_wait io hand (λ others. worker_mount io others d) s e).1
  unfolding post_wait
  post_mount-IsTable no_memory d s e keep h = h
  post_mount-IsTable no_queue d s e keep h = h
  post_mount-IsTable queue_full d s e keep h = h
  post_mount-IsTable (served before during after) d s e keep h =
      let s1 = (before s e).0 in
      let e1 = (before s e).1 in
      keep.2 (worker_mount io during d s1 e1).1 (worker_mount io during d s1 e1).2
        (worker_mount-IsTable during d s1 e1 keep.1 (keep.0 s e h))
  post_mount-IsTable (abandoned others) d s e keep h = keep s e h

  configure_rest-IsTable :
      (hand : Handoff E) (d : ℤ) (s : Disk) (e : E)
      → HandoffTable hand
      → IsTable s
      → IsTable
          (if not (io.net_is_connected e)
            then (esp_ok, s, e)
            else post_wait io hand (λ others. worker_mount io others d) s e).1
  configure_rest-IsTable hand d s e keep h = elim (Bool-cases (io.net_is_connected e)) [
    | inr down ↦ rw down h
    | inl up ↦ rw up (post_mount-IsTable hand d s e keep h)
  ]

  remote_configure-IsTable :
      (hand : Handoff E) (d : ℤ) (url : Bytes) (s : Disk) (e : E)
      → HandoffTable hand
      → IsTable s
      → IsTable (remote_configure io hand d url s e).1
  unfolding remote_configure
  remote_configure-IsTable hand d url s e keep h = configure_rest-IsTable hand d r.0 r.1 keep table
    where
      x : Drive
      x = s.drv d

      s1 : Disk
      s1 = cache_drop_drive d (set_drive s d (configured url))

      r : Disk × E
      r = backing_dispose io x.backing x.remote s1 e

      table : IsTable r.0
      table = rw dispose-drv (
          set_drive-IsTable d (configured url) s
            (record { kind = tt; read_only = λ q. absurd (cc) }) h)

  -- `disk_mount`, whether it succeeds or not, leaves a consistent table: a mounted drive has a backing
  -- of the kind that its flag says, a drive that is not mounted has none, and only a mounted remote
  -- drive is read-only.
  pub disk_mount-IsTable :
      (hand : Handoff E) (d : ℤ) (name : Bytes) (s : Disk) (e : E)
      → HandoffTable hand
      → IsTable s
      → IsTable (disk_mount io hand d name s e).1
  unfolding disk_mount
  disk_mount-IsTable hand d name s e keep h =
      elim (Bool-cases (not (drive_ok d) || eq_bytes name [])) [
        | inl bad ↦ rw bad h
        | inr good ↦ rw good (elim (Bool-cases (tnfs_is_url name)) [
          | inl url ↦ rw url (remote_configure-IsTable hand d name s e keep h)
          | inr file ↦ rw file (mount_local-IsTable d name s e h)
        ])
      ]
