-- ===== src/Disk/Mount/Outcome.antt =====
-- src/disk/disk.c: what a mount leaves on the drive.
use fdc_sds_pio.Tnfs.{tnfs_is_url}
use fdc_sds_pio.Disk.Backing.{Backing, file_cap, local_open}
use fdc_sds_pio.Disk.Worker.{Handoff, backing_dispose, post_async}
use fdc_sds_pio.Disk.Mount.{
  canon_of, disk_mount, disk_unmount, empty_drive, install_local, local_slot, mount_local,
  mount_opened,
}
use fdc_sds_pio.Prelude.{
  Bool, Bool-cases, Bytes, Option, [], ap, arith, eq_bytes, eq_bytes_iff, eq_int_iff, false, inl,
  inr, none, refl, some, strlcpy, true, ℤ, ◌≡◌, ◌≢◌, ◌⊎◌,
}
use fdc_sds_pio.Esp.{Esp, err_invalid_state, esp_ok}
use fdc_sds_pio.Disk.Io.{Io}
use fdc_sds_pio.Disk.Table.{Disk, Drive, cache_drop_drive, drive_ok, set_drive}
use fdc_sds_pio.Disk.Mount.Consistent.{cache_drop_drive-drv, dispose-drv}

-- The cache is not of this drive.
abbrev pub IsUncached : Disk → ℤ → Type 0
IsUncached s d = s.cache.valid ≡ true → s.cache.drive ≢ d

cache_drop_drive-IsUncached : (d : ℤ) (s : Disk) → IsUncached (cache_drop_drive d s) d
unfolding cache_drop_drive
cache_drop_drive-IsUncached d s = ground (arith, eq_int_iff s.cache.drive d)

set_drive_self : (s : Disk) (d : ℤ) (x : Drive) → (set_drive s d x).drv d ≡ x
set_drive_self s d x = ground (arith, eq_int_iff d d)

module _ {E : Type 0} (io : Io E) where
  dispose-cache :
      (o : Option Backing) (remote : Bool) (s : Disk) (e : E)
      → (backing_dispose io o remote s e).0.cache ≡ s.cache
  unfolding backing_dispose post_async
  dispose-cache none remote s e = refl
  dispose-cache (some b) remote s e = ground arith

  -- After the table update and the disposal the drive holds what was put there, uncached.
  replaced :
      (d : ℤ) (x : Drive) (o : Option Backing) (remote : Bool) (s : Disk) (e : E)
      → ((backing_dispose io o remote (cache_drop_drive d (set_drive s d x)) e).0.drv d ≡ x)
        × IsUncached (backing_dispose io o remote (cache_drop_drive d (set_drive s d x)) e).0 d
  replaced d x o remote s e = (
    rw dispose-drv (rw cache_drop_drive-drv (set_drive_self s d x)),
    rw dispose-cache (cache_drop_drive-IsUncached d (set_drive s d x)),
  )

  pub disk_unmount_lem :
      (d : ℤ) (s : Disk) (e : E)
      → drive_ok d ≡ true
      → ((disk_unmount io d s e).1.drv d ≡ empty_drive) × IsUncached (disk_unmount io d s e).1 d
  unfolding disk_unmount
  disk_unmount_lem d s e ok = rw ok (replaced d empty_drive (s.drv d).backing (s.drv d).remote s e)

  installed :
      (d : ℤ) (name : Bytes) (b : Backing) (s : Disk) (e : E)
      → ((install_local io d name b s e).0.drv d ≡ local_slot b name (canon_of io name e))
        × IsUncached (install_local io d name b s e).0 d
  unfolding install_local
  installed d name b s e =
      replaced d (local_slot b name (canon_of io name e)) (s.drv d).backing (s.drv d).remote s e

  local_open-ne-ok : (name : Bytes) (e : E) → (local_open io name e).0 ≢ inr esp_ok
  unfolding local_open
  local_open-ne-ok name e = ground arith

  -- The outcome of a local mount.
  abbrev pub IsMountOutcome : ℤ → Bytes → Esp × Disk × E → Type 0
  IsMountOutcome d name r =
      IsUncached r.1 d
      × ((r.0 ≢ esp_ok → r.1.drv d ≡ empty_drive)
          × (r.0 ≡ esp_ok
              → ((r.1.drv d).mounted ≡ true)
                × ((r.1.drv d).remote ≡ false)
                × ((r.1.drv d).readonly ≡ false)
                × ((r.1.drv d).name ≡ strlcpy file_cap name)))

  mount_opened-IsMountOutcome :
      (d : ℤ) (name : Bytes) (o : Backing ⊎ Esp) (s : Disk) (e : E)
      → drive_ok d ≡ true
      → o ≢ inr esp_ok
      → IsMountOutcome d name (mount_opened io d name o s e)
  unfolding mount_opened
  mount_opened-IsMountOutcome d name (inr err) s e ok failed =
      let (gone, uncached) = disk_unmount_lem d s e ok in
      (uncached, ((λ _. gone), (λ q. absurd (failed (ap inr q)))))
  mount_opened-IsMountOutcome d name (inl b) s e ok opened =
      let (here, uncached) = installed d name b s e in
      (uncached, ((λ q. absurd (q refl)), (λ _. rw here (refl, refl, refl, refl))))

  mount_local-IsMountOutcome :
      (d : ℤ) (name : Bytes) (s : Disk) (e : E)
      → drive_ok d ≡ true
      → IsMountOutcome d name (mount_local io d name s e)
  unfolding mount_local
  mount_local-IsMountOutcome d name s e ok = elim (Bool-cases (io.sd_mounted e)) [
    | inr no_card ↦
        rw no_card (mount_opened-IsMountOutcome d name (inr err_invalid_state) s e ok (λ q. cc))
    | inl card ↦ rw card (
        mount_opened-IsMountOutcome d name (local_open io name e).0 s (local_open io name e).1 ok
          (local_open-ne-ok name e))
  ]

  -- After a `disk_mount` of an SD image on a drive, the cache is not of that drive. If it succeeded,
  -- the drive is mounted, local, writable and has the name, and if it failed, the drive is empty: the
  -- old image is never left in place.
  pub disk_mount-IsMountOutcome :
      (hand : Handoff E) (d : ℤ) (name : Bytes) (s : Disk) (e : E)
      → drive_ok d ≡ true
      → name ≢ []
      → tnfs_is_url name ≡ false
      → IsMountOutcome d name (disk_mount io hand d name s e)
  unfolding disk_mount
  disk_mount-IsMountOutcome hand d name s e ok ne file =
      let named : eq_bytes name [] ≡ false = ground (arith, eq_bytes_iff name []) in
      rw (ok, named, file) (mount_local-IsMountOutcome d name s e ok)
