-- ===== src/Disk/Coherent/Mount.antt =====
-- src/disk/disk.c: the cache under mounts and unmounts.
use fdc_sds_pio.Sd.{sd_path}
use fdc_sds_pio.Esp.{Esp, err_invalid_state}
use fdc_sds_pio.Disk.Remote.{all_drives, disk_remote_unmount_all, dispose_all, drop_remote}
use fdc_sds_pio.Disk.Mount.{
  canon_of, disk_unmount, empty_drive, install_local, local_slot, mount_local, mount_opened,
}
use fdc_sds_pio.Disk.Coherent.Worker.{IsSound}
use fdc_sds_pio.Prelude.{
  Bool, Bool-cases, Bytes, List, Option, [], arith, false, inl, inr, none, refl, some, true, ℕ, ℤ,
  ◌&&◌, ◌+◌, ◌∙◌, ◌∷◌, ◌≡◌, ◌⊎◌,
}
use fdc_sds_pio.Disk.Io.{Io}
use fdc_sds_pio.Disk.Backing.{
  Backing, close, file_cap, local_backing, local_open, open_path, open_sized, open_stream,
  remote_backing,
}
use fdc_sds_pio.Disk.Table.{AsyncJob, Disk, Drive, cache_drop_drive, drive_ok, job_close, set_drive}
use fdc_sds_pio.Disk.Worker.{backing_dispose, post_async, post_object}
use fdc_sds_pio.Disk.Laws.{IoLaws}
use fdc_sds_pio.Disk.Coherent.Invariant.{IsCoherent, same_images-IsCoherent, set_drive-IsCoherent}

module _ {E : Type 0} (io : Io E) (laws : IoLaws io) where
  open laws use {image}

  close-image : (b c : Backing) (e : E) → image (close io b e) c ≡ image e c
  unfolding close
  close-image (local_backing a fp size) c e = laws.fclose_keeps fp c e
  close-image (remote_backing a tf) c e = laws.tnfs_close_keeps tf c e

  post_object-IsCoherent :
      (job : AsyncJob) (o : Option ℕ) (s : Disk) (e : E)
      → IsCoherent image s e
      → IsSound image (post_object io job o s e)
  unfolding post_object
  post_object-IsCoherent job none s e h = h
  post_object-IsCoherent job (some a) s e h =
      let e1 = (io.queue_send e).1 in
      let same : IsCoherent image s e1 =
        same_images-IsCoherent image s e e1 (λ b _. laws.queue_send_keeps b e) h in
      elim (Bool-cases (io.queue_send e).0) [
        | inl sent ↦ rw sent (record { cached = same.cached })
        | inr full ↦ rw full same
      ]

  dispose-IsCoherent :
      (o : Option Backing) (remote : Bool) (s : Disk) (e : E)
      → IsCoherent image s e
      → IsCoherent image (backing_dispose io o remote s e).0 (backing_dispose io o remote s e).1
  unfolding backing_dispose post_async
  dispose-IsCoherent none remote s e h = h
  dispose-IsCoherent (some b) false s e h =
      same_images-IsCoherent image s e (close io b e) (λ c _. close-image b c e) h
  dispose-IsCoherent (some b) true s e h =
      post_object-IsCoherent (job_close b) (io.calloc e).0 s (io.calloc e).1
        (same_images-IsCoherent image s e (io.calloc e).1 (λ c _. laws.calloc_keeps c e) h)

  pub disk_unmount-IsCoherent :
      (d : ℤ) (s : Disk) (e : E) → IsCoherent image s e → IsSound image (disk_unmount io d s e)
  unfolding disk_unmount
  disk_unmount-IsCoherent d s e h = elim (Bool-cases (drive_ok d)) [
    | inr bad ↦ rw bad h
    | inl good ↦ rw good (
        dispose-IsCoherent (s.drv d).backing (s.drv d).remote
          (cache_drop_drive d (set_drive s d empty_drive)) e
          (set_drive-IsCoherent image d empty_drive s e h))
  ]

  open_sized-image :
      (fp : ℕ) (o : Option ℕ) (b : Backing) (e : E) → image (open_sized io fp o e).1 b ≡ image e b
  unfolding open_sized
  open_sized-image fp none b e = laws.fclose_keeps fp b e
  open_sized-image fp (some sz) b e =
      ground (arith, laws.calloc_keeps b e, laws.fclose_keeps fp b (io.calloc e).1)

  open_stream-image :
      (o : Option ℕ) (b : Backing) (e : E) → image (open_stream io o e).1 b ≡ image e b
  unfolding open_stream
  open_stream-image none b e = refl
  open_stream-image (some fp) b e =
      let e1 = (io.fseek_end fp e).1 in
      elim (Bool-cases (io.fseek_end fp e).0) [
        | inr failed ↦ rw failed (laws.fclose_keeps fp b e1 ∙ laws.fseek_end_keeps fp b e)
        | inl sought ↦
            rw sought (open_sized-image fp (io.ftell fp e1) b e1 ∙ laws.fseek_end_keeps fp b e)
      ]

  -- Opening an image file changes no image.
  open_path-image :
      (o : Option Bytes) (b : Backing) (e : E) → image (open_path io o e).1 b ≡ image e b
  unfolding open_path
  open_path-image none b e = refl
  open_path-image (some path) b e =
      open_stream-image (io.fopen path e).0 b (io.fopen path e).1 ∙ laws.fopen_keeps path b e

  mount_opened-IsCoherent :
      (d : ℤ) (name : Bytes) (o : Backing ⊎ Esp) (s : Disk) (e : E)
      → IsCoherent image s e
      → IsSound image (mount_opened io d name o s e)
  unfolding mount_opened install_local
  mount_opened-IsCoherent d name (inr err) s e h = disk_unmount-IsCoherent d s e h
  mount_opened-IsCoherent d name (inl b) s e h =
      let slot : Drive = local_slot b name (canon_of io name e) in
      dispose-IsCoherent (s.drv d).backing (s.drv d).remote
        (cache_drop_drive d (set_drive s d slot)) e (set_drive-IsCoherent image d slot s e h)

  -- A mount of an SD image, successful or not, keeps the cache coherent.
  pub mount_local-IsCoherent :
      (d : ℤ) (name : Bytes) (s : Disk) (e : E)
      → IsCoherent image s e
      → IsSound image (mount_local io d name s e)
  unfolding mount_local local_open
  mount_local-IsCoherent d name s e h = elim (Bool-cases (io.sd_mounted e)) [
    | inr no_card ↦ rw no_card (mount_opened-IsCoherent d name (inr err_invalid_state) s e h)
    | inl card ↦
        let r = open_path io (sd_path name (16 + file_cap)) e in
        rw card (
          mount_opened-IsCoherent d name r.0 s r.1 (
            same_images-IsCoherent image s e r.1
              (λ b _. open_path-image (sd_path name (16 + file_cap)) b e) h))
  ]

  -- The loop over the remote drives drops the cache of each that it takes down.
  drop_remote-IsCoherent :
      (ds : List ℤ) (s : Disk) (e : E)
      → IsCoherent image s e
      → IsCoherent image (drop_remote ds s).0 e
  unfolding drop_remote
  drop_remote-IsCoherent [] s e h = h
  drop_remote-IsCoherent (d ∷ ds) s e h =
      elim (Bool-cases ((s.drv d).remote && (s.drv d).mounted)) [
        | inr skip ↦ rw skip (drop_remote-IsCoherent ds s e h)
        | inl live ↦ rw live (
            drop_remote-IsCoherent ds
              (cache_drop_drive d (
                set_drive s d
                  (record (s.drv d) { backing = none; mounted = false; readonly = false })))
              e (set_drive-IsCoherent image d _ s e h))
      ]

  dispose_all-IsCoherent :
      (bs : List Backing) (s : Disk) (e : E)
      → IsCoherent image s e
      → IsCoherent image (dispose_all io bs s e).0 (dispose_all io bs s e).1
  unfolding dispose_all
  dispose_all-IsCoherent [] s e h = h
  dispose_all-IsCoherent (b ∷ bs) s e h =
      dispose_all-IsCoherent bs (backing_dispose io (some b) true s e).0
        (backing_dispose io (some b) true s e).1 (dispose-IsCoherent (some b) true s e h)

  -- When the WiFi link goes down, the remote drives are taken down and the cache stays coherent.
  pub disk_remote_unmount_all-IsCoherent :
      (s : Disk) (e : E)
      → IsCoherent image s e
      → IsCoherent image (disk_remote_unmount_all io s e).0 (disk_remote_unmount_all io s e).1
  unfolding disk_remote_unmount_all
  disk_remote_unmount_all-IsCoherent s e h =
      dispose_all-IsCoherent (drop_remote all_drives s).1 (drop_remote all_drives s).0 e
        (drop_remote-IsCoherent all_drives s e h)
