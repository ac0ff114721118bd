-- ===== src/Disk/Coherent/WriteTrack.antt =====
-- src/disk/disk.c: the cache under whole-track writes, and a read after one.
use fdc_sds_pio.Protocol.{track_offset}
use fdc_sds_pio.Prelude.{
  Bool, Bytes, Option, ap, arith, drop, eq_int_iff, false, length, none, refl, some, sym,
  take-append_left, ℕ, ℤ, ◌∙◌, ◌≡◌,
}
use fdc_sds_pio.Esp.{Esp, esp_ok}
use fdc_sds_pio.Disk.Io.{Io}
use fdc_sds_pio.Disk.Backing.{Backing, local_backing, size_of}
use fdc_sds_pio.Disk.Table.{Disk, cache_fill}
use fdc_sds_pio.Disk.Worker.{
  Handoff, Others, abandoned, no_memory, no_queue, queue_full, served, worker_write,
}
use fdc_sds_pio.Disk.Laws.{IoLaws}
use fdc_sds_pio.Disk.Coherent.Storage.{write_at-image}
use fdc_sds_pio.Disk.Coherent.Invariant.{IsCoherent, IsTrack, Storage}
use fdc_sds_pio.Disk.Coherent.Worker.{IsOwned, Keeps}
use fdc_sds_pio.Disk.Coherent.Write.{IsApart, IsQuiet, worker_write-IsCoherent}
use fdc_sds_pio.Disk.Track.{
  cache_copy_out, check_track, disk_read_track, disk_write_track, read_looked_up, write_local,
}

-- The hand-off of a write to drive `d`. Where the worker serves it, the tasks before and after keep the
-- cache coherent, those before do not mount the drive's file on another drive, and those during the
-- write leave the session and its file alone. Where the caller gives up, what has happened until
-- then, the worker's own write or a part of it, keeps the cache coherent.
abbrev pub IsPeacefulWrite :
    {E : Type 0} → Storage E → (Backing → Backing → Bool) → ℤ → Handoff E → Type 0
IsPeacefulWrite image apart d no_memory = Unit {0}
IsPeacefulWrite image apart d no_queue = Unit {0}
IsPeacefulWrite image apart d queue_full = Unit {0}
IsPeacefulWrite {E} image apart d (served before during after) =
    Keeps image before
    × ((s : Disk) (e : E) → IsApart apart s d → IsApart apart (before s e).0 d)
    × IsOwned image during
    × ((b : Backing) → IsQuiet image apart d b during)
    × Keeps image after
IsPeacefulWrite {E} image apart d (abandoned others) =
    (s : Disk) (e : E)
    → IsApart apart s d
    → IsCoherent image s e
    → IsCoherent image (others s e).0 (others s e).1

module _ {E : Type 0} (io : Io E) (laws : IoLaws io) where
  open laws use {image, apart}

  -- A caller that gives up just as the worker is through with its write is one that the next theorem
  -- allows, on the same conditions.
  pub worker_write-IsPeacefulWrite :
      (during : Others E) (d : ℤ) (track : ℕ) (bytes : Bytes)
      → IsOwned image during
      → ((b : Backing) → IsQuiet image apart d b during)
      → IsPeacefulWrite image apart d
          (abandoned λ s e. let r = worker_write io during d track bytes s e in (r.1, r.2))
  worker_write-IsPeacefulWrite during d track bytes own quiet s e far h =
      worker_write-IsCoherent io laws during d track bytes s e own (λ b _. quiet b) far h

  write_local_stored :
      (d : ℤ) (track : ℕ) (bytes : Bytes) (o : Option Backing) (s : Disk) (e : E)
      → (s.drv d).backing ≡ o
      → (write_local io d track bytes o s e).0 ≡ esp_ok
      → IsTrack image
          ((write_local io d track bytes o s e).1.drv d).backing
          track
          (length bytes)
          bytes
          (write_local io d track bytes o s e).2
  unfolding write_local cache_fill
  write_local_stored d track bytes none s e held ok = absurd (cc)
  write_local_stored d track bytes (some b) s e held ok =
      rw ok
        (rw held (sym (write_at-image io laws b (track_offset track (length bytes)) bytes e ok)))

  accepted :
      (hand : Handoff E) (d : ℤ) (track : ℕ) (bytes : Bytes) (s : Disk) (e : E)
      → (s.drv d).remote ≡ false
      → (disk_write_track io hand d track bytes s e).0 ≡ esp_ok
      → (disk_write_track io hand d track bytes s e
          ≡ write_local io d track bytes (s.drv d).backing s e)
        × (check_track io d track (length bytes) s e ≡ esp_ok)
  unfolding disk_write_track
  accepted hand d track bytes s e near ok = ground arith

  -- A write that `disk_write_track` accepts on a local drive is in the image, at the track's place.
  pub disk_write_track_stored :
      (hand : Handoff E) (d : ℤ) (track : ℕ) (bytes : Bytes) (s : Disk) (e : E)
      → (s.drv d).remote ≡ false
      → (disk_write_track io hand d track bytes s e).0 ≡ esp_ok
      → IsTrack image
          ((disk_write_track io hand d track bytes s e).1.drv d).backing
          track
          (length bytes)
          bytes
          (disk_write_track io hand d track bytes s e).2
  disk_write_track_stored hand d track bytes s e near ok =
      let (same, _) = accepted hand d track bytes s e near ok in
      rw same (write_local_stored d track bytes (s.drv d).backing s e refl (rw same at ok))

  write_local-ok :
      (d : ℤ) (track : ℕ) (bytes : Bytes) (o : Option Backing) (s : Disk) (e : E)
      → (write_local io d track bytes o s e).0 ≡ esp_ok
      → (write_local io d track bytes o s e).1 ≡ cache_fill d track bytes s
  unfolding write_local
  write_local-ok d track bytes o s e ok = ground arith

  check_track_kept :
      (d : ℤ) (track : ℕ) (bytes : Bytes) (s : Disk) (e e' : E) {a fp size : ℕ}
      → (s.drv d).backing ≡ some (local_backing a fp size)
      → check_track io d track (length bytes) s e ≡ esp_ok
      → check_track io d track (length bytes) (cache_fill d track bytes s) e' ≡ esp_ok
  unfolding check_track cache_fill size_of
  check_track_kept d track bytes s e e' held ok = ground arith

  cache_copy_out-cache_fill :
      (d : ℤ) (track : ℕ) (bytes : Bytes) (s : Disk)
      → cache_copy_out d track (length bytes) (cache_fill d track bytes s) ≡ some bytes
  unfolding cache_copy_out cache_fill
  cache_copy_out-cache_fill d track bytes s = ground (
    arith,
    eq_int_iff d d,
    take-append_left (length bytes) bytes (drop (length bytes) s.buf) refl,
  )

  -- After an accepted write to a local drive, a read of the same track with the same length gives
  -- the bytes that were written, and changes nothing.
  pub disk_read_track-disk_write_track :
      (write_hand read_hand : Handoff E) (d : ℤ) (track : ℕ) (bytes : Bytes) (s : Disk) (e : E)
      {a fp size : ℕ}
      → (s.drv d).remote ≡ false
      → (s.drv d).backing ≡ some (local_backing a fp size)
      → (disk_write_track io write_hand d track bytes s e).0 ≡ esp_ok
      → disk_read_track io read_hand d track
          (length bytes)
          (disk_write_track io write_hand d track bytes s e).1
          (disk_write_track io write_hand d track bytes s e).2
        ≡ (
          esp_ok,
          bytes,
          (disk_write_track io write_hand d track bytes s e).1,
          (disk_write_track io write_hand d track bytes s e).2,
        )
  unfolding disk_read_track read_looked_up
  disk_read_track-disk_write_track write_hand read_hand d track bytes s e near held ok =
      let (same, good) = accepted write_hand d track bytes s e near ok in
      let e1 = (disk_write_track io write_hand d track bytes s e).2 in
      let filled : (disk_write_track io write_hand d track bytes s e).1
          ≡ cache_fill d track bytes s =
        ap (λ (r : Esp × Disk × E). r.1) same
        ∙ write_local-ok d track bytes (s.drv d).backing s e (rw same at ok) in
      rw (
        filled,
        check_track_kept d track bytes s e e1 held good,
        cache_copy_out-cache_fill d track bytes s,
      )
