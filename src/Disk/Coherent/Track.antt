-- ===== src/Disk/Coherent/Track.antt =====
-- src/disk/disk.c: the cache under whole-track reads, and what they return.
use fdc_sds_pio.Disk.Coherent.Worker.{IsPeaceful, post_wait-IsCoherent, worker_read-IsCoherent}
use fdc_sds_pio.Disk.Coherent.Storage.{is_ok_iff, read_at-image, read_at-keeps}
use fdc_sds_pio.Disk.Worker.{Handoff, worker_read}
use fdc_sds_pio.Protocol.{track_offset}
use fdc_sds_pio.Prelude.{
  Bool-cases, Bytes, Option, Option-cases, ap, arith, eq_int_iff, inl, inr, length, none, refl,
  some, sym, take, take_all, true, ℕ, ℤ, ◌∙◌, ◌≡◌,
}
use fdc_sds_pio.Esp.{Esp, esp_ok, is_ok}
use fdc_sds_pio.Disk.Io.{Io}
use fdc_sds_pio.Disk.Backing.{Backing, read_at}
use fdc_sds_pio.Disk.Table.{Disk, cache_fill}
use fdc_sds_pio.Disk.Laws.{IoLaws, slice}
use fdc_sds_pio.Disk.Coherent.Invariant.{IsCoherent, IsTrack, Storage, cache_fill-IsCoherent}
use fdc_sds_pio.Disk.Track.{
  cache_copy_out, check_track, copy_remote, disk_read_track, read_local, read_looked_up,
  read_remote,
}

-- The result of a read, and the state it leaves: a success gives the bytes of the track as the image
-- then holds them.
pub record IsRead {E : Type 0} (image : Storage E) (d : ℤ) (track len : ℕ)
    (r : Esp × Bytes × Disk × E) : Type 0 where
  pub bytes : r.0 ≡ esp_ok → IsTrack image (r.2.drv d).backing track len r.1 r.3
  pub sound : IsCoherent image r.2 r.3

module _ {E : Type 0} (io : Io E) (laws : IoLaws io) where
  open laws use {image, apart}

  cache_hit :
      (d : ℤ) (track len : ℕ) (s : Disk) (bytes : Bytes)
      → cache_copy_out d track len s ≡ some bytes
      → (s.cache.valid ≡ true)
        × (s.cache.drive ≡ d)
        × (s.cache.track ≡ track)
        × (s.cache.len ≡ len)
        × (take len s.buf ≡ bytes)
  unfolding cache_copy_out
  cache_hit d track len s bytes hit = ground (arith, eq_int_iff s.cache.drive d)

  -- A hit is of this drive, this track and this length.
  cache_copy_out-some :
      (d : ℤ) (track len : ℕ) (s : Disk) (e : E) (bytes : Bytes)
      → cache_copy_out d track len s ≡ some bytes
      → IsCoherent image s e
      → IsTrack image (s.drv d).backing track len bytes e
  cache_copy_out-some d track len s e bytes hit h =
      let (v, is_d, is_track, is_len, is_bytes) = cache_hit d track len s bytes hit in
      rw (← is_bytes, ← is_d, ← is_track, ← is_len) (h.cached v)

  copy_remote-IsRead :
      (d : ℤ) (track len : ℕ) (err : Esp) (s : Disk) (e : E)
      → IsCoherent image s e
      → IsRead image d track len (copy_remote io d track len err s e)
  unfolding copy_remote
  copy_remote-IsRead d track len err s e h = elim (Bool-cases (is_ok err)) [
    | inr failed ↦ rw failed (record { bytes = λ q. absurd (ground arith); sound = h })
    | inl done ↦ rw done (elim (Option-cases (cache_copy_out d track len s)) [
      | inl gone ↦ rw gone (record { bytes = λ q. absurd (ground arith); sound = h })
      | inr (bytes, hit) ↦
          rw hit
            (record { bytes = λ _. cache_copy_out-some d track len s e bytes hit h; sound = h })
    ])
  ]

  filled :
      (d : ℤ) (track len : ℕ) (got : Bytes) (b : Backing) (s : Disk) (e : E)
      → (s.drv d).backing ≡ some b
      → length got ≡ len
      → got ≡ slice (track_offset track len) len (image e b)
      → IsTrack image ((cache_fill d track got s).drv d).backing track len got e
  unfolding cache_fill
  filled d track len got b s e held len_is now = rw held now

  read_local-IsRead :
      (d : ℤ) (track len : ℕ) (o : Option Backing) (s : Disk) (e : E)
      → (s.drv d).backing ≡ o
      → IsCoherent image s e
      → IsRead image d track len (read_local io d track len o s e)
  unfolding read_local
  read_local-IsRead d track len none s e held h = record {
    bytes = λ q. absurd (ground arith);
    sound = h;
  }
  read_local-IsRead d track len (some b) s e held h =
      elim (Bool-cases (is_ok (read_at io b (track_offset track len) len e).0)) [
        | inr failed ↦ rw failed (record {
          bytes = λ q. absurd (cc);
          sound = record { cached = λ v. absurd (ground arith) };
        })
        | inl done ↦
            let (len_is, bytes_are) =
              read_at-image io laws b (track_offset track len) len e (is_ok_iff _ done) in
            let got = (read_at io b (track_offset track len) len e).1 in
            let e1 = (read_at io b (track_offset track len) len e).2 in
            let all : take len got ≡ got = take_all len got len_is in
            let now : got ≡ slice (track_offset track len) len (image e1 b) =
              bytes_are
              ∙ ap (slice (track_offset track len) len)
                  (sym (read_at-keeps io laws b b (track_offset track len) len e)) in
            rw (done, all)
              (record {
                bytes = λ _. filled d track len got b s e1 held len_is now;
                sound = cache_fill-IsCoherent image d track got s e1 (rw (held, len_is) now);
              })
      ]

  read_remote-IsRead :
      (hand : Handoff E) (d : ℤ) (track len : ℕ) (s : Disk) (e : E)
      → IsPeaceful image hand
      → IsCoherent image s e
      → IsRead image d track len (read_remote io hand d track len s e)
  unfolding read_remote
  read_remote-IsRead hand d track len s e calm h = copy_remote-IsRead d track len _ _ _ (
      post_wait-IsCoherent io laws hand (λ others. worker_read io others d track len) s e calm
        (λ others s e. worker_read-IsCoherent io laws others d track len s e) h)

  looked_up :
      (hand : Handoff E) (d : ℤ) (track len : ℕ) (o : Option Bytes) (s : Disk) (e : E)
      → IsPeaceful image hand
      → cache_copy_out d track len s ≡ o
      → IsCoherent image s e
      → IsRead image d track len (read_looked_up io hand d track len o s e)
  unfolding read_looked_up
  looked_up hand d track len (some bytes) s e calm hit h = record {
    bytes = λ _. cache_copy_out-some d track len s e bytes hit h;
    sound = h;
  }
  looked_up hand d track len none s e calm miss h = elim (Bool-cases (s.drv d).remote) [
    | inl far ↦ rw far (read_remote-IsRead hand d track len s e calm h)
    | inr near ↦ rw near (read_local-IsRead d track len (s.drv d).backing s e refl h)
  ]

  -- `disk_read_track` keeps the cache coherent on every path, errors included, and where it succeeds
  -- it has given the caller the bytes of the track as the drive's image then holds them: from the
  -- cache, from the card, and through the worker.
  pub disk_read_track-IsRead :
      (hand : Handoff E) (d : ℤ) (track len : ℕ) (s : Disk) (e : E)
      → IsPeaceful image hand
      → IsCoherent image s e
      → IsRead image d track len (disk_read_track io hand d track len s e)
  unfolding disk_read_track
  disk_read_track-IsRead hand d track len s e calm h =
      elim (Bool-cases (is_ok (check_track io d track len s e))) [
        | inr refused ↦ rw refused (record { bytes = λ q. absurd (cc); sound = h })
        | inl good ↦
            rw good (looked_up hand d track len (cache_copy_out d track len s) s e calm refl h)
      ]
