-- ===== src/Disk/Coherent/Invariant.antt =====
-- src/disk/disk.c: what coherence of the cache is.
use fdc_sds_pio.Prelude.{
  Bool-cases, Bytes, Option, ap, arith, drop, eq_int, eq_int_iff, false, inl, inr, length, none,
  refl, some, sym, take, take-append_left, true, ℕ, ℤ, ◌&&◌, ◌∙◌, ◌≡◌, ◌≢◌,
}
use fdc_sds_pio.Protocol.{track_offset}
use fdc_sds_pio.Disk.Backing.{Backing}
use fdc_sds_pio.Disk.Table.{Disk, Drive, cache_drop_drive, cache_fill, set_drive}
use fdc_sds_pio.Disk.Laws.{slice}

abbrev pub Storage : Type 0 → Type 0
Storage E = E → Backing → Bytes

-- The bytes are those of this track in the image that the backing holds.
abbrev pub IsTrack : {E : Type 0} → Storage E → Option Backing → ℕ → ℕ → Bytes → E → Type 0
IsTrack image none track len bytes e = ⊥
IsTrack image (some b) track len bytes e = bytes ≡ slice (track_offset track len) len (image e b)

-- The cache, if valid, is of a drive with a backing, and the buffer holds what the image holds.
pub record IsCoherent {E : Type 0} (image : Storage E) (s : Disk) (e : E) : Type 0 where
  pub cached :
      s.cache.valid ≡ true
      → IsTrack image
          (s.drv s.cache.drive).backing
          s.cache.track
          s.cache.len
          (take s.cache.len s.buf)
          e

module _ {E : Type 0} (image : Storage E) where
  pub invalid-IsCoherent : (s : Disk) (e : E) → s.cache.valid ≡ false → IsCoherent image s e
  invalid-IsCoherent s e h = record { cached = λ v. absurd (ground arith) }

  IsTrack-image :
      (o : Option Backing) (track len : ℕ) (bytes : Bytes) (e e' : E)
      → ((b : Backing) → o ≡ some b → image e' b ≡ image e b)
      → IsTrack image o track len bytes e
      → IsTrack image o track len bytes e'
  IsTrack-image none track len bytes e e' same h = h
  IsTrack-image (some b) track len bytes e e' same h =
      h ∙ ap (slice (track_offset track len) len) (sym (same b refl))

  -- The state of the disk stays, and the images as well.
  pub same_images-IsCoherent :
      (s : Disk) (e e' : E)
      → ((b : Backing) → (s.drv s.cache.drive).backing ≡ some b → image e' b ≡ image e b)
      → IsCoherent image s e
      → IsCoherent image s e'
  same_images-IsCoherent s e e' same h = record {
    cached = λ v.
        IsTrack-image (s.drv s.cache.drive).backing s.cache.track s.cache.len
          (take s.cache.len s.buf) e e' same (h.cached v);
  }

  -- The buffer is filled with what the image of the drive's backing holds.
  pub cache_fill-IsCoherent :
      (d : ℤ) (track : ℕ) (bytes : Bytes) (s : Disk) (e : E)
      → IsTrack image (s.drv d).backing track (length bytes) bytes e
      → IsCoherent image (cache_fill d track bytes s) e
  unfolding cache_fill
  cache_fill-IsCoherent d track bytes s e h = record {
    cached = λ v. rw (take-append_left (length bytes) bytes (drop (length bytes) s.buf) refl) h;
  }

  -- Dropping a drive's cache allows any change of its backing and of its image.
  pub cache_drop_drive-IsCoherent :
      (d : ℤ) (s : Disk) (e e' : E)
      → (s.cache.valid ≡ true
          → s.cache.drive ≢ d
          → (b : Backing) → (s.drv s.cache.drive).backing ≡ some b
          → image e' b ≡ image e b)
      → IsCoherent image s e
      → IsCoherent image (cache_drop_drive d s) e'
  unfolding cache_drop_drive
  cache_drop_drive-IsCoherent d s e e' same h =
      elim (Bool-cases (s.cache.valid && eq_int s.cache.drive d)) [
        | inl mine ↦ rw mine (record { cached = λ v. absurd (ground arith) })
        | inr elsewhere ↦ rw elsewhere (elim (Bool-cases s.cache.valid) [
          | inr invalid ↦ record { cached = λ v. absurd (ground arith) }
          | inl valid ↦
              same_images-IsCoherent s e e'
                (same valid (λ q. cc (elsewhere, valid, (eq_int_iff s.cache.drive d).1 q))) h
        ])
      ]

  -- The same where the table entry is replaced.
  pub set_drive-IsCoherent :
      (d : ℤ) (x : Drive) (s : Disk) (e : E)
      → IsCoherent image s e
      → IsCoherent image (cache_drop_drive d (set_drive s d x)) e
  unfolding cache_drop_drive
  set_drive-IsCoherent d x s e h = elim (Bool-cases (s.cache.valid && eq_int s.cache.drive d)) [
    | inl mine ↦ rw mine (record { cached = λ v. absurd (ground arith) })
    | inr elsewhere ↦ rw elsewhere (elim (Bool-cases s.cache.valid) [
      | inr invalid ↦ record { cached = λ v. absurd (ground arith) }
      | inl valid ↦
          let ne : eq_int d s.cache.drive ≡ false =
            ground (arith, eq_int_iff d s.cache.drive, eq_int_iff s.cache.drive d) in
          record { cached = λ v. rw ne (h.cached v) }
    ])
  ]
