-- ===== src/Protocol/Geometry.antt =====
-- include/protocol.h: which tracks lie inside an image, with its 32-bit arithmetic.
use native.Mathlib.Nat.{le-div_iff_mul-le, mod-eq_of_lt}
use fdc_sds_pio.Prelude.{arith, suc, true, zero, ℕ, ◌%◌, ◌*◌, ◌+◌, ◌-◌, ◌<◌, ◌^◌, ◌↔◌, ◌≡◌, ◌≤◌}
use fdc_sds_pio.Protocol.{track_count, track_in_bounds, track_offset, word1_drive, word1_track}

-- `disk_track_in_bounds` is exactly the bound on the unwrapped product: the guard on the 32-bit
-- multiplication leaves out no track that fits, and lets none in that does not.
pub track_in_bounds_iff :
    (track len size : ℕ)
    → size < 2 ^ 32
    → (track_in_bounds track len size ≡ true) ↔ ((0 < len) × (track * len + len ≤ size))
unfolding track_in_bounds
track_in_bounds_iff track zero size h = ground arith
track_in_bounds_iff track (suc l) size h = ground (
  arith,
  le-div_iff_mul-le {k = suc l} {x = track} {y = 2 ^ 32 - 1} (omega arith),
  mod-eq_of_lt {n = track * suc l} {m = 2 ^ 32},
)

-- The tracks in bounds are those with an index below `disk_track_count`.
pub track_in_bounds-track_count :
    (track len size : ℕ)
    → size < 2 ^ 32
    → (track_in_bounds track len size ≡ true) ↔ (track < track_count size len)
unfolding track_count
track_in_bounds-track_count track zero size h =
    ground (arith, track_in_bounds_iff track zero size h)
track_in_bounds-track_count track (suc l) size h = ground (
  arith,
  track_in_bounds_iff track (suc l) size h,
  le-div_iff_mul-le {k = suc l} {x = suc track} {y = size} (omega arith),
)

-- In bounds, the 32-bit offset is the product, and the whole track lies inside the image.
pub track_offset_exact :
    (track len size : ℕ)
    → size < 2 ^ 32
    → track_in_bounds track len size ≡ true
    → (track_offset track len ≡ track * len) × (track_offset track len + len ≤ size)
unfolding track_offset
track_offset_exact track len size h b =
    let (_, fits) = (track_in_bounds_iff track len size h).0 b in
    let same : track * len % 2 ^ 32 ≡ track * len = mod-eq_of_lt (omega arith) in
    (same, omega (arith, same))

-- The two fields of Word1 are the word: four bits of drive over twelve bits of track.
pub word1_fields :
    (word1 : ℕ)
    → word1 < 2 ^ 16
    → (word1_drive word1 * 4096 + word1_track word1 ≡ word1)
      × (word1_drive word1 < 16)
      × (word1_track word1 < 4096)
unfolding word1_drive word1_track
word1_fields word1 h = omega arith
