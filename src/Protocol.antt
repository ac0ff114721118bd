-- ===== src/Protocol.antt =====
-- include/protocol.h: the FDC+ block layout, checksums, track geometry and the mount bitmap.
pub mod Checksum
pub mod Corruption
pub mod Geometry
pub mod Bitmap
use fdc_sds_pio.Prelude.{
  Bool, Bytes, [], bit_or, false, get_or, if◌then◌else◌, leb, ltb, set, suc, take, zero, ℕ, ◌%◌,
  ◌&&◌, ◌*◌, ◌+◌, ◌-◌, ◌/◌, ◌==◌, ◌^◌, ◌∷◌,
}

abbrev pub block_len : ℕ
block_len = 10

abbrev pub off_word1 : ℕ
off_word1 = 4

abbrev pub off_word2 : ℕ
off_word2 = 6

abbrev pub off_cksum : ℕ
off_cksum = 8

abbrev pub resp_ok : ℕ
resp_ok = 0

abbrev pub resp_not_ready : ℕ
resp_not_ready = 1

abbrev pub resp_csum_err : ℕ
resp_csum_err = 2

abbrev pub resp_write_err : ℕ
resp_write_err = 3

abbrev pub track_buf_size : ℕ
track_buf_size = 8192

-- The loop of `fdc_checksum16`, with its 16-bit accumulator.
pub checksum_from : ℕ → Bytes → ℕ
checksum_from sum [] = sum
checksum_from sum (b ∷ bs) = checksum_from ((sum + b) % 2 ^ 16) bs

unfoldable pub checksum16 : Bytes → ℕ
unfolding checksum_from
checksum16 = checksum_from 0

-- `p` is the block from offset `off` on.
unfoldable pub read_le16 : Bytes → ℕ → ℕ
read_le16 p off = bit_or (get_or p off 0) (get_or p (suc off) 0 * 2 ^ 8) % 2 ^ 16

unfoldable pub write_le16 : Bytes → ℕ → ℕ → Bytes
write_le16 p off v = set (set p off (v % 2 ^ 8)) (suc off) (v / 2 ^ 8 % 2 ^ 8)

unfoldable pub block_finalize : Bytes → Bytes
unfolding write_le16 checksum16
block_finalize block = write_le16 block off_cksum (checksum16 (take off_cksum block))

unfoldable pub block_valid : Bytes → Bool
unfolding read_le16 checksum16
block_valid block = read_le16 block off_cksum == checksum16 (take off_cksum block)

unfoldable pub word1_drive : ℕ → ℕ
word1_drive word1 = word1 / 2 ^ 12 % 2 ^ 8

unfoldable pub word1_track : ℕ → ℕ
word1_track word1 = word1 % 2 ^ 12

unfoldable pub track_offset : ℕ → ℕ → ℕ
track_offset track track_len = track * track_len % 2 ^ 32

unfoldable pub track_in_bounds : ℕ → ℕ → ℕ → Bool
track_in_bounds track track_len image_size =
    if track_len == 0
    then false
    else if ltb ((2 ^ 32 - 1) / track_len) track
    then false
    else let off = track * track_len % 2 ^ 32 in
      if ltb image_size off then false else leb track_len (image_size - off)

unfoldable pub track_count : ℕ → ℕ → ℕ
track_count image_size track_len = if track_len == 0 then 0 else image_size / track_len

-- The loop of `disk_status_bitmap_of` from index `i` with `n` rounds left to `count`.
unfoldable pub bitmap_from : ℕ → ℕ → (ℕ → Bool) → ℕ → ℕ
bitmap_from zero i mounted bits = bits
bitmap_from (suc n) i mounted bits =
    bitmap_from n (suc i) mounted
      (if ltb i 16 && mounted i then bit_or bits (2 ^ i) % 2 ^ 16 else bits)

unfoldable pub status_bitmap_of : (ℕ → Bool) → ℕ → ℕ
unfolding bitmap_from
status_bitmap_of mounted count = bitmap_from count 0 mounted 0
