-- ===== src/Tnfs/Proto.antt =====
-- include/tnfs_proto.h: the wire constants of TNFS and its little-endian words. A writer gives the
-- bytes that it puts.
use fdc_sds_pio.Prelude.{Bytes, [], bit_or, get_or, ℕ, ◌%◌, ◌*◌, ◌+◌, ◌/◌, ◌^◌, ◌∷◌}

abbrev pub tnfs_default_port : ℕ
tnfs_default_port = 16384

abbrev pub hdr_len : ℕ
hdr_len = 4

abbrev pub io_chunk : ℕ
io_chunk = 1024

abbrev pub msg_cap : ℕ
msg_cap = hdr_len + 4 + io_chunk

abbrev pub readdirx_fixed : ℕ
readdirx_fixed = 13

abbrev pub direntry_dir : ℕ
direntry_dir = 1

abbrev pub dirstatus_eof : ℕ
dirstatus_eof = 1

abbrev pub ver_lo : ℕ
ver_lo = 2

abbrev pub ver_hi : ℕ
ver_hi = 1

unfoldable pub rd16 : Bytes → ℕ
rd16 p = bit_or (get_or p 0 0) (get_or p 1 0 * 2 ^ 8) % 2 ^ 16

unfoldable pub rd32 : Bytes → ℕ
rd32 p =
    bit_or (bit_or (bit_or (get_or p 0 0) (get_or p 1 0 * 2 ^ 8)) (get_or p 2 0 * 2 ^ 16))
      (get_or p 3 0 * 2 ^ 24)

unfoldable pub wr16 : ℕ → Bytes
wr16 v = v % 2 ^ 8 ∷ v / 2 ^ 8 % 2 ^ 8 ∷ []

unfoldable pub wr32 : ℕ → Bytes
wr32 v = v % 2 ^ 8 ∷ v / 2 ^ 8 % 2 ^ 8 ∷ v / 2 ^ 16 % 2 ^ 8 ∷ v / 2 ^ 24 % 2 ^ 8 ∷ []
