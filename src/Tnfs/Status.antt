-- ===== src/Tnfs/Status.antt =====
-- include/tnfs_proto.h: the status bytes.
use fdc_sds_pio.Prelude.{ℕ}

abbrev pub st_ok : ℕ
st_ok = 0

abbrev pub st_eperm : ℕ
st_eperm = 1

abbrev pub st_enoent : ℕ
st_enoent = 2

abbrev pub st_eio : ℕ
st_eio = 3

abbrev pub st_ebadf : ℕ
st_ebadf = 6

abbrev pub st_eagain : ℕ
st_eagain = 7

abbrev pub st_enomem : ℕ
st_enomem = 8

abbrev pub st_eacces : ℕ
st_eacces = 9

abbrev pub st_ebusy : ℕ
st_ebusy = 10

abbrev pub st_eexist : ℕ
st_eexist = 11

abbrev pub st_enotdir : ℕ
st_enotdir = 12

abbrev pub st_eisdir : ℕ
st_eisdir = 13

abbrev pub st_einval : ℕ
st_einval = 14

abbrev pub st_emfile : ℕ
st_emfile = 16

abbrev pub st_efbig : ℕ
st_efbig = 17

abbrev pub st_enospc : ℕ
st_enospc = 18

abbrev pub st_erofs : ℕ
st_erofs = 20

abbrev pub st_enametoolong : ℕ
st_enametoolong = 21

abbrev pub st_enosys : ℕ
st_enosys = 22

abbrev pub st_enotempty : ℕ
st_enotempty = 23

abbrev pub st_eof : ℕ
st_eof = 33
