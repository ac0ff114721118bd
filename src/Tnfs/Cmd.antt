-- ===== src/Tnfs/Cmd.antt =====
-- include/tnfs_proto.h: the commands.
use fdc_sds_pio.Prelude.{ℕ}

abbrev pub cmd_mount : ℕ
cmd_mount = 0

abbrev pub cmd_umount : ℕ
cmd_umount = 1

abbrev pub cmd_opendir : ℕ
cmd_opendir = 16

abbrev pub cmd_readdir : ℕ
cmd_readdir = 17

abbrev pub cmd_closedir : ℕ
cmd_closedir = 18

abbrev pub cmd_mkdir : ℕ
cmd_mkdir = 19

abbrev pub cmd_rmdir : ℕ
cmd_rmdir = 20

abbrev pub cmd_opendirx : ℕ
cmd_opendirx = 23

abbrev pub cmd_readdirx : ℕ
cmd_readdirx = 24

abbrev pub cmd_read : ℕ
cmd_read = 33

abbrev pub cmd_write : ℕ
cmd_write = 34

abbrev pub cmd_close : ℕ
cmd_close = 35

abbrev pub cmd_stat : ℕ
cmd_stat = 36

abbrev pub cmd_lseek : ℕ
cmd_lseek = 37

abbrev pub cmd_unlink : ℕ
cmd_unlink = 38

abbrev pub cmd_chmod : ℕ
cmd_chmod = 39

abbrev pub cmd_rename : ℕ
cmd_rename = 40

abbrev pub cmd_open : ℕ
cmd_open = 41
