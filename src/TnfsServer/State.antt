-- ===== src/TnfsServer/State.antt =====
-- src/net/tnfs_server.c: the sessions, their open files and directories, and errno on the wire.
use fdc_sds_pio.Prelude.{Bool, Bytes, List, Option, [], false, none, ℕ, ◌&&◌, ◌*◌, ◌==◌, ◌∷◌}
use fdc_sds_pio.TnfsServer.Os.{
  Errno, Peer, e_acces, e_badf, e_busy, e_exist, e_inval, e_io, e_isdir, e_mfile, e_nametoolong,
  e_nfile, e_noent, e_nomem, e_nospc, e_notdir, e_notempty, e_other, e_perm, e_rofs, e_zero,
}
use fdc_sds_pio.Tnfs.Status.{
  st_eacces, st_ebadf, st_ebusy, st_eexist, st_einval, st_eio, st_eisdir, st_emfile,
  st_enametoolong, st_enoent, st_enomem, st_enospc, st_enotdir, st_enotempty, st_erofs, st_ok,
}

abbrev pub max_sessions : ℕ
max_sessions = 2

abbrev pub max_files : ℕ
max_files = 4

abbrev pub max_dirs : ℕ
max_dirs = 2

abbrev pub idle_us : ℕ
idle_us = 30 * 1000000

abbrev pub min_retry_ms : ℕ
min_retry_ms = 1000

abbrev pub abs_cap : ℕ
abs_cap = 320

abbrev pub root_cap : ℕ
root_cap = 160

abbrev pub pat_cap : ℕ
pat_cap = 64

abbrev pub name_cap : ℕ
name_cap = 256

-- An entry with its metadata: what `dir_next` puts out, and what a slot has pending.
pub record Entry : Type 0 where
  pub flags : ℕ
  pub size : ℕ
  pub mtime : ℕ
  pub ctime : ℕ
  pub name : Bytes

-- `has_pending` and the fields `p_…` are one option.
pub record Dirslot : Type 0 where
  pub in_use : Bool
  pub dir : ℕ
  pub abspath : Bytes
  pub pattern : Bytes
  pub pos : ℕ
  pub pending : Option Entry

-- `files` has `none` for -1. `have_reply`, `last_seq`, `last_cmd` and `reply` with its length are
-- one option.
pub record Reply : Type 0 where
  pub last_seq : ℕ
  pub last_cmd : ℕ
  pub reply : Bytes

pub record Session : Type 0 where
  pub live : Bool
  pub sid : ℕ
  pub peer : Peer
  pub last_active_us : ℕ
  pub root : Bytes
  pub files : List (Option ℕ)
  pub dirs : List Dirslot
  pub cached : Option Reply

-- `s_sessions` and `s_next_sid`
pub record TnfsState : Type 0 where
  pub sessions : List Session
  pub next_id : ℕ

abbrev pub zero_slot : Dirslot
zero_slot = record { in_use = false; dir = 0; abspath = []; pattern = []; pos = 0; pending = none }

-- What `free_session` leaves.
abbrev pub zero_session : Session
zero_session = record {
  live = false;
  sid = 0;
  peer = record { addr = 0; port = 0 };
  last_active_us = 0;
  root = [];
  files = none ∷ none ∷ none ∷ none ∷ [];
  dirs = zero_slot ∷ zero_slot ∷ [];
  cached = none;
}

unfoldable pub errno_to_tnfs : Errno → ℕ
errno_to_tnfs e_zero = st_ok
errno_to_tnfs e_noent = st_enoent
errno_to_tnfs e_acces = st_eacces
errno_to_tnfs e_perm = st_eacces
errno_to_tnfs e_exist = st_eexist
errno_to_tnfs e_notdir = st_enotdir
errno_to_tnfs e_isdir = st_eisdir
errno_to_tnfs e_inval = st_einval
errno_to_tnfs e_mfile = st_emfile
errno_to_tnfs e_nfile = st_emfile
errno_to_tnfs e_nospc = st_enospc
errno_to_tnfs e_rofs = st_erofs
errno_to_tnfs e_nametoolong = st_enametoolong
errno_to_tnfs e_notempty = st_enotempty
errno_to_tnfs e_badf = st_ebadf
errno_to_tnfs e_nomem = st_enomem
errno_to_tnfs e_busy = st_ebusy
errno_to_tnfs e_io = st_eio
errno_to_tnfs (e_other _) = st_eio

unfoldable pub same_peer : Peer → Peer → Bool
same_peer a b = a.addr == b.addr && a.port == b.port
