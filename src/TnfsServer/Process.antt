-- ===== src/TnfsServer/Process.antt =====
-- src/net/tnfs_server.c: the dispatch of a request in a session, and the replay of its reply.
pub mod Keeps
pub mod Outcome
use fdc_sds_pio.Prelude.{
  Bool, Bytes, Option, [], false, if◌then◌else◌, none, some, true, ℕ, ◌&&◌, ◌==◌,
}
use fdc_sds_pio.TnfsServer.Os.{Os}
use fdc_sds_pio.TnfsServer.State.{Reply, Session}
use fdc_sds_pio.TnfsServer.Sessions.{free_session, reply_and_cache}
use fdc_sds_pio.TnfsServer.Files.{Handled, answer, h_close, h_lseek, h_open, h_read, h_write}
use fdc_sds_pio.TnfsServer.Names.{h_pathop, h_rename, h_stat, unlink_op}
use fdc_sds_pio.TnfsServer.Dirs.{h_opendir, h_opendirx}
use fdc_sds_pio.TnfsServer.Streams.{h_closedir, h_readdir, h_readdirx}
use fdc_sds_pio.Tnfs.Status.{st_enosys, st_ok}
use fdc_sds_pio.Tnfs.Cmd.{
  cmd_chmod, cmd_close, cmd_closedir, cmd_lseek, cmd_mkdir, cmd_open, cmd_opendir, cmd_opendirx,
  cmd_read, cmd_readdir, cmd_readdirx, cmd_rename, cmd_rmdir, cmd_stat, cmd_umount, cmd_unlink,
  cmd_write,
}

-- The commands that the switch tells apart.
pub data Command : Type 0 where
  umount open_cmd read_cmd write_cmd close_cmd lseek_cmd stat_cmd mkdir_cmd rmdir_cmd : Command
  unlink_cmd rename_cmd opendir_cmd opendirx_cmd readdir_cmd readdirx_cmd closedir_cmd : Command
  chmod_cmd unknown_cmd : Command

-- The labels of the switch.
unfoldable pub command_of : ℕ → Command
command_of c =
    if c == cmd_umount
    then umount
    else if c == cmd_open
    then open_cmd
    else if c == cmd_read
    then read_cmd
    else if c == cmd_write
    then write_cmd
    else if c == cmd_close
    then close_cmd
    else if c == cmd_lseek
    then lseek_cmd
    else if c == cmd_stat
    then stat_cmd
    else if c == cmd_mkdir
    then mkdir_cmd
    else if c == cmd_rmdir
    then rmdir_cmd
    else if c == cmd_unlink
    then unlink_cmd
    else if c == cmd_rename
    then rename_cmd
    else if c == cmd_opendir
    then opendir_cmd
    else if c == cmd_opendirx
    then opendirx_cmd
    else if c == cmd_readdir
    then readdir_cmd
    else if c == cmd_readdirx
    then readdirx_cmd
    else if c == cmd_closedir
    then closedir_cmd
    else if c == cmd_chmod
    then chmod_cmd
    else unknown_cmd

-- The bodies of the switch.
unfoldable pub handle : {E : Type 0} → Os E → Command → Session → Bytes → E → Handled E
unfolding h_open h_read h_write h_close h_lseek h_stat h_pathop unlink_op h_rename h_opendir
    h_opendirx h_readdir h_readdirx h_closedir
handle os umount s pl e = answer st_ok s e
handle os open_cmd s pl e = h_open os s pl e
handle os read_cmd s pl e = h_read os s pl e
handle os write_cmd s pl e = h_write os s pl e
handle os close_cmd s pl e = h_close os s pl e
handle os lseek_cmd s pl e = h_lseek os s pl e
handle os stat_cmd s pl e = h_stat os s pl e
handle os mkdir_cmd s pl e = h_pathop os s pl os.mkdir e
handle os rmdir_cmd s pl e = h_pathop os s pl os.rmdir e
handle os unlink_cmd s pl e = h_pathop os s pl (unlink_op os) e
handle os rename_cmd s pl e = h_rename os s pl e
handle os opendir_cmd s pl e = h_opendir os s pl e
handle os opendirx_cmd s pl e = h_opendirx os s pl e
handle os readdir_cmd s pl e = h_readdir os s pl e
handle os readdirx_cmd s pl e = h_readdirx os s pl e
handle os closedir_cmd s pl e = h_closedir os s pl e
handle os chmod_cmd s pl e = answer st_ok s e
handle os unknown_cmd s pl e = answer st_enosys s e

unfoldable pub is_umount : Command → Bool
is_umount umount = true
is_umount _ = false

abbrev pub touch : ℕ → Session → Session
touch t s = record s { last_active_us = t }

-- `process(s, seq, cmd, rx, n)` on the payload of `rx`.
unfoldable pub process : {E : Type 0} → Os E → Session → ℕ → ℕ → Bytes → E → Session × E
unfolding command_of handle is_umount reply_and_cache free_session
process os s seq cmd pl e =
    let (body, s1, e1) = handle os (command_of cmd) s pl e in
    let (s2, e2) = reply_and_cache os s1 seq cmd body e1 in
    let s3 = touch (os.now_us e2) s2 in
    if is_umount (command_of cmd) then free_session os s3 e2 else (s3, e2)

-- Whether the cached reply is to this request.
unfoldable pub is_replay : ℕ → ℕ → Option Reply → Bool
is_replay seq cmd none = false
is_replay seq cmd (some r) = r.last_seq == seq && r.last_cmd == cmd

unfoldable pub cached_bytes : Option Reply → Bytes
cached_bytes none = []
cached_bytes (some r) = r.reply

-- The cached reply goes out again, and the session is active.
unfoldable pub replay : {E : Type 0} → Os E → Session → E → Session × E
unfolding cached_bytes
replay os s e = let e1 = os.sendto (cached_bytes s.cached) s.peer e in (touch (os.now_us e1) s, e1)
