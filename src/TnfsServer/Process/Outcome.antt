-- ===== src/TnfsServer/Process/Outcome.antt =====
-- src/net/tnfs_server.c: what the commands leave alone.
use fdc_sds_pio.Prelude.{Bytes}
use fdc_sds_pio.TnfsServer.Os.{Os}
use fdc_sds_pio.TnfsServer.State.{Session}
use fdc_sds_pio.TnfsServer.Process.{
  Command, chmod_cmd, close_cmd, closedir_cmd, handle, lseek_cmd, mkdir_cmd, open_cmd, opendir_cmd,
  opendirx_cmd, read_cmd, readdir_cmd, readdirx_cmd, rename_cmd, rmdir_cmd, stat_cmd, umount,
  unknown_cmd, unlink_cmd, write_cmd,
}
use fdc_sds_pio.TnfsServer.Names.{unlink_op}
use fdc_sds_pio.TnfsServer.Process.Keeps.{Handles, answered}
use fdc_sds_pio.TnfsServer.Process.Keeps.Files.{
  h_close-Handles, h_lseek-Handles, h_open-Handles, h_read-Handles, h_write-Handles,
}
use fdc_sds_pio.TnfsServer.Process.Keeps.Names.{h_pathop-Handles, h_rename-Handles, h_stat-Handles}
use fdc_sds_pio.TnfsServer.Process.Keeps.Streams.{
  h_closedir-Handles, h_opendir-Handles, h_opendirx-Handles,
}
use fdc_sds_pio.TnfsServer.Process.Keeps.Batches.{h_readdir-Handles, h_readdirx-Handles}

-- A request that is answered with a status other than TNFS_OK leaves its session as it was, whatever
-- the command; and one that succeeds leaves the id, the peer, the mount, the times, the cached reply
-- and the number of slots of both tables.
pub handle-Handles :
    {E : Type 0} (os : Os E) (c : Command) (s : Session) (pl : Bytes) (e : E)
    → Handles s (handle os c s pl e)
unfolding handle
handle-Handles os umount s pl e = answered s
handle-Handles os open_cmd s pl e = h_open-Handles os s pl e
handle-Handles os read_cmd s pl e = h_read-Handles os s pl e
handle-Handles os write_cmd s pl e = h_write-Handles os s pl e
handle-Handles os close_cmd s pl e = h_close-Handles os s pl e
handle-Handles os lseek_cmd s pl e = h_lseek-Handles os s pl e
handle-Handles os stat_cmd s pl e = h_stat-Handles os s pl e
handle-Handles os mkdir_cmd s pl e = h_pathop-Handles os s pl os.mkdir e
handle-Handles os rmdir_cmd s pl e = h_pathop-Handles os s pl os.rmdir e
handle-Handles os unlink_cmd s pl e = h_pathop-Handles os s pl (unlink_op os) e
handle-Handles os rename_cmd s pl e = h_rename-Handles os s pl e
handle-Handles os opendir_cmd s pl e = h_opendir-Handles os s pl e
handle-Handles os opendirx_cmd s pl e = h_opendirx-Handles os s pl e
handle-Handles os readdir_cmd s pl e = h_readdir-Handles os s pl e
handle-Handles os readdirx_cmd s pl e = h_readdirx-Handles os s pl e
handle-Handles os closedir_cmd s pl e = h_closedir-Handles os s pl e
handle-Handles os chmod_cmd s pl e = answered s
handle-Handles os unknown_cmd s pl e = answered s
